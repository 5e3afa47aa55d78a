-- ===== src/Mail/Pop/Login.antt =====
-- QX-mail/pop3.c: the commands APOP, USER and PASS, and POPBuildSession.
use qnxstuff.Prelude.{
  ℕ, ◌+◌, ◌%◌, Bool, Option, none, some, List, [], ◌∷◌, ◌++◌, ltb, if◌then◌else◌, length, get_elem?,
  set, drop,
}
use qnxstuff.Prelude.Strings.{stricmp_eq, c_string}
use qnxstuff.Mail.Md5.{get_md5}
use qnxstuff.Mail.Text.{split_at, memicmp_eq}
use qnxstuff.Mail.Mailboxes.{Mailbox, find_mailbox}
use qnxstuff.Mail.Pop.Connection.{
  PopState, mbx_none, mbx_auth, mbx_tran, MsgEnt, DirEnt, Pop, Site, positive, negative, send,
  print_into,
}

-- POPBuildSession: the regular files, each in front of those before it.
abbrev path_of : List ℕ → DirEnt → List ℕ
path_of user e = user ++ (b'/' ∷ e.d_name)

unfoldable pub add_entry : ℕ → List ℕ → DirEnt → Pop → Pop
add_entry size user e s =
    let path = path_of user e in
    let msg : MsgEnt = record { del = 0; size = e.st_size % 4294967296; name = path } in
    record (print_into size (path ++ (0 ∷ [])) s) {
      msgs = if e.is_regular then msg ∷ s.msgs else s.msgs;
    }

unfoldable pub add_entries : ℕ → List ℕ → List DirEnt → Pop → Pop
unfolding add_entry
add_entries size user [] s = s
add_entries size user (e ∷ es) s = add_entries size user es (add_entry size user e s)

abbrev pub list_files : ℕ → List ℕ → Option (List DirEnt) → Pop → Pop
list_files size user none s = s
list_files size user (some es) s = add_entries size user es s

unfoldable pub pop_build_session : Site → List ℕ → Pop → Pop
unfolding add_entries
pop_build_session site user s = list_files site.alc_buf_size user (site.directory user) s

-- Where the secret is right: the mailbox is entered if its mutex can be locked.
abbrev pub locked_by_us : Site → List ℕ → ℕ → Option (Option ℕ) → Pop → Pop
locked_by_us site user i (some none) s = send positive (
    pop_build_session site user
      (record s { pstate = mbx_tran; locks = set s.locks i (some site.me) }))
locked_by_us site user i _ s = s

unfoldable pub enter : Site → List ℕ → ℕ → Pop → Pop
enter site user i s = locked_by_us site user i (get_elem? s.locks i) s

-- Who did not get in starts again.
abbrev pub turn_away : PopState → Pop → Pop
turn_away mbx_tran s = s
turn_away _ s = send negative (record s { user = none; pstate = mbx_none })

-- The search in MBX, and the test of the secret at the mailbox found.
abbrev pub try_mailbox : Site → List ℕ → (Mailbox → Bool) → Option (ℕ × Mailbox) → Pop → Pop
try_mailbox site user right none s = record s { mbox = none }
try_mailbox site user right (some (i, m)) s =
    let s' = record s { mbox = some i } in if right m then enter site user i s' else s'

unfoldable pub log_in : Site → List ℕ → (Mailbox → Bool) → Pop → Pop
unfolding enter
log_in site user right s =
    let s' = try_mailbox site user right (find_mailbox user site.mbx) s in turn_away s'.pstate s'

-- APOP. The hash is taken of the greeting and the password, printed into the buffer.
abbrev pub digest_ok : List ℕ → List ℕ → Mailbox → Bool
digest_ok greeting hash m = memicmp_eq 32 hash (get_md5 (greeting ++ m.password))

abbrev pub printed_secret : ℕ → Option (ℕ × Mailbox) → Pop → Pop
printed_secret size none s = s
printed_secret size (some (i, m)) s = print_into size (s.greeting ++ (m.password ++ (0 ∷ []))) s

abbrev pub apop_split : Site → Option (List ℕ × List ℕ) → Pop → Pop
apop_split site none s = send negative s
apop_split site (some (name, hash)) s =
    let cut = record s { user = some name; buffer = set s.buffer (5 + length name) 0 } in
    log_in site name (digest_ok s.greeting hash)
      (printed_secret site.alc_buf_size (find_mailbox name site.mbx) cut)

unfoldable pub apop : Site → PopState → ℕ → Pop → Pop
unfolding log_in
apop site mbx_none result s =
    if ltb result 40
    then send negative s
    else apop_split site (split_at b' ' (c_string (drop 5 s.buffer))) s
apop site _ result s = send negative s

-- USER
unfoldable pub user_cmd : PopState → ℕ → Pop → Pop
user_cmd mbx_none result s =
    if ltb result 7
    then send negative s
    else send positive (record s { user = some (c_string (drop 5 s.buffer)); pstate = mbx_auth })
user_cmd _ result s = send negative s

-- PASS. In the state of authorisation there is a user.
abbrev pub name_of : Option (List ℕ) → List ℕ
name_of none = []
name_of (some u) = u

unfoldable pub pass : Site → PopState → ℕ → Pop → Pop
unfolding log_in
pass site mbx_auth result s =
    if ltb result 7
    then send negative s
    else log_in site (name_of s.user) (λ m. stricmp_eq m.password (c_string (drop 5 s.buffer))) s
pass site _ result s = send negative s
