-- ===== src/Mail/Pop/Within.antt =====
-- A POP3 connection that never prints behind its buffer.
use qnxstuff.Prelude.{
  ℕ, zero, suc, ◌+◌, ◌-◌, ◌*◌, ◌≤◌, ◌≡◌, refl, ap, sym, subst, ◌∙◌, ◌≢◌, inl, inr, Bool, ◌||◌,
  false, Option, none, some, List, [], ◌∷◌, ◌++◌, ltb, length, get_elem?, set, drop, All,
  Bool-cases, arith, length-append,
}
use qnxstuff.Prelude.Strings.{c_string}
use qnxstuff.Prelude.Memory.{load32}
use qnxstuff.Mail.Text.{split_at, capitals, codes}
use qnxstuff.Mail.Lines.{Read, line, failed, read_string}
use qnxstuff.Mail.Mailboxes.{Mailbox, find_mailbox}
use qnxstuff.Mail.Pop.Connection.{
  PopState, mbx_none, mbx_auth, mbx_tran, MsgEnt, DirEnt, Pop, Site, send, positive,
}
use qnxstuff.Mail.Pop.Login.{
  add_entry, add_entries, list_files, pop_build_session, locked_by_us, enter, turn_away,
  try_mailbox, log_in, digest_ok, printed_secret, apop_split, apop, user_cmd, pass,
}
use qnxstuff.Mail.Pop.Messages.{list_cmd, retr, dele, stat, chosen}
use qnxstuff.Mail.Pop.Session.{
  Outcome, again, over, noop, quit, PopCommand, apop_c, dele_c, list_c, noop_c, pass_c, quit_c,
  retr_c, rset_c, stat_c, user_c, unsupported, command, perform, pop_line, Run, finished, greeted,
  proceed, after_read, pop_loop,
}
use qnxstuff.Mail.Pop.Fits.{
  Tidy, fits_lem, stat-Tidy, list_cmd-Tidy, retrieve-Tidy, delete-Tidy, rset-Tidy,
}

-- What is printed for a site fits in its buffer: the greeting, with 7 bytes around it; the greeting
-- and the password of each mailbox; and of each directory the paths, and the list, of which every
-- file takes a line of 25 bytes at most.
pub record Fits (site : Site) (mark : List ℕ) : Type 0 where
  pub size : 64 ≤ site.alc_buf_size
  pub hello : length mark + 7 ≤ site.alc_buf_size
  pub secrets :
      (name : List ℕ) (i : ℕ) (m : Mailbox)
      → find_mailbox name site.mbx ≡ some (i, m)
      → length mark + length m.password + 1 ≤ site.alc_buf_size
  pub paths :
      (user : List ℕ) (es : List DirEnt)
      → site.directory user ≡ some es
      → All (λ e. length user + length e.d_name + 2 ≤ site.alc_buf_size) es
        × (25 * length es + 9 ≤ site.alc_buf_size)

-- The files that become messages
record Grown (n : ℕ) (s s' : Pop) : Type 0 where
  prints : s'.overrun ≡ s.overrun
  hello : s'.greeting ≡ s.greeting
  state : s'.pstate ≡ s.pstate
  more : length s'.msgs ≤ length s.msgs + n

add_entry-Grown :
    (size : ℕ) (user : List ℕ) (e : DirEnt) (s : Pop)
    → length user + length e.d_name + 2 ≤ size
    → Grown 1 s (add_entry size user e s)
unfolding add_entry
add_entry-Grown size user e s h =
    let path = user ++ (b'/' ∷ e.d_name) in
    let f =
      fits_lem s.overrun size (length (path ++ (0 ∷ [])))
        (omega (arith, length-append path (0 ∷ []), length-append user (b'/' ∷ e.d_name))) in
    ground arith

add_entries-Grown :
    (size : ℕ) (user : List ℕ) (es : List DirEnt) (s : Pop)
    → All (λ e. length user + length e.d_name + 2 ≤ size) es
    → Grown (length es) s (add_entries size user es s)
unfolding add_entries
add_entries-Grown size user [] s h = ground arith
add_entries-Grown size user (e ∷ es) s (h, hs) =
    let one = add_entry-Grown size user e s h in
    let rest = add_entries-Grown size user es (add_entry size user e s) hs in
    record {
      prints = rest.prints ∙ one.prints;
      hello = rest.hello ∙ one.hello;
      state = rest.state ∙ one.state;
      more = omega (arith, rest.more, one.more);
    }

module _ (site : Site) (mark : List ℕ) (fits : Fits site mark) where
  -- Outside the state of transaction there are no messages; in it, their list fits.
  abbrev Listed : PopState → List MsgEnt → Type 0
  Listed mbx_tran ms = 25 * length ms + 9 ≤ site.alc_buf_size
  Listed _ ms = length ms ≡ 0

  abbrev pub Safe : Pop → Type 0
  Safe s = (s.overrun ≡ false) × (s.greeting ≡ mark) × Listed s.pstate s.msgs

  abbrev Base : Pop → Type 0
  Base s = (s.overrun ≡ false) × (s.greeting ≡ mark) × (length s.msgs ≡ 0)

  Listed-fewer :
      (p : PopState) (ms ns : List MsgEnt) → length ns ≤ length ms → Listed p ms → Listed p ns
  Listed-fewer mbx_tran ms ns h l = omega arith
  Listed-fewer mbx_none ms ns h l = omega arith
  Listed-fewer mbx_auth ms ns h l = omega arith

  Tidy-Safe : {s s' : Pop} → Tidy s s' → Safe s → Safe s'
  Tidy-Safe {s} {s'} t (a, b, c) =
      (t.prints ∙ a, t.hello ∙ b, rw t.state (Listed-fewer s.pstate s.msgs s'.msgs t.fewer c))

  turned : (p : PopState) (s : Pop) → p ≢ mbx_tran → Base s → Safe (turn_away p s)
  turned mbx_tran s n h = absurd (n refl)
  turned mbx_none s n h = h
  turned mbx_auth s n h = h

  built :
      (user : List ℕ) (s : Pop) (found : Option (List DirEnt))
      → site.directory user ≡ found
      → Base s
      → s.pstate ≡ mbx_tran
      → (let s' = list_files site.alc_buf_size user found s in (s'.pstate ≡ mbx_tran) × Safe s')
  built user s none e (a, b, c) p = (p, (a, b, rw p (omega (arith, fits.size))))
  built user s (some es) e (a, b, c) p =
      let (each, all) = fits.paths user es e in
      let g = add_entries-Grown site.alc_buf_size user es s each in
      (g.state ∙ p, (g.prints ∙ a, g.hello ∙ b, rw (g.state ∙ p) (omega (arith, g.more, all))))

  turned_in : (s : Pop) → s.pstate ≡ mbx_tran → Safe s → Safe (turn_away s.pstate s)
  turned_in s p h = subst (λ q. Safe (turn_away q s)) (sym p) h

  locked :
      (user : List ℕ) (i : ℕ) (o : Option (Option ℕ)) (s : Pop)
      → s.pstate ≢ mbx_tran
      → Base s
      → (let s' = locked_by_us site user i o s in Safe (turn_away s'.pstate s'))
  unfolding pop_build_session
  locked user i none s n h = turned s.pstate s n h
  locked user i (some none) s n h =
      let open_box : Pop = record s { pstate = mbx_tran; locks = set s.locks i (some site.me) } in
      let (p, safe) = built user open_box (site.directory user) refl h refl in
      turned_in (send positive (pop_build_session site user open_box)) p safe
  locked user i (some (some who)) s n h = turned s.pstate s n h

  log_in-Safe :
      (user : List ℕ) (right : Mailbox → Bool) (s : Pop)
      → s.pstate ≢ mbx_tran
      → Base s
      → Safe (log_in site user right s)
  unfolding log_in enter
  log_in-Safe user right s n h = go (find_mailbox user site.mbx)
    where
      go :
          (found : Option (ℕ × Mailbox))
          → (let s' = try_mailbox site user right found s in Safe (turn_away s'.pstate s'))
      go none = turned s.pstate (record s { mbox = none }) n h
      go (some (i, m)) = elim (Bool-cases (right m)) [
        | inl t ↦ rw t (locked user i (get_elem? s.locks i) (record s { mbox = some i }) n h)
        | inr f ↦ rw f (turned s.pstate (record s { mbox = some i }) n h)
      ]

  secret-Tidy :
      (name : List ℕ) (found : Option (ℕ × Mailbox)) (s : Pop)
      → find_mailbox name site.mbx ≡ found
      → s.greeting ≡ mark
      → Tidy s (printed_secret site.alc_buf_size found s)
  secret-Tidy name none s e g = ground arith
  secret-Tidy name (some (i, m)) s e g =
      let f =
        fits_lem s.overrun site.alc_buf_size (length (s.greeting ++ (m.password ++ (0 ∷ [])))) (
          omega (
            arith,
            length-append s.greeting (m.password ++ (0 ∷ [])),
            length-append m.password (0 ∷ []),
            fits.secrets name i m e,
            ap length g,
          )) in
      ground arith

  not_in : (p q : PopState) → p ≡ q → q ≢ mbx_tran → p ≢ mbx_tran
  not_in p q e n f = n (sym e ∙ f)

  split-Safe :
      (o : Option (List ℕ × List ℕ)) (s : Pop)
      → s.pstate ≡ mbx_none
      → Base s
      → Safe (apop_split site o s)
  split-Safe none s p (a, b, c) = (a, b, rw p c)
  split-Safe (some (name, hash)) s p (a, b, c) =
      let found = find_mailbox name site.mbx in
      let cut : Pop = record s { user = some name; buffer = set s.buffer (5 + length name) 0 } in
      let t = secret-Tidy name found cut refl b in
      log_in-Safe name (digest_ok s.greeting hash) (printed_secret site.alc_buf_size found cut)
        (not_in _ mbx_none (t.state ∙ p) (λ e. cc))
        (t.prints ∙ a, t.hello ∙ b, omega (arith, t.fewer, c))

  apop-Safe :
      (p : PopState) (result : ℕ) (s : Pop) → s.pstate ≡ p → Safe s → Safe (apop site p result s)
  unfolding apop
  apop-Safe mbx_none result s p (a, b, c) =
      let base = rw p at c in
      elim (Bool-cases (ltb result 40)) [
        | inl e ↦ rw e (a, b, c)
        | inr e ↦ rw e (split-Safe (split_at b' ' (c_string (drop 5 s.buffer))) s p (a, b, base))
      ]
  apop-Safe mbx_auth result s p h = h
  apop-Safe mbx_tran result s p h = h

  pass-Safe :
      (p : PopState) (result : ℕ) (s : Pop) → s.pstate ≡ p → Safe s → Safe (pass site p result s)
  unfolding pass
  pass-Safe mbx_auth result s p (a, b, c) =
      let base = rw p at c in
      elim (Bool-cases (ltb result 7)) [
        | inl e ↦ rw e (a, b, c)
        | inr e ↦ rw e (log_in-Safe _ _ s (not_in _ mbx_auth p (λ e. cc)) (a, b, base))
      ]
  pass-Safe mbx_none result s p h = h
  pass-Safe mbx_tran result s p h = h

  user_cmd-Safe :
      (p : PopState) (result : ℕ) (s : Pop) → s.pstate ≡ p → Safe s → Safe (user_cmd p result s)
  unfolding user_cmd
  user_cmd-Safe mbx_none result s p (a, b, c) =
      let base = rw p at c in
      elim (Bool-cases (ltb result 7)) [ inl e ↦ rw e (a, b, c) | inr e ↦ rw e (a, b, base) ]
  user_cmd-Safe mbx_auth result s p h = h
  user_cmd-Safe mbx_tran result s p h = h

  stat-Safe : (s : Pop) → Safe s → Safe (stat site.alc_buf_size s.pstate s)
  stat-Safe s h = Tidy-Safe (stat-Tidy site.alc_buf_size s.pstate s fits.size) h

  list_cmd-Safe :
      (p : PopState) (s : Pop) → s.pstate ≡ p → Safe s → Safe (list_cmd site.alc_buf_size p s)
  unfolding list_cmd
  list_cmd-Safe mbx_tran s p (a, b, c) =
      Tidy-Safe (list_cmd-Tidy site.alc_buf_size s (fits.size, rw p at c)) (a, b, c)
  list_cmd-Safe mbx_none s p h = h
  list_cmd-Safe mbx_auth s p h = h

  retr-Safe : (p : PopState) (s : Pop) → Safe s → Safe (retr site p s)
  unfolding retr
  retr-Safe mbx_tran s h = Tidy-Safe (retrieve-Tidy site (chosen s) s) h
  retr-Safe mbx_none s h = h
  retr-Safe mbx_auth s h = h

  dele-Safe : (p : PopState) (s : Pop) → Safe s → Safe (dele p s)
  unfolding dele
  dele-Safe mbx_tran s h = Tidy-Safe (delete-Tidy (chosen s) s) h
  dele-Safe mbx_none s h = h
  dele-Safe mbx_auth s h = h

  -- A command goes on in such a state, or ends without such a print.
  abbrev pub Prints : Outcome → Type 0
  Prints (again s) = Safe s
  Prints (over s) = s.overrun ≡ false

  noop-Prints : (p : PopState) (s : Pop) → Safe s → Prints (noop p s)
  unfolding noop
  noop-Prints mbx_tran s h = h
  noop-Prints mbx_none s h = h.0
  noop-Prints mbx_auth s h = h.0

  perform-Prints :
      (result : ℕ) (c : PopCommand) (s : Pop) → Safe s → Prints (perform site result c s)
  unfolding perform quit
  perform-Prints result apop_c s h = apop-Safe s.pstate result s refl h
  perform-Prints result user_c s h = user_cmd-Safe s.pstate result s refl h
  perform-Prints result pass_c s h = pass-Safe s.pstate result s refl h
  perform-Prints result stat_c s h = stat-Safe s h
  perform-Prints result list_c s h = list_cmd-Safe s.pstate s refl h
  perform-Prints result retr_c s h = retr-Safe s.pstate s h
  perform-Prints result dele_c s h = dele-Safe s.pstate s h
  perform-Prints result rset_c s h = Tidy-Safe (rset-Tidy s.pstate s) h
  perform-Prints result noop_c s h = noop-Prints s.pstate s h
  perform-Prints result quit_c s h = h.0
  perform-Prints result unsupported s h = h

  pub pop_line-Prints : (result : ℕ) (s : Pop) → Safe s → Prints (pop_line site result s)
  unfolding pop_line
  pop_line-Prints result s h =
      perform-Prints result (command (load32 (capitals s.buffer) 0))
        (record s { buffer = capitals s.buffer }) h

  -- The end of a run
  abbrev pub Within : Run → Type 0
  Within (finished s) = s.overrun ≡ false
  Within Run.starved = Unit

  proceed-Within :
      (next : List (List ℕ) → Pop → Run) (net : List (List ℕ)) (o : Outcome)
      → ((s : Pop) → Safe s → Within (next net s))
      → Prints o
      → Within (proceed next net o)
  proceed-Within next net (again s) k h = k s h
  proceed-Within next net (over s) k h = h

  read-Within :
      (next : List (List ℕ) → Pop → Run) (s : Pop) (r : Read)
      → ((net : List (List ℕ)) (s : Pop) → Safe s → Within (next net s))
      → Safe s
      → Within (after_read site next s r)
  read-Within next s (line n buffer net) k h =
      proceed-Within next net (pop_line site n (record s { buffer = buffer })) (k net)
        (pop_line-Prints n (record s { buffer = buffer }) h)
  read-Within next s (failed buffer net) k h = h.0
  read-Within next s Read.starved k h = tt

  pub pop_loop-Within :
      (fuel : ℕ) (net : List (List ℕ)) (s : Pop) → Safe s → Within (pop_loop fuel site net s)
  unfolding pop_loop
  pop_loop-Within zero net s h = tt
  pop_loop-Within (suc fuel) net s h =
      read-Within (pop_loop fuel site) s (read_string (site.alc_buf_size - 1) s.buffer net)
        (λ net' s' h'. pop_loop-Within fuel net' s' h') h

  pub greeted-Safe :
      (s : Pop) → s.overrun ≡ false → length s.msgs ≡ 0 → Safe (greeted site.alc_buf_size mark s)
  unfolding greeted
  greeted-Safe s o e =
      let text = codes "+OK " ++ (mark ++ (13 ∷ 10 ∷ [])) in
      let f =
        fits_lem s.overrun site.alc_buf_size (length (mark ++ (0 ∷ [])))
          (omega (arith, length-append mark (0 ∷ []), fits.hello)) in
      let g = fits_lem s.overrun site.alc_buf_size (length (text ++ (0 ∷ []))) (
        omega
          (arith, length-append text (0 ∷ []), length-append mark (13 ∷ 10 ∷ []), fits.hello)) in
      (ap (λ b. b || ltb site.alc_buf_size (length (text ++ (0 ∷ [])))) f ∙ (g ∙ o), refl, e)
