-- ===== src/Mail/Pop/Entering.antt =====
-- The commands of a POP3 connection and the mutexes.
use qnxstuff.Prelude.{
  ℕ, ◌+◌, ◌≤◌, ◌≡◌, refl, ap, sym, ◌∙◌, ◌≢◌, inl, inr, Bool, Option, none, some, List, ltb, length,
  get_elem?, set, drop, Bool-cases, arith, length-set,
}
use qnxstuff.Prelude.Strings.{c_string}
use qnxstuff.Mail.Text.{split_at}
use qnxstuff.Mail.Mailboxes.{Mailbox, find_mailbox, Locks}
use qnxstuff.Mail.Pop.Connection.{PopState, mbx_none, mbx_auth, mbx_tran, Pop, Site}
use qnxstuff.Mail.Pop.Login.{
  pop_build_session, locked_by_us, enter, turn_away, try_mailbox, digest_ok, printed_secret, log_in,
  apop_split, apop, user_cmd, pass,
}
use qnxstuff.Mail.Pop.Session.{Outcome, again, over}
use qnxstuff.Mail.Pop.Keeps.{Keeps, printed_secret-Keeps, list_files-Keeps}
use qnxstuff.Mail.Pop.Locks.{Holds, View}

-- The buffer keeps its room.
abbrev pub Roomy : Pop → Pop → Type 0
Roomy s s' = length s.buffer ≤ length s'.buffer

module _ (site : Site) (l : Locks) where
  abbrev Fine : Pop → Pop → Type 0
  Fine s s' = Holds site.me l s' × Roomy s s'

  turned : (p : PopState) (s : Pop) → p ≢ mbx_tran → s.locks ≡ l → Fine s (turn_away p s)
  turned mbx_tran s n e = absurd (n refl)
  turned mbx_none s n e = (e, omega arith)
  turned mbx_auth s n e = (e, omega arith)

  entered :
      (user : List ℕ) (i : ℕ) (s : Pop)
      → s.mbox ≡ some i
      → get_elem? l i ≡ some none
      → s.locks ≡ l
      → (let s' = locked_by_us site user i (some none) s in Fine s (turn_away s'.pstate s'))
  unfolding pop_build_session
  entered user i s b free e =
      let open_box : Pop = record s { pstate = mbx_tran; locks = set s.locks i (some site.me) } in
      let k = list_files-Keeps site.alc_buf_size user (site.directory user) open_box in
      rw (k.state, k.box ∙ b, k.mutexes ∙ ap (λ t. set t i (some site.me)) e) ((free, refl), k.room)

  shut_out :
      (user : List ℕ) (i : ℕ) (o : Option (Option ℕ)) (s : Pop)
      → s.mbox ≡ some i
      → get_elem? l i ≡ o
      → s.pstate ≢ mbx_tran
      → s.locks ≡ l
      → (let s' = locked_by_us site user i o s in Fine s (turn_away s'.pstate s'))
  shut_out user i none s b o n e = turned s.pstate s n e
  shut_out user i (some none) s b o n e = entered user i s b o e
  shut_out user i (some (some who)) s b o n e = turned s.pstate s n e

  tried :
      (user : List ℕ) (right : Mailbox → Bool) (found : Option (ℕ × Mailbox)) (s : Pop)
      → s.pstate ≢ mbx_tran
      → s.locks ≡ l
      → (let s' = try_mailbox site user right found s in Fine s (turn_away s'.pstate s'))
  unfolding enter
  tried user right none s n e = turned s.pstate (record s { mbox = none }) n e
  tried user right (some (i, m)) s n e = elim (Bool-cases (right m)) [
    | inl t ↦ rw t (
        shut_out user i (get_elem? s.locks i) (record s { mbox = some i }) refl
          (ap (λ t. get_elem? t i) (sym e)) n e)
    | inr f ↦ rw f (turned s.pstate (record s { mbox = some i }) n e)
  ]

  log_in-Fine :
      (user : List ℕ) (right : Mailbox → Bool) (s : Pop)
      → s.pstate ≢ mbx_tran
      → s.locks ≡ l
      → Fine s (log_in site user right s)
  unfolding log_in
  log_in-Fine user right s n e = tried user right (find_mailbox user site.mbx) s n e

  -- A command that keeps the state, the mailbox and the mutexes
  pub Keeps-Fine : {s s' : Pop} → Keeps s s' → Holds site.me l s → Fine s s'
  Keeps-Fine {s} {s'} k h = rw (k.state, k.box, k.mutexes) (h, k.room)

  not_in : (p : PopState) → p ≡ mbx_none → p ≢ mbx_tran
  not_in p e f = cc

  not_in_auth : (p : PopState) → p ≡ mbx_auth → p ≢ mbx_tran
  not_in_auth p e f = cc

  apop_split-Fine :
      (o : Option (List ℕ × List ℕ)) (s : Pop)
      → s.pstate ≡ mbx_none
      → s.locks ≡ l
      → Fine s (apop_split site o s)
  apop_split-Fine none s p e = rw p (e, omega arith)
  apop_split-Fine (some (name, hash)) s p e =
      let found = find_mailbox name site.mbx in
      let cut : Pop = record s { user = some name; buffer = set s.buffer (5 + length name) 0 } in
      let k = printed_secret-Keeps site.alc_buf_size found cut in
      let fine =
        log_in-Fine name (digest_ok s.greeting hash) (printed_secret site.alc_buf_size found cut)
          (not_in _ (k.state ∙ p)) (k.mutexes ∙ e) in
      (fine.0, omega (arith, fine.1, k.room, length-set s.buffer (5 + length name) 0))

  pub apop-Fine :
      (p : PopState) (result : ℕ) (s : Pop)
      → s.pstate ≡ p
      → View site.me l p s.mbox s.locks
      → Fine s (apop site p result s)
  unfolding apop
  apop-Fine mbx_none result s p h = elim (Bool-cases (ltb result 40)) [
    | inl e ↦ rw (e, p) (h, omega arith)
    | inr e ↦ rw e (apop_split-Fine (split_at b' ' (c_string (drop 5 s.buffer))) s p h)
  ]
  apop-Fine mbx_auth result s p h = rw p (h, omega arith)
  apop-Fine mbx_tran result s p h = rw p (h, omega arith)

  pub pass-Fine :
      (p : PopState) (result : ℕ) (s : Pop)
      → s.pstate ≡ p
      → View site.me l p s.mbox s.locks
      → Fine s (pass site p result s)
  unfolding pass
  pass-Fine mbx_auth result s p h = elim (Bool-cases (ltb result 7)) [
    | inl e ↦ rw (e, p) (h, omega arith)
    | inr e ↦ rw e (log_in-Fine _ _ s (not_in_auth _ p) h)
  ]
  pass-Fine mbx_none result s p h = rw p (h, omega arith)
  pass-Fine mbx_tran result s p h = rw p (h, omega arith)

  pub user_cmd-Fine :
      (p : PopState) (result : ℕ) (s : Pop)
      → s.pstate ≡ p
      → View site.me l p s.mbox s.locks
      → Fine s (user_cmd p result s)
  unfolding user_cmd
  user_cmd-Fine mbx_none result s p h = elim (Bool-cases (ltb result 7)) [
    | inl e ↦ rw (e, p) (h, omega arith)
    | inr e ↦ rw e (h, omega arith)
  ]
  user_cmd-Fine mbx_auth result s p h = rw p (h, omega arith)
  user_cmd-Fine mbx_tran result s p h = rw p (h, omega arith)

  -- What a command makes of the mutexes: it goes on in a state that shows them, or ends with none.
  abbrev pub Good : Pop → Outcome → Type 0
  Good s (again s') = Fine s s'
  Good s (over s') = s'.locks ≡ l
