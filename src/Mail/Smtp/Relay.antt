-- ===== src/Mail/Smtp/Relay.antt =====
-- To whom QX-mail/smtp.c lets a client send mail.
use qnxstuff.Prelude.{
  ℕ, suc, ◌≡◌, refl, ap, subst, sym, ◌⊎◌, inl, inr, Bool, true, false, not, ◌&&◌, Option, none,
  some, List, [], ◌∷◌, ltb, ◌==◌, drop, All, Bool-cases, arith,
}
use qnxstuff.Prelude.Strings.{c_string}
use qnxstuff.Mail.Text.{strcmp_eq}
use qnxstuff.Mail.Mailboxes.{find_mailbox}
use qnxstuff.Mail.Smtp.Connection.{
  SmtpState, ss_none, ss_helo, ss_rcpt, ss_data, SmtpMsg, Smtp, Site, Outcome, again, over, fault,
}
use qnxstuff.Mail.Smtp.Envelope.{
  sender, new_message, restarted, greet, Address, unclosed, unopened, found, address, ended,
  accept_sender, mail, is_local, add_recipient, accept_recipient, rcpt, reset,
}
use qnxstuff.Mail.Smtp.Body.{
  Body, whole, broken, received_line, bytes_of, read_body, with_file, ready, spooled, store,
  data_cmd,
}
use qnxstuff.Mail.Smtp.Auth.{auth}

-- A mailbox of this server
abbrev pub IsLocal : Site → List ℕ → Type 0
IsLocal site address = is_local (find_mailbox address site.mbx) ≡ true

-- Without authorisation, only such recipients
abbrev pub Permitted : Site → ℕ → SmtpMsg → Type 0
Permitted site auth m = auth ≡ 0 → All (IsLocal site) m.to

-- The messages of a connection in its states
abbrev pub Pending : Site → SmtpState → ℕ → List SmtpMsg → Type 0
Pending site ss_none auth ms = ms ≡ []
Pending site ss_helo auth ms = ms ≡ []
Pending site ss_rcpt auth ms = (ms ≡ []) ⊎ ((m : SmtpMsg) × (ms ≡ m ∷ []) × Permitted site auth m)
Pending site ss_data auth ms = ⊥

abbrev pub IsSafe : Site → Smtp → Type 0
IsSafe site s = Pending site s.sstate s.auth s.msgs

-- What a turn may do to the queue of the spooler: nothing, or put a permitted message in front.
abbrev pub Spools : Site → Smtp → Smtp → Type 0
Spools site s s' =
    (s'.spool ≡ s.spool) ⊎ ((m : SmtpMsg) × (s'.spool ≡ m ∷ s.spool) × Permitted site s.auth m)

abbrev pub Relays : Site → Smtp → Outcome → Type 0
Relays site s (again s') = IsSafe site s' × Spools site s s'
Relays site s (over s') = s'.spool ≡ s.spool
Relays site s fault = Unit

Pending-nil :
    (site : Site) (p : SmtpState) (auth : ℕ) (ms : List SmtpMsg)
    → Pending site p auth ms
    → Pending site p auth []
Pending-nil site ss_none auth ms h = refl
Pending-nil site ss_helo auth ms h = refl
Pending-nil site ss_rcpt auth ms h = inl refl
Pending-nil site ss_data auth ms h = elim h [ ]

-- HELO and EHLO
restarted_lem :
    (site : Site) (p : SmtpState) (s : Smtp)
    → s.sstate ≡ p
    → Pending site p s.auth s.msgs
    → ((restarted p s).msgs ≡ [])
      × ((restarted p s).spool ≡ s.spool)
      × ((restarted p s).sstate ≡ p)
      × ((restarted p s).auth ≡ s.auth)
restarted_lem site ss_none s e h = (h, refl, e, refl)
restarted_lem site ss_helo s e h = (refl, refl, e, refl)
restarted_lem site ss_rcpt s e h = (refl, refl, e, refl)
restarted_lem site ss_data s e h = elim h [ ]

pub greet-Relays :
    (site : Site) (text : List ℕ) (n : ℕ) (s : Smtp)
    → IsSafe site s
    → Relays site s (greet site text n s)
unfolding greet
greet-Relays site text n s h =
    let (ms, q, p, a) = restarted_lem site s.sstate s refl h in
    elim (Bool-cases (ltb n 7)) [
      | inl e ↦ rw e (rw (p, a, ms) (Pending-nil site s.sstate s.auth s.msgs h), inl q)
      | inr e ↦ rw e (elim (Bool-cases (strcmp_eq (c_string (drop 5 s.buffer)) site.server_fqdn)) [
        | inl f ↦ rw f q
        | inr f ↦ rw f (ms, inl q)
      ])
    ]

accept_sender-Relays :
    (site : Site) (a : Address) (s : Smtp)
    → s.sstate ≡ ss_helo
    → s.msgs ≡ []
    → Relays site s (accept_sender a s)
unfolding ended
accept_sender-Relays site unclosed s e h = rw e (h, inl refl)
accept_sender-Relays site unopened s e h = tt
accept_sender-Relays site (found name empty) s e h = (
  inr (new_message (sender name), ap (λ ms. new_message (sender name) ∷ ms) h, λ _. tt),
  inl refl,
)

pub mail-Relays :
    (site : Site) (p : SmtpState) (s : Smtp)
    → s.sstate ≡ p
    → Pending site p s.auth s.msgs
    → Relays site s (mail p s)
unfolding mail
mail-Relays site ss_helo s e h = accept_sender-Relays site (address (c_string s.buffer)) s e h
mail-Relays site ss_none s e h = rw e (h, inl refl)
mail-Relays site ss_rcpt s e h = rw e (h, inl refl)
mail-Relays site ss_data s e h = elim h [ ]

local_of : (b : Bool) (n : ℕ) → (not b && n == 0) ≡ false → n ≡ 0 → b ≡ true
local_of b n h z = ground arith

-- A recipient that the test lets pass
add_recipient-Relays :
    (site : Site) (name : List ℕ) (ms : List SmtpMsg) (s : Smtp)
    → s.sstate ≡ ss_rcpt
    → Pending site ss_rcpt s.auth ms
    → (s.auth ≡ 0 → IsLocal site name)
    → Relays site s (add_recipient name ms s)
add_recipient-Relays site name [] s e h ok = tt
add_recipient-Relays site name (m ∷ ms) s e (inl none_yet) ok = cc
add_recipient-Relays site name (m ∷ ms) s e (inr (m', same, fine)) ok =
    let head : m ≡ m' = cc in
    let tail : ms ≡ [] = cc in
    rw e (
      inr (
        record m { to = name ∷ m.to },
        ap (λ l. record m { to = name ∷ m.to } ∷ l) tail,
        λ z. (ok z, subst (λ t. All (IsLocal site) t.to) (sym head) (fine z)),
      ),
      inl refl,
    )

accept_recipient-Relays :
    (site : Site) (a : Address) (s : Smtp)
    → s.sstate ≡ ss_rcpt
    → Pending site ss_rcpt s.auth s.msgs
    → Relays site s (accept_recipient site a s)
unfolding ended
accept_recipient-Relays site unclosed s e h = rw e (h, inl refl)
accept_recipient-Relays site unopened s e h = tt
accept_recipient-Relays site (found name true) s e h = rw e (h, inl refl)
accept_recipient-Relays site (found name false) s e h =
    let refused = not (is_local (find_mailbox name site.mbx)) && s.auth == 0 in
    elim (Bool-cases refused) [
      | inl no_relay ↦ rw no_relay (rw e (h, inl refl))
      | inr ok ↦ rw ok (
          add_recipient-Relays site name s.msgs (ended s) e h
            (local_of (is_local (find_mailbox name site.mbx)) s.auth ok))
    ]

pub rcpt-Relays :
    (site : Site) (p : SmtpState) (s : Smtp)
    → s.sstate ≡ p
    → Pending site p s.auth s.msgs
    → Relays site s (rcpt site p s)
unfolding rcpt
rcpt-Relays site ss_rcpt s e h = accept_recipient-Relays site (address (c_string s.buffer)) s e h
rcpt-Relays site ss_none s e h = rw e (h, inl refl)
rcpt-Relays site ss_helo s e h = rw e (h, inl refl)
rcpt-Relays site ss_data s e h = elim h [ ]

spooled-Relays :
    (site : Site) (s t : Smtp) (m : SmtpMsg) (b : Body)
    → t.spool ≡ s.spool
    → Permitted site s.auth m
    → Relays site s (spooled t m b)
spooled-Relays site s t m (whole written buffer net) e ok =
    (refl, inr (record m { written = written }, ap (λ q. record m { written = written } ∷ q) e, ok))
spooled-Relays site s t m (broken net) e ok = e
spooled-Relays site s t m Body.starved e ok = tt

store-Relays :
    (site : Site) (user : Option (List ℕ)) (ms : List SmtpMsg) (s : Smtp)
    → Pending site ss_rcpt s.auth ms
    → Relays site s (store site user ms s)
store-Relays site none ms s h = tt
store-Relays site (some user) [] s h = tt
store-Relays site (some user) (m ∷ ms) s (inl none_yet) = cc
store-Relays site (some user) (m ∷ ms) s (inr (m', same, fine)) =
    let head : m ≡ m' = cc in
    let line = received_line site user in
    let t = ready site line m ms s in
    spooled-Relays site s t (with_file site m s)
      (read_body (suc (bytes_of t.net)) site.alc_buf_size 0 t.buffer t.net line) refl
      (λ z. subst (λ t. All (IsLocal site) t.to) (sym head) (fine z))

pub data_cmd-Relays :
    (site : Site) (p : SmtpState) (s : Smtp)
    → s.sstate ≡ p
    → Pending site p s.auth s.msgs
    → Relays site s (data_cmd site p s)
unfolding data_cmd
data_cmd-Relays site ss_rcpt s e h = store-Relays site s.user s.msgs s h
data_cmd-Relays site ss_none s e h = rw e (h, inl refl)
data_cmd-Relays site ss_helo s e h = rw e (h, inl refl)
data_cmd-Relays site ss_data s e h = elim h [ ]

pub reset-Relays : (site : Site) (s : Smtp) → Relays site s (again (reset s))
unfolding reset
reset-Relays site s = (refl, inl refl)
