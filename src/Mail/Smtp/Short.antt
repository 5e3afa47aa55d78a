-- ===== src/Mail/Smtp/Short.antt =====
-- A greeting that is too short, in the middle of a message, in QX-mail/smtp.c.
use qnxstuff.Prelude.{ℕ, ◌≡◌, refl, ap, ◌∙◌, ◌<◌, ◌⊎◌, inl, inr, false, none, List, [], ltb_of_lt}
use qnxstuff.Prelude.Memory.{load32}
use qnxstuff.Prelude.Strings.{c_string}
use qnxstuff.Mail.Text.{codes, capitals}
use qnxstuff.Mail.Smtp.Connection.{ss_rcpt, Smtp, Site, again, fault, reply, free_smtp_session}
use qnxstuff.Mail.Smtp.Envelope.{
  restarted, greet, helo_text, ehlo_text, address, found, add_recipient, accept_recipient, rcpt,
  ended,
}
use qnxstuff.Mail.Smtp.Body.{store, data_cmd}
use qnxstuff.Mail.Smtp.Session.{
  SmtpCommand, helo_c, ehlo_c, rcpt_c, data_c, command, perform, smtp_line,
}
use qnxstuff.Mail.Smtp.Relay.{IsLocal}

abbrev pub command_of : List ℕ → SmtpCommand
command_of line = command (load32 (capitals line) 0)

greet_short :
    (site : Site) (text : List ℕ) (n : ℕ) (s : Smtp)
    → s.sstate ≡ ss_rcpt
    → n < 7
    → greet site text n s ≡ again (reply (codes "501") (free_smtp_session s))
unfolding greet
greet_short site text n s p short =
    rw (ltb_of_lt n 7 short) (ap (λ q. again (reply (codes "501") (restarted q s))) p)

line_short :
    (site : Site) (n : ℕ) (c : SmtpCommand) (s : Smtp)
    → (c ≡ helo_c) ⊎ (c ≡ ehlo_c)
    → s.sstate ≡ ss_rcpt
    → n < 7
    → perform site n c s ≡ again (reply (codes "501") (free_smtp_session s))
unfolding perform
line_short site n c s (inl e) p short = rw e (greet_short site (helo_text site) n s p short)
line_short site n c s (inr e) p short = rw e (greet_short site (ehlo_text site) n s p short)

rcpt_fault :
    (site : Site) (n : ℕ) (name : List ℕ) (s : Smtp)
    → s.sstate ≡ ss_rcpt
    → s.msgs ≡ []
    → address (c_string s.buffer) ≡ found name false
    → IsLocal site name
    → perform site n rcpt_c s ≡ fault
unfolding perform rcpt
rcpt_fault site n name s p l a local =
    ap (λ q. rcpt site q s) p
    ∙ (ap (λ x. accept_recipient site x s) a
        ∙ rw local (ap (λ ms. add_recipient name ms (ended s)) l))

data_fault :
    (site : Site) (n : ℕ) (s : Smtp)
    → s.sstate ≡ ss_rcpt
    → s.user ≡ none
    → perform site n data_c s ≡ fault
unfolding perform data_cmd
data_fault site n s p u = ap (λ q. data_cmd site q s) p ∙ ap (λ v. store site v s.msgs s) u

-- In the state SS_RCPT, after a HELO or EHLO of fewer than seven bytes the connection goes on, and
-- then a DATA, and a RCPT with the name of a mailbox of this server between '<' and '>', uses a
-- null pointer.
pub short_helo :
    (site : Site) (s : Smtp) (n : ℕ) (line : List ℕ)
    → s.sstate ≡ ss_rcpt
    → (command_of line ≡ helo_c) ⊎ (command_of line ≡ ehlo_c)
    → n < 7
    → (t : Smtp) × (smtp_line site n (record s { buffer = line }) ≡ again t)
      × ((m : ℕ) (next : List ℕ)
          → command_of next ≡ data_c
          → smtp_line site m (record t { buffer = next }) ≡ fault)
      × ((m : ℕ) (next name : List ℕ)
          → command_of next ≡ rcpt_c
          → address (c_string (capitals next)) ≡ found name false
          → IsLocal site name
          → smtp_line site m (record t { buffer = next }) ≡ fault)
unfolding smtp_line
short_helo site s n line p c short =
    let s' : Smtp = record s { buffer = capitals line } in
    let t = reply (codes "501") (free_smtp_session s') in
    (
      t,
      line_short site n (command_of line) s' c p short,
      λ m next e.
          let v : Smtp = record t { buffer = capitals next } in
          ap (λ k. perform site m k v) e ∙ data_fault site m v p refl,
      λ m next name e a local.
          let v : Smtp = record t { buffer = capitals next } in
          ap (λ k. perform site m k v) e ∙ rcpt_fault site m name v p refl a local,
    )
