-- ===== src/Mail/Smtp/Turns.antt =====
-- The commands of an SMTP connection in turn.
use qnxstuff.Prelude.{ℕ, ◌-◌, ◌≡◌, refl, subst, ◌∙◌, inl, []}
use qnxstuff.Prelude.Memory.{load32}
use qnxstuff.Mail.Lines.{Read, line, failed, read_string}
use qnxstuff.Mail.Text.{capitals}
use qnxstuff.Mail.Smtp.Connection.{
  SmtpState, ss_none, ss_helo, ss_rcpt, ss_data, Smtp, Site, Outcome, again, over, fault,
}
use qnxstuff.Mail.Smtp.Envelope.{helo_text, ehlo_text}
use qnxstuff.Mail.Smtp.Auth.{after_read, auth}
use qnxstuff.Mail.Smtp.Session.{
  SmtpCommand, helo_c, ehlo_c, auth_c, mail_c, rcpt_c, data_c, rset_c, noop_c, quit_c, unsupported,
  command, perform, smtp_line, smtp_turn, greeted,
}
use qnxstuff.Mail.Smtp.Relay.{
  IsSafe, Pending, Relays, data_cmd-Relays, greet-Relays, mail-Relays, rcpt-Relays, reset-Relays,
}
use qnxstuff.Mail.Smtp.Aside.{Aside, auth_helo-Aside}

Aside-Relays :
    (site : Site) (s : Smtp) (o : Outcome)
    → s.sstate ≡ ss_helo
    → s.msgs ≡ []
    → Aside s o
    → Relays site s o
Aside-Relays site s (again s') e h (p, m, q) = rw (p, e) (m ∙ h, inl q)
Aside-Relays site s (over s') e h q = q
Aside-Relays site s fault e h q = tt

auth-Relays :
    (site : Site) (p : SmtpState) (s : Smtp)
    → s.sstate ≡ p
    → Pending site p s.auth s.msgs
    → Relays site s (auth site p s)
unfolding auth
auth-Relays site ss_helo s e h =
    Aside-Relays site s (auth site ss_helo s) e h (auth_helo-Aside site s)
auth-Relays site ss_none s e h = rw e (h, inl refl)
auth-Relays site ss_rcpt s e h = rw e (h, inl refl)
auth-Relays site ss_data s e h = elim h [ ]

perform-Relays :
    (site : Site) (n : ℕ) (c : SmtpCommand) (s : Smtp)
    → IsSafe site s
    → Relays site s (perform site n c s)
unfolding perform
perform-Relays site n helo_c s h = greet-Relays site (helo_text site) n s h
perform-Relays site n ehlo_c s h = greet-Relays site (ehlo_text site) n s h
perform-Relays site n auth_c s h = auth-Relays site s.sstate s refl h
perform-Relays site n mail_c s h = mail-Relays site s.sstate s refl h
perform-Relays site n rcpt_c s h = rcpt-Relays site s.sstate s refl h
perform-Relays site n data_c s h = data_cmd-Relays site s.sstate s refl h
perform-Relays site n rset_c s h = reset-Relays site s
perform-Relays site n noop_c s h = (h, inl refl)
perform-Relays site n quit_c s h = refl
perform-Relays site n unsupported s h = (h, inl refl)

after_line-Relays :
    (site : Site) (s : Smtp) (r : Read)
    → IsSafe site s
    → Relays site s (after_read (smtp_line site) s r)
unfolding smtp_line
after_line-Relays site s (line n buffer net) h =
    perform-Relays site n (command (load32 (capitals buffer) 0))
      (record s { buffer = capitals buffer; net = net }) h
after_line-Relays site s (failed buffer net) h = refl
after_line-Relays site s Read.starved h = tt

turn-Relays : (site : Site) (s : Smtp) → IsSafe site s → Relays site s (smtp_turn site s)
unfolding smtp_turn
turn-Relays site s h =
    after_line-Relays site s (read_string (site.alc_buf_size - 1) s.buffer s.net) h

-- The states of a connection between the commands
pub data Reached (site : Site) : Smtp → Type 0 where
  begin : (s : Smtp) → s.msgs ≡ [] → Reached site (greeted site s)
  turn : {s t : Smtp} → Reached site s → smtp_turn site s ≡ again t → Reached site t

Reached-IsSafe : {site : Site} {s : Smtp} → Reached site s → IsSafe site s
unfolding greeted
Reached-IsSafe {site} (begin s e) = e
Reached-IsSafe {site} (turn {s} {t} r e) =
    (subst (λ o. Relays site s o) e (turn-Relays site s (Reached-IsSafe r))).0

-- In every state of a connection that began without messages, a turn of the loop that goes on
-- leaves at most one message pending, and only in the state SS_RCPT, and puts nothing or one
-- message in front of the queue of the spooler; one that ends the connection puts nothing there.
-- Unless the client is authorised, all recipients of either message are mailboxes of this server.
-- Of a turn that uses a null pointer nothing is said.
pub recipients_permitted :
    (site : Site) (s : Smtp) → Reached site s → Relays site s (smtp_turn site s)
recipients_permitted site s r = turn-Relays site s (Reached-IsSafe r)
