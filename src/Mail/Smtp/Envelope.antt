-- ===== src/Mail/Smtp/Envelope.antt =====
-- QX-mail/smtp.c: the commands HELO, EHLO, MAIL, RCPT and RSET.
use qnxstuff.Prelude.{
  ℕ, Bool, true, false, not, ◌&&◌, Option, none, some, List, [], ◌∷◌, ◌++◌, ltb, ◌==◌,
  if◌then◌else◌, length, set, drop,
}
use qnxstuff.Prelude.Strings.{c_string}
use qnxstuff.Mail.Text.{codes, split_at, strcmp_eq}
use qnxstuff.Mail.Mailboxes.{Mailbox, find_mailbox}
use qnxstuff.Mail.Smtp.Connection.{
  SmtpState, ss_none, ss_helo, ss_rcpt, SmtpMsg, Smtp, Site, Outcome, again, fault, crlf, reply,
  send_printed, free_smtp_session, drop_connection,
}

-- HELO and EHLO end what went before.
abbrev pub restarted : SmtpState → Smtp → Smtp
restarted ss_none s = s
restarted _ s = free_smtp_session s

abbrev pub welcome : Site → List ℕ → List ℕ → Smtp → Outcome
welcome site text name s =
    if strcmp_eq name site.server_fqdn
    then drop_connection (reply (codes "550 LOOP") s)
    else again (
        send_printed site.alc_buf_size text
          (record s { user = some name; sstate = ss_helo; auth = 0 }))

unfoldable pub greet : Site → List ℕ → ℕ → Smtp → Outcome
greet site text result s =
    if ltb result 7
    then again (reply (codes "501") (restarted s.sstate s))
    else welcome site text (c_string (drop 5 s.buffer)) (restarted s.sstate s)

abbrev pub helo_text : Site → List ℕ
helo_text site = codes "250 " ++ (site.server_fqdn ++ crlf)

abbrev pub ehlo_text : Site → List ℕ
ehlo_text site =
    codes "250-"
    ++ (site.server_fqdn
        ++ (crlf ++ (codes "250-8BITMIME" ++ (crlf ++ (codes "250 AUTH LOGIN CRAM-MD5" ++ crlf)))))

-- What MAIL and RCPT find between the first '<' and the first '>': that is missing, or the first is
-- missing, where the code goes on with a pointer made of a null pointer; or an address. The test
-- says whether the two stand side by side.
pub data Address : Type 0 where
  unclosed unopened : Address
  found : List ℕ → Bool → Address

abbrev is_empty : List ℕ → Bool
is_empty [] = true
is_empty (c ∷ s) = false

-- Where '>' comes first, the string goes on to its end.
abbrev closed : Option (List ℕ × List ℕ) → Option (List ℕ × List ℕ) → List ℕ → Address
closed (some before) after rest = found rest false
closed none none rest = unclosed
closed none (some (address, more)) rest = found address (is_empty address)

abbrev opened : Option (List ℕ × List ℕ) → Option (List ℕ × List ℕ) → Address
opened close none = elim close [ none ↦ unclosed | some _ ↦ unopened ]
opened close (some (before, rest)) = closed (split_at b'>' before) (split_at b'>' rest) rest

unfoldable pub address : List ℕ → Address
address line = opened (split_at b'>' line) (split_at b'<' line)

-- `*s_end = '\0'`
abbrev end_at : Option (List ℕ × List ℕ) → List ℕ → List ℕ
end_at none buffer = buffer
end_at (some (before, rest)) buffer = set buffer (length before) 0

unfoldable pub ended : Smtp → Smtp
ended s = record s { buffer = end_at (split_at b'>' (c_string s.buffer)) s.buffer }

-- MAIL
abbrev pub sender : List ℕ → List ℕ
sender [] = codes "Bounced"
sender (c ∷ address) = c ∷ address

abbrev pub new_message : List ℕ → SmtpMsg
new_message from = record { from = from; to = []; spoolfn = none; written = [] }

abbrev pub accept_sender : Address → Smtp → Outcome
accept_sender unclosed s = again (reply (codes "501") s)
accept_sender unopened s = fault
accept_sender (found address empty) s = again (
    reply (codes "250")
      (record (ended s) { msgs = new_message (sender address) ∷ s.msgs; sstate = ss_rcpt }))

unfoldable pub mail : SmtpState → Smtp → Outcome
mail ss_helo s = accept_sender (address (c_string s.buffer)) s
mail _ s = again (reply (codes "503") s)

-- RCPT: anyone may write to a mailbox of this server, only who is authorised to another.
abbrev pub is_local : Option (ℕ × Mailbox) → Bool
is_local none = false
is_local (some m) = true

abbrev pub add_recipient : List ℕ → List SmtpMsg → Smtp → Outcome
add_recipient address [] s = fault
add_recipient address (m ∷ ms) s =
    again (reply (codes "250") (record s { msgs = record m { to = address ∷ m.to } ∷ ms }))

abbrev pub accept_recipient : Site → Address → Smtp → Outcome
accept_recipient site unclosed s = again (reply (codes "501") s)
accept_recipient site unopened s = fault
accept_recipient site (found address true) s = again (reply (codes "501") s)
accept_recipient site (found address false) s =
    if not (is_local (find_mailbox address site.mbx)) && s.auth == 0
    then again (reply (codes "553") (ended s))
    else add_recipient address s.msgs (ended s)

unfoldable pub rcpt : Site → SmtpState → Smtp → Outcome
rcpt site ss_rcpt s = accept_recipient site (address (c_string s.buffer)) s
rcpt site _ s = again (reply (codes "503") s)

-- RSET: the user stays.
unfoldable pub reset : Smtp → Smtp
reset s = reply (codes "250") (record (free_smtp_session s) { user = s.user; sstate = ss_helo })
