-- ===== src/Mail/Smtp/Tests.antt =====
-- SMTP connections, and the theorems at them.
use qnxstuff.Prelude.{
  ℕ, zero, suc, ◌+◌, ◌≡◌, refl, inl, Bool, true, false, none, some, List, [], ◌∷◌, ◌++◌, arith,
}
use qnxstuff.Prelude.Strings.{stricmp_eq, c_string}
use qnxstuff.Mail.Lines.{read_string, cr_place}
use qnxstuff.Mail.Md5.{zeros}
use qnxstuff.Mail.Text.{codes, capitals, split_at, strcmp_eq}
use qnxstuff.Mail.Mailboxes.{Mailbox, find_mailbox}
use qnxstuff.Mail.Smtp.Connection.{ss_none, ss_rcpt, SmtpMsg, Smtp, Site, Outcome, again, fault}
use qnxstuff.Mail.Smtp.Envelope.{address, ended, found}
use qnxstuff.Mail.Smtp.Body.{read_body, bytes_of, data_cmd}
use qnxstuff.Mail.Smtp.Auth.{auth, auth_login, login_name, login_password, admitted}
use qnxstuff.Mail.Smtp.Session.{helo_c, data_c, rcpt_c, command, smtp_line, smtp_turn, greeted}
use qnxstuff.Mail.Smtp.Relay.{IsLocal, Relays}
use qnxstuff.Mail.Smtp.Turns.{Reached, begin, turn, recipients_permitted}
use qnxstuff.Mail.Smtp.Delivery.{Delivers, data_cmd_lem}
use qnxstuff.Mail.Smtp.Short.{command_of, short_helo}

abbrev ann : Mailbox
ann = record { user = codes "ann"; password = codes "pw" }

-- The decoder takes away the first byte, as a stand-in; what it is given by clients is "=" and a text.
abbrev stripped : List ℕ → Bool × List ℕ
stripped [] = (false, [])
stripped (c ∷ text) = (true, text ++ (0 ∷ []))

abbrev site : Site
site = record {
  mbx = ann ∷ [];
  server_fqdn = codes "mx";
  alc_buf_size = 64;
  curtime = 0;
  peer = codes "10.0.0.1";
  temp_name = λ n. codes "spool/msg" ++ ((b'0' + n) ∷ []);
  encode64 = λ text. text;
  decode64 = stripped;
}

abbrev typed : List ℕ → List ℕ
typed text = text ++ (13 ∷ 10 ∷ [])

abbrev connection : List (List ℕ) → Smtp
connection net = record {
  sstate = ss_none;
  auth = 0;
  user = none;
  greeting = none;
  msgs = [];
  buffer = zeros 64;
  net = net;
  sent = [];
  spool = [];
  unlinked = [];
  made = 0;
  overrun = false;
}

abbrev continued : Outcome → Smtp
continued (again s) = s
continued _ = connection []

-- A connection after some commands
abbrev after : ℕ → List (List ℕ) → Smtp
after zero net = greeted site (connection net)
after (suc n) net = continued (smtp_turn site (after n net))

-- A message to a mailbox of the server
abbrev letter : List (List ℕ)
letter =
    typed (codes "HELO me")
    ∷ typed (codes "MAIL FROM:<bob@x>")
    ∷ typed (codes "rcpt to:<Ann>")
    ∷ typed (codes "DATA")
    ∷ codes "hi"
    ∷ (13 ∷ 10 ∷ b'.' ∷ 13 ∷ 10 ∷ [])
    ∷ []

abbrev rcpt_said : Smtp
rcpt_said = after 3 letter

rcpt_said-Reached : Reached site rcpt_said
unfolding smtp_turn greeted read_string cr_place smtp_line address split_at find_mailbox stricmp_eq
    strcmp_eq ended
rcpt_said-Reached = turn (turn (turn (begin (connection letter) refl) refl) refl) refl

recipients_permitted_example : Relays site rcpt_said (smtp_turn site rcpt_said)
recipients_permitted_example = recipients_permitted site rcpt_said rcpt_said-Reached

abbrev first_written : List SmtpMsg → List ℕ
first_written [] = []
first_written (m ∷ ms) = m.written

-- The lines of the message, with the line in front
letter_spooled :
    first_written (after 4 letter).spool
    ≡ typed (codes "Received: from me(10.0.0.1) by mx") ++ codes "hi"
unfolding smtp_turn greeted read_string cr_place smtp_line address split_at find_mailbox stricmp_eq
    strcmp_eq ended read_body bytes_of
letter_spooled = refl

-- A stranger to the server is refused.
relay_refused :
    (after 3 (
      typed (codes "HELO me")
      ∷ typed (codes "MAIL FROM:<bob@x>")
      ∷ typed (codes "RCPT TO:<eve@x>")
      ∷ [])).sent
    ≡ typed (codes "220 mx")
      ∷ typed (codes "250 mx")
      ∷ typed (codes "250")
      ∷ typed (codes "553")
      ∷ []
unfolding smtp_turn greeted read_string cr_place smtp_line address split_at find_mailbox stricmp_eq
    strcmp_eq ended
relay_refused = refl

-- Who knows the password is authorised.
logged_in :
    (after 2 (
      typed (codes "HELO me")
      ∷ typed (codes "AUTH login")
      ∷ typed (codes "=ann")
      ∷ typed (codes "=pw")
      ∷ [])).auth
    ≡ 1
unfolding smtp_turn greeted read_string cr_place smtp_line find_mailbox stricmp_eq strcmp_eq auth
    auth_login login_name login_password admitted
logged_in = refl

abbrev to_ann : SmtpMsg
to_ann = record { from = codes "bob@x"; to = codes "ann" ∷ []; spoolfn = none; written = [] }

abbrev waiting : Smtp
waiting = record (connection ((codes "hi" ++ (13 ∷ 10 ∷ [])) ∷ (b'.' ∷ 13 ∷ 10 ∷ []) ∷ [])) {
  sstate = ss_rcpt;
  user = some (codes "me");
  msgs = to_ann ∷ [];
}

data_cmd_lem_example : Delivers site (codes "me") to_ann [] waiting (data_cmd site ss_rcpt waiting)
data_cmd_lem_example =
    data_cmd_lem site (codes "me") to_ann [] waiting refl refl refl (omega arith) (omega arith)

short_line : command_of (codes "HELO" ++ (0 ∷ [])) ≡ helo_c
unfolding command
short_line = refl

short_helo_example :
    (t : Smtp) × (smtp_line site 5 (record waiting { buffer = codes "HELO" ++ (0 ∷ []) }) ≡ again t)
    × ((m : ℕ) (next : List ℕ)
        → command_of next ≡ data_c
        → smtp_line site m (record t { buffer = next }) ≡ fault)
    × ((m : ℕ) (next name : List ℕ)
        → command_of next ≡ rcpt_c
        → address (c_string (capitals next)) ≡ found name false
        → IsLocal site name
        → smtp_line site m (record t { buffer = next }) ≡ fault)
short_helo_example =
    short_helo site waiting 5 (codes "HELO" ++ (0 ∷ [])) refl (inl short_line) (omega arith)
