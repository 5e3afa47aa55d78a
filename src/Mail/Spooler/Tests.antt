-- ===== src/Mail/Spooler/Tests.antt =====
-- Runs of the spooler of QX-mail on a few recipients and short answers, and the theorems at these.
use qnxstuff.Prelude.{some, true, ℕ, ◌+◌, Bool, false, none, List, [], ◌∷◌, ◌++◌, ◌≡◌, refl, arith}
use qnxstuff.Mail.Lines.{read_string, read_from, cr_place}
use qnxstuff.Mail.Lines.Laws.{concat}
use qnxstuff.Mail.Md5.{zeros}
use qnxstuff.Mail.Text.{codes, strcmp_eq}
use qnxstuff.Mail.Mailboxes.{Mailbox, find_mailbox}
use qnxstuff.Mail.Pop.Messages.{blocks}
use qnxstuff.Mail.Smtp.Connection.{crlf}
use qnxstuff.Mail.Spooler.{
  Group, to_domain, done, spool_message, local_delivery, next_group, domain_of, collect_domain,
}
use qnxstuff.Prelude.Strings.{stricmp_eq}
use qnxstuff.Mail.Spooler.Delivered.{homes, files, away, Outgoing, spool_message_lem}
use qnxstuff.Mail.Spooler.Question.{
  named, unending, header, question_name, labels, decode, decode_name, question,
}
use qnxstuff.Mail.Spooler.Decoding.{decode_name-question_name, decode_name_unending}
use qnxstuff.Mail.Spooler.Answer.{analyse, read_answers, skip_query, skip_zone}
use qnxstuff.Mail.Spooler.Remote.{
  Talk, Letter, dialogue, bad_result, expect, read_reply, after_hello, send_envelope,
  after_recipients, send_recipients, send_data, send_body,
}
use qnxstuff.Mail.Spooler.Connect.{
  Try, unresolved, timedout, connected, connect, World, Delivery, going, deliver_group,
  connect_relay, after_answer, with_targets, converse,
}
use qnxstuff.Mail.Spooler.Targets.{Tried, connect-Tried}
use qnxstuff.Mail.Spooler.Script.{Says, script}
use qnxstuff.Mail.Spooler.Told.{dialogue-Says}

abbrev mbx : List Mailbox
mbx = record { user = codes "alice"; password = codes "pw" } ∷ []

abbrev recipients : List (List ℕ)
recipients = codes "bob@a.b" ∷ codes "Alice" ∷ codes "eve@c.d" ∷ codes "joe@A.B" ∷ []

abbrev number : ℕ → List ℕ
number k = (b'0' + k) ∷ []

-- A delivery that notes its group.
abbrev note : Group → List Group → List Group
note g gs = gs ++ (g ∷ [])

-- One mailbox and two domains
groups_of : spool_message note false mbx number recipients [] ≡ (
  codes "alice/0" ∷ [],
  done (
      to_domain (codes "A.B") (codes "bob@a.b" ∷ codes "joe@A.B" ∷ [])
      ∷ to_domain (codes "c.d") (codes "eve@c.d" ∷ [])
      ∷ []),
)
unfolding spool_message local_delivery find_mailbox stricmp_eq next_group domain_of collect_domain
groups_of = refl

spool_message_lem_example :
    ((spool_message note false mbx number recipients []).0 ≡ files number 0 (homes mbx recipients))
    × Outgoing note false false
        (away mbx recipients)
        []
        (spool_message note false mbx number recipients []).1
unfolding find_mailbox stricmp_eq domain_of
spool_message_lem_example = spool_message_lem note false mbx number recipients []

decode_name-question_name_example :
    decode_name 3 (header ++ (question_name (codes "mail.de") ++ (0 ∷ 15 ∷ 0 ∷ 1 ∷ []))) 12
    ≡ named (codes "mail.de")
decode_name-question_name_example =
    decode_name-question_name 3 header (0 ∷ 15 ∷ 0 ∷ 1 ∷ []) (codes "mail") (codes "de" ∷ [])
      ((refl, omega arith, omega arith), ((refl, omega arith, omega arith), tt)) (omega arith)
      (omega arith)

-- A name at the twelfth byte that is a pointer to this byte
decode_name_unending_example : decode_name 5 (header ++ (192 ∷ 12 ∷ [])) 12 ≡ unending
decode_name_unending_example =
    decode_name_unending 5 (header ++ (192 ∷ 12 ∷ [])) 12 [] (omega arith) refl

-- An answer with one record, whose name and whose server are pointers to the question and into it
analysed :
    analyse 5 (codes "a.de") (
      (0 ∷ 2 ∷ 129 ∷ 0 ∷ 0 ∷ 1 ∷ 0 ∷ 1 ∷ 0 ∷ 0 ∷ 0 ∷ 0 ∷ [])
      ++ (question_name (codes "a.de")
          ++ (0 ∷ 15 ∷ 0 ∷ 1 ∷ 192 ∷ 12 ∷ 0 ∷ 15 ∷ 0 ∷ 1 ∷ 0 ∷ 0 ∷ 0 ∷ 9 ∷ 0 ∷ 6 ∷ 0 ∷ 5 ∷ 1 ∷ b'm'
              ∷ 192 ∷ 14 ∷ [])))
    ≡ named (codes "m.de" ∷ [])
unfolding analyse question_name skip_query labels read_answers skip_zone decode_name decode
analysed = refl

abbrev tries : List Try
tries = timedout ∷ unresolved ∷ connected [] ∷ []

abbrev hosts : List (List ℕ)
hosts = codes "m.de" ∷ codes "n.de" ∷ []

connect-Tried_example : Tried tries hosts (connect tries hosts)
connect-Tried_example = connect-Tried tries hosts

abbrev mail : Letter
mail = record {
  from = codes "alice";
  to = codes "bob@a.b" ∷ [];
  content = codes "hi";
  server_fqdn = codes "x.y";
  broken = none;
}

abbrev answer : List ℕ → List ℕ
answer code = code ++ crlf

-- A server that does not know EHLO
abbrev talk : Talk
talk = record {
  netbuf = zeros 40;
  net =
      answer (codes "220")
      ∷ answer (codes "500")
      ∷ answer (codes "250")
      ∷ answer (codes "250")
      ∷ answer (codes "250")
      ∷ answer (codes "354")
      ∷ answer (codes "250")
      ∷ [];
  sent = [];
  overrun = false;
}

dialogue-Says_example :
    ((i : Bool × ℕ) × Says [] (dialogue mail talk) (script mail i.0 i.1))
    × (concat (blocks 2 1400 (codes "hi")) ≡ codes "hi")
dialogue-Says_example = dialogue-Says mail talk

-- The DNS server knows no server for the domain, and the host of this name takes the message.
abbrev world : World
world = record {
  answers = some (0 ∷ 2 ∷ 129 ∷ 0 ∷ 0 ∷ 1 ∷ 0 ∷ 0 ∷ []) ∷ [];
  tries = connected talk.net ∷ [];
  netbuf = zeros 40;
  asked = [];
  told = [];
}

abbrev told_of : Delivery → List (List ℕ × List (List ℕ))
told_of (going w) = w.told
told_of d = []

taken_directly :
    told_of (
      deliver_group 3
        (codes "alice")
        (codes "hi")
        (codes "x.y")
        none
        (to_domain (codes "a.b") (codes "bob@a.b" ∷ []))
        (going world))
    ≡ (codes "a.b", script mail true 1 ++ ((codes "QUIT" ++ crlf) ∷ [])) ∷ []
unfolding deliver_group after_answer with_targets analyse converse connect bad_result dialogue
    expect read_reply read_string cr_place strcmp_eq after_hello send_envelope after_recipients
    send_recipients send_data read_from blocks send_body connect_relay question question_name labels
taken_directly = refl
