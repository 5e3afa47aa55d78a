-- ===== src/Mail/Spooler/Remote.antt =====
-- QX-mail/spooler.c: the dialogue with the server that a message is sent to. The NUL that is put
-- behind a reply before it is printed is left out.
use qnxstuff.Prelude.{
  ℕ, ◌+◌, Bool, ◌||◌, ltb, Option, none, some, List, [], ◌∷◌, ◌++◌, ◌==◌, if◌then◌else◌, length,
  take,
}
use qnxstuff.Mail.Lines.{poke, Read, line, failed, starved, read_string}
use qnxstuff.Mail.Text.{codes, strcmp_eq}
use qnxstuff.Mail.Pop.Messages.{blocks}
use qnxstuff.Mail.Smtp.Connection.{crlf}

-- The buffer, what the network has in store, the strings sent, and whether `sprintf` has written
-- behind the buffer, after which C promises nothing.
pub record Talk : Type 0 where
  pub netbuf : List ℕ
  pub net : List (List ℕ)
  pub sent : List (List ℕ)
  pub overrun : Bool

-- The message: whom it is from, this group of its recipients, and its file; the name of this server;
-- and the number of the block that `send` fails at, if it fails.
pub record Letter : Type 0 where
  pub from : List ℕ
  pub to : List (List ℕ)
  pub content : List ℕ
  pub server_fqdn : List ℕ
  pub broken : Option ℕ

-- The results 0, -1, -2 and -3
pub data Ended : Type 0 where
  all_sent lost skipped refused : Talk → Ended

pub data Answer : Type 0 where
  replied silent : Talk → Answer

-- A reply is read with ReadString, of which fuel never runs out.
abbrev pub answer_of : Read → Talk → Answer
answer_of (line n netbuf net) t = replied (record t { netbuf = netbuf; net = net })
answer_of (failed netbuf net) t = silent (record t { netbuf = netbuf; net = net })
answer_of starved t = silent t

unfoldable pub read_reply : Talk → Answer
read_reply t = answer_of (read_string 2047 t.netbuf t.net) t

-- A command that is printed into the buffer, or a literal, and the reply to it.
abbrev pub say : List ℕ → Talk → Answer
say text t = read_reply (record t { sent = t.sent ++ (text ∷ []) })

-- `sprintf` into the buffer of 2048 bytes: the bytes printed, with their NUL.
abbrev pub print_into : List ℕ → Talk → Talk
print_into bytes t = record t {
  netbuf = poke t.netbuf 0 bytes;
  overrun = t.overrun || ltb 2048 (length bytes);
}

abbrev pub say_printed : List ℕ → Talk → Answer
say_printed text t = say text (print_into (text ++ (0 ∷ [])) t)

abbrev pub is_code : List ℕ → Talk → Bool
is_code code t = strcmp_eq (take 3 t.netbuf) code

-- What goes on after a reply with the code hoped for.
unfoldable pub expect : List ℕ → (Talk → Ended) → Answer → Ended
expect code next (silent t) = lost t
expect code next (replied t) = if is_code code t then next t else refused t

abbrev pub end_of_data : List ℕ
end_of_data = 13 ∷ 10 ∷ b'.' ∷ 13 ∷ 10 ∷ []

abbrev pub is_broken : Option ℕ → ℕ → Bool
is_broken broken k = elim broken [ none ↦ Bool.false | some n ↦ n == k ]

-- The loop over the blocks of the file, which ends where `send` fails. A block fills the buffer.
unfoldable pub send_body : Option ℕ → ℕ → List (List ℕ) → Talk → Bool × Talk
send_body broken k [] t = (Bool.true, t)
send_body broken k (b ∷ bs) t =
    let t' = record t { netbuf = poke t.netbuf 0 b } in
    let rest = send_body broken (k + 1) bs (record t' { sent = t.sent ++ (b ∷ []) }) in
    if is_broken broken k then (Bool.false, t') else rest

unfoldable pub send_data : Letter → Talk → Ended
send_data m t =
    let (whole, t') = send_body m.broken 0 (blocks (length m.content) 1400 m.content) t in
    if whole then expect (codes "250") all_sent (say end_of_data t') else lost t'

abbrev pub rcpt_text : List ℕ → List ℕ
rcpt_text r = codes "RCPT TO:<" ++ (r ++ (b'>' ∷ crlf))

-- The loop over the recipients, with the number of those accepted. It ends early where no reply comes.
abbrev pub count_valid : (ℕ → Talk → ℕ × Talk) → ℕ → Answer → ℕ × Talk
count_valid next n (silent t) = (n, t)
count_valid next n (replied t) = next (if is_code (codes "250") t then n + 1 else n) t

unfoldable pub send_recipients : List (List ℕ) → ℕ → Talk → ℕ × Talk
send_recipients [] n t = (n, t)
send_recipients (r ∷ rs) n t = count_valid (send_recipients rs) n (say_printed (rcpt_text r) t)

unfoldable pub after_recipients : Letter → ℕ × Talk → Ended
after_recipients m (n, t) =
    if n == 0 then skipped t else expect (codes "354") (send_data m) (say (codes "DATA" ++ crlf) t)

abbrev pub mail_text : Letter → List ℕ
mail_text m = codes "MAIL FROM:<" ++ (m.from ++ (b'>' ∷ crlf))

unfoldable pub send_envelope : Letter → Talk → Ended
send_envelope m t =
    expect (codes "250") (λ t'. after_recipients m (send_recipients m.to 0 t'))
      (say_printed (mail_text m) t)

abbrev pub hello_text : List ℕ → Letter → List ℕ
hello_text verb m = verb ++ (m.server_fqdn ++ crlf)

-- Servers that refuse EHLO are told HELO.
unfoldable pub after_hello : Letter → Answer → Ended
after_hello m (silent t) = lost t
after_hello m (replied t) =
    if is_code (codes "250") t
    then send_envelope m t
    else expect (codes "250") (send_envelope m) (say_printed (hello_text (codes "HELO ") m) t)

unfoldable pub dialogue : Letter → Talk → Ended
dialogue m t =
    expect (codes "220") (λ t'. after_hello m (say_printed (hello_text (codes "EHLO ") m) t'))
      (read_reply t)

-- QUIT is said but where the network failed or all recipients were rejected.
abbrev pub send_quit : Talk → Talk
send_quit t = record t { sent = t.sent ++ ((codes "QUIT" ++ crlf) ∷ []) }

unfoldable pub bad_result : Ended → Talk
bad_result (all_sent t) = send_quit t
bad_result (lost t) = t
bad_result (skipped t) = t
bad_result (refused t) = send_quit t
