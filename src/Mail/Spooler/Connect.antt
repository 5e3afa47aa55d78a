-- ===== src/Mail/Spooler/Connect.antt =====
-- QX-mail/spooler.c: the choice of the host to connect to, and the delivery to a group of recipients.
use qnxstuff.Prelude.{
  ℕ, Option, none, some, List, [], ◌∷◌, ◌++◌, take, false, ltb, if◌then◌else◌, length,
}
use qnxstuff.Mail.Lines.{poke}
use qnxstuff.Mail.Spooler.{Group, to_relay, to_domain}
use qnxstuff.Mail.Spooler.Question.{Decoded, named, question}
use qnxstuff.Mail.Spooler.Answer.{analyse}
use qnxstuff.Mail.Spooler.Remote.{Talk, Letter, dialogue, bad_result}

-- What comes of the first target: its name is not resolved, `connect` fails with ECONNREFUSED, with
-- ETIMEDOUT or otherwise, or there is a connection, on which the network has a stream in store.
pub data Try : Type 0 where
  unresolved connrefused timedout failing : Try
  connected : List (List ℕ) → Try

-- The loop comes to a connection, or no target is left, or the system has no more answers in store.
pub data Connection : Type 0 where
  made : List ℕ → List (List ℕ) → List Try → Connection
  given_up : List Try → Connection
  waiting : Connection

-- The first target goes to the end of the list.
abbrev pub rotated : List ℕ → List (List ℕ) → List (List ℕ)
rotated t [] = t ∷ []
rotated t (u ∷ ts) = u ∷ (ts ++ (t ∷ []))

unfoldable pub connect : List Try → List (List ℕ) → Connection
connect tries [] = given_up tries
connect [] (t ∷ ts) = waiting
connect (unresolved ∷ tries) (t ∷ ts) = connect tries ts
connect (connrefused ∷ tries) (t ∷ ts) = connect tries ts
connect (timedout ∷ tries) (t ∷ ts) = connect tries (rotated t ts)
connect (failing ∷ tries) (t ∷ ts) = connect tries (t ∷ ts)
connect (connected net ∷ tries) (t ∷ ts) = made t net tries

-- The relay is tried until it answers.
unfoldable pub connect_relay : List Try → Connection
connect_relay [] = waiting
connect_relay (connected net ∷ tries) = made [] net tries
connect_relay (_ ∷ tries) = connect_relay tries

-- What the deliveries work on: the answers of the DNS server that are in store, with none where `recv`
-- fails, the system's for connections, the buffer, the questions asked, and what every host was told.
pub record World : Type 0 where
  pub answers : List (Option (List ℕ))
  pub tries : List Try
  pub netbuf : List ℕ
  pub asked : List (List ℕ)
  pub told : List (List ℕ × List (List ℕ))

-- The delivery goes on, or the code reads or writes outside its arrays, or does not end, or waits.
pub data Delivery : Type 0 where
  going : World → Delivery
  undefined unending waiting : Delivery

module _ (fuel : ℕ) (from content server_fqdn : List ℕ) (broken : Option ℕ) where
  abbrev letter : List (List ℕ) → Letter
  letter to = record {
    from = from;
    to = to;
    content = content;
    server_fqdn = server_fqdn;
    broken = broken;
  }

  abbrev talk_of : List (List ℕ) → World → Talk
  talk_of net w = record { netbuf = w.netbuf; net = net; sent = []; overrun = false }

  unfoldable pub converse : Connection → List (List ℕ) → World → Delivery
  converse (made host net tries) to w =
      let t = bad_result (dialogue (letter to) (talk_of net w)) in
      if t.overrun
      then undefined
      else going
          (record w { tries = tries; netbuf = t.netbuf; told = w.told ++ ((host, t.sent) ∷ []) })
  converse (given_up tries) to w = going (record w { tries = tries })
  converse Connection.waiting to w = waiting

  unfoldable pub with_targets : Decoded (List (List ℕ)) → List (List ℕ) → World → Delivery
  with_targets (named targets) to w = converse (connect w.tries targets) to w
  with_targets Decoded.outside to w = undefined
  with_targets Decoded.overrun to w = undefined
  with_targets Decoded.unending to w = unending

  unfoldable pub after_answer : List (Option (List ℕ)) → List ℕ → List (List ℕ) → World → Delivery
  after_answer [] domain to w = waiting
  after_answer (none ∷ answers) domain to w = going (record w { answers = answers })
  after_answer (some bytes ∷ answers) domain to w =
      let netbuf = poke w.netbuf 0 (take 512 bytes) in
      with_targets (analyse fuel domain netbuf) to (record w { answers = answers; netbuf = netbuf })

  unfoldable pub deliver_group : Group → Delivery → Delivery
  deliver_group (to_relay to) (going w) = converse (connect_relay w.tries) to w
  deliver_group (to_domain domain to) (going w) =
      if ltb 2048 (length (question domain))
      then undefined
      else after_answer w.answers domain to (record w {
        netbuf = poke w.netbuf 0 (question domain);
        asked = w.asked ++ (question domain ∷ []);
      })
  deliver_group g d = d
