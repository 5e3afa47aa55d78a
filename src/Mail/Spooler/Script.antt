-- ===== src/Mail/Spooler/Script.antt =====
-- QX-mail/spooler.c: the strings of a delivery, and what is said of the file.
use qnxstuff.Prelude.{
  ℕ, suc, ◌+◌, ◌≤◌, Bool, true, false, Option, List, [], ◌∷◌, ◌++◌, map, length, take, ◌≡◌, refl,
  sym, subst, ◌∙◌, arith, append_assoc, append-nil, length-append, if◌then◌else◌, Bool-cases, inl,
  inr,
}
use qnxstuff.Mail.Text.{codes}
use qnxstuff.Mail.Pop.Messages.{blocks}
use qnxstuff.Mail.Smtp.Connection.{crlf}
use qnxstuff.Mail.Lines.{Read, line, failed, starved, read_string, poke}
use qnxstuff.Mail.Lines.Laws.{take-append_add, take-append_le}
use qnxstuff.Mail.Spooler.Remote.{
  Talk, Letter, Ended, all_sent, lost, skipped, refused, Answer, replied, silent, answer_of,
  read_reply, say, is_code, expect, end_of_data, is_broken, send_body, send_data, rcpt_text,
  mail_text, hello_text,
}

-- The strings of a whole delivery: the greeting, with HELO or not; the sender; so many of the
-- recipients; the file in its blocks, and the end of the data.
abbrev pub data_script : Letter → List (List ℕ)
data_script m = blocks (length m.content) 1400 m.content ++ (end_of_data ∷ [])

abbrev pub rest_script : Letter → List (List ℕ)
rest_script m = (codes "DATA" ++ crlf) ∷ data_script m

abbrev pub mail_script : Letter → ℕ → List (List ℕ)
mail_script m k = mail_text m ∷ (map rcpt_text (take k m.to) ++ rest_script m)

abbrev pub behind : Letter → Bool → ℕ → List (List ℕ)
behind m true k = hello_text (codes "HELO ") m ∷ mail_script m k
behind m false k = mail_script m k

abbrev pub script : Letter → Bool → ℕ → List (List ℕ)
script m short k = hello_text (codes "EHLO ") m ∷ behind m short k

abbrev pub said : Ended → List (List ℕ)
said (all_sent t) = t.sent
said (lost t) = t.sent
said (skipped t) = t.sent
said (refused t) = t.sent

abbrev pub Whole : Ended → ℕ → List (List ℕ) → Type 0
Whole (all_sent t) n s = length s ≤ n
Whole _ n s = Unit

-- The strings said behind others are a beginning of a list, and the whole of it if all is sent.
abbrev pub Says : List (List ℕ) → Ended → List (List ℕ) → Type 0
Says before e s = (n : ℕ) × (said e ≡ before ++ take n s) × Whole e n s

abbrev pub answer_sent : Answer → List (List ℕ)
answer_sent (replied t) = t.sent
answer_sent (silent t) = t.sent

pub read_reply-sent : (t : Talk) → answer_sent (read_reply t) ≡ t.sent
unfolding read_reply
read_reply-sent t = go (read_string 2047 t.netbuf t.net)
  where
    go : (r : Read) → answer_sent (answer_of r t) ≡ t.sent
    go (line n netbuf net) = refl
    go (failed netbuf net) = refl
    go starved = refl

pub nothing_said : (before : List (List ℕ)) (s : List (List ℕ)) → before ≡ before ++ take 0 s
nothing_said before s = sym (append-nil before)

Whole-append :
    (e : Ended) (n : ℕ) (xs s : List (List ℕ)) → Whole e n s → Whole e (length xs + n) (xs ++ s)
Whole-append (all_sent t) n xs s w = omega (arith, w, length-append xs s)
Whole-append (lost t) n xs s w = tt
Whole-append (skipped t) n xs s w = tt
Whole-append (refused t) n xs s w = tt

-- What is said behind more strings
pub Says-append :
    (before xs s : List (List ℕ)) (e : Ended) → Says (before ++ xs) e s → Says before e (xs ++ s)
Says-append before xs s e (n, eq, w) = (
  length xs + n,
  rw (take-append_add n xs s) (eq ∙ append_assoc before xs (take n s)),
  Whole-append e n xs s w,
)

module _ {I : Type 0} (scripts : I → List (List ℕ)) (first : I) (before : List (List ℕ)) where
  -- A reply that is not hoped for ends what is said.
  pub expect-Says :
      (code : List ℕ) (next : Talk → Ended) (a : Answer)
      → answer_sent a ≡ before
      → ((t : Talk) → t.sent ≡ before → (i : I) × Says before (next t) (scripts i))
      → (i : I) × Says before (expect code next a) (scripts i)
  unfolding expect
  expect-Says code next (silent t) e h = (first, (0, e ∙ nothing_said before (scripts first), tt))
  expect-Says code next (replied t) e h = elim (Bool-cases (is_code code t)) [
    | inl yes_code ↦ rw yes_code (h t e)
    | inr no_code ↦ rw no_code (first, (0, e ∙ nothing_said before (scripts first), tt))
  ]

-- The blocks that were sent before `send` failed, if it did.
abbrev SentBlocks : List (List ℕ) → List (List ℕ) → Bool × Talk → Type 0
SentBlocks before bs (true, t) = t.sent ≡ before ++ bs
SentBlocks before bs (false, t) = (n : ℕ) × (n ≤ length bs) × (t.sent ≡ before ++ take n bs)

SentBlocks-cons :
    (before : List (List ℕ)) (b : List ℕ) (bs : List (List ℕ)) (r : Bool × Talk)
    → SentBlocks (before ++ (b ∷ [])) bs r
    → SentBlocks before (b ∷ bs) r
SentBlocks-cons before b bs (true, t) h = h ∙ append_assoc before (b ∷ []) bs
SentBlocks-cons before b bs (false, t) (n, le, e) =
    (suc n, omega arith, e ∙ append_assoc before (b ∷ []) (take n bs))

send_body-SentBlocks :
    (broken : Option ℕ) (k : ℕ) (bs : List (List ℕ)) (t : Talk)
    → SentBlocks t.sent bs (send_body broken k bs t)
unfolding send_body
send_body-SentBlocks broken k [] t = sym (append-nil t.sent)
send_body-SentBlocks broken k (b ∷ bs) t = elim (Bool-cases (is_broken broken k)) [
  | inl fails ↦ rw fails (0, omega arith, sym (append-nil t.sent))
  | inr works ↦
      let t' = record t { netbuf = poke t.netbuf 0 b; sent = t.sent ++ (b ∷ []) } in
      rw works (
        SentBlocks-cons t.sent b bs (send_body broken (k + 1) bs t')
          (send_body-SentBlocks broken (k + 1) bs t'))
]

after_body :
    (m : Letter) (before bs : List (List ℕ)) (r : Bool × Talk)
    → SentBlocks before bs r
    → Says before
        (if r.0 then expect (codes "250") all_sent (say end_of_data r.1) else lost r.1)
        (bs ++ (end_of_data ∷ []))
after_body m before bs (true, t) h =
    let (i, says) =
      expect-Says {I = Unit} (λ i. []) tt (t.sent ++ (end_of_data ∷ [])) (codes "250") all_sent
        (say end_of_data t) (read_reply-sent (record t { sent = t.sent ++ (end_of_data ∷ []) }))
        (λ t' e. (tt, (0, e ∙ nothing_said (t.sent ++ (end_of_data ∷ [])) [], omega arith))) in
    let end = expect (codes "250") all_sent (say end_of_data t) in
    Says-append before bs (end_of_data ∷ []) end (
      subst (λ x. Says x end (end_of_data ∷ [])) h
        (Says-append t.sent (end_of_data ∷ []) [] end says))
after_body m before bs (false, t) (n, le, e) =
    (n, rw (take-append_le n bs (end_of_data ∷ []) le) e, tt)

pub send_data-Says : (m : Letter) (t : Talk) → Says t.sent (send_data m t) (data_script m)
unfolding send_data
send_data-Says m t =
    let bs = blocks (length m.content) 1400 m.content in
    after_body m t.sent bs (send_body m.broken 0 bs t) (send_body-SentBlocks m.broken 0 bs t)
