-- ===== src/Mail/Spooler/Told.antt =====
-- QX-mail/spooler.c: what a server is told, whatever it replies.
use qnxstuff.Prelude.{
  ℕ, zero, suc, ◌+◌, ◌≤◌, Bool, true, false, List, [], ◌∷◌, ◌++◌, map, length, take, ◌≡◌, refl, ap,
  sym, subst, ◌∙◌, arith, append_assoc, append-nil, length-drop, drop, ◌==◌, if◌then◌else◌,
  Bool-cases, inl, inr,
}
use qnxstuff.Mail.Text.{codes}
use qnxstuff.Mail.Pop.Messages.{blocks}
use qnxstuff.Mail.Smtp.Connection.{crlf}
use qnxstuff.Mail.Lines.Laws.{concat, take-append-drop}
use qnxstuff.Mail.Spooler.Remote.{
  Talk, Letter, Ended, Answer, replied, silent, read_reply, say, say_printed, print_into, is_code,
  expect, send_data, rcpt_text, send_recipients, count_valid, after_recipients, mail_text,
  send_envelope, hello_text, after_hello, dialogue,
}
use qnxstuff.Mail.Spooler.Script.{
  data_script, rest_script, mail_script, behind, script, Says, answer_sent, read_reply-sent,
  nothing_said, Says-append, expect-Says, send_data-Says,
}

-- Some of the recipients are named, in their order.
send_recipients-sent :
    (rs : List (List ℕ)) (n : ℕ) (t : Talk)
    → (k : ℕ) × ((send_recipients rs n t).1.sent ≡ t.sent ++ map rcpt_text (take k rs))
unfolding send_recipients
send_recipients-sent [] n t = (0, sym (append-nil t.sent))
send_recipients-sent (r ∷ rs) n t =
    go (say_printed (rcpt_text r) t)
      (read_reply-sent
        (record (print_into (rcpt_text r ++ (0 ∷ [])) t) { sent = t.sent ++ (rcpt_text r ∷ []) }))
      (λ n' t'. send_recipients-sent rs n' t')
  where
    go :
        (a : Answer)
        → answer_sent a ≡ t.sent ++ (rcpt_text r ∷ [])
        → ((n' : ℕ) (t' : Talk)
            → (k : ℕ) × ((send_recipients rs n' t').1.sent ≡ t'.sent ++ map rcpt_text (take k rs)))
        → (k : ℕ) × ((count_valid (send_recipients rs) n a).1.sent
            ≡ t.sent ++ map rcpt_text (take k (r ∷ rs)))
    go (silent t') e ih = (1, e)
    go (replied t') e ih =
        let (k, eq) = ih (if is_code (codes "250") t' then n + 1 else n) t' in
        (
          suc k,
          eq
              ∙ (ap (λ x. x ++ map rcpt_text (take k rs)) e
                  ∙ append_assoc t.sent (rcpt_text r ∷ []) (map rcpt_text (take k rs))),
        )

after_recipients-Says :
    (m : Letter) (r : ℕ × Talk) → Says r.1.sent (after_recipients m r) (rest_script m)
unfolding after_recipients
after_recipients-Says m (n, t) = elim (Bool-cases (n == 0)) [
  | inl none_valid ↦ rw none_valid (0, nothing_said t.sent (rest_script m), tt)
  | inr valid ↦
      let text = codes "DATA" ++ crlf in
      let told = record t { sent = t.sent ++ (text ∷ []) } in
      let (i, says) =
        expect-Says {I = Unit} (λ i. data_script m) tt (t.sent ++ (text ∷ [])) (codes "354")
          (send_data m) (say text t) (read_reply-sent told)
          (λ t' e.
            (tt, subst (λ x. Says x (send_data m t') (data_script m)) e (send_data-Says m t'))) in
      rw valid (
        Says-append t.sent (text ∷ []) (data_script m)
          (expect (codes "354") (send_data m) (say text t)) says)
]

recipients-Says :
    (m : Letter) (before : List (List ℕ)) (t : Talk)
    → t.sent ≡ before
    → (k : ℕ) × Says before
        (after_recipients m (send_recipients m.to 0 t))
        (map rcpt_text (take k m.to) ++ rest_script m)
recipients-Says m before t e =
    let (k, sent) = send_recipients-sent m.to 0 t in
    let end = after_recipients m (send_recipients m.to 0 t) in
    let names = map rcpt_text (take k m.to) in
    (
      k,
      subst (λ x. Says x end (names ++ rest_script m)) e
          (Says-append t.sent names (rest_script m) end (
            subst (λ x. Says x end (rest_script m)) sent
              (after_recipients-Says m (send_recipients m.to 0 t)))),
    )

-- A command that was printed, in front of what is said if the reply to it has the code.
module _ {I : Type 0} (scripts : I → List (List ℕ)) (first : I) (t : Talk) where
  printed-Says :
      (text code : List ℕ) (next : Talk → Ended)
      → ((t' : Talk)
          → t'.sent ≡ t.sent ++ (text ∷ [])
          → (i : I) × Says (t.sent ++ (text ∷ [])) (next t') (scripts i))
      → (i : I) × Says t.sent (expect code next (say_printed text t)) (text ∷ scripts i)
  printed-Says text code next h =
      let told = record (print_into (text ++ (0 ∷ [])) t) { sent = t.sent ++ (text ∷ []) } in
      let (i, says) =
        expect-Says scripts first (t.sent ++ (text ∷ [])) code next (say_printed text t)
          (read_reply-sent told) h in
      (i, Says-append t.sent (text ∷ []) (scripts i) (expect code next (say_printed text t)) says)

envelope-Says :
    (m : Letter) (before : List (List ℕ)) (t : Talk)
    → t.sent ≡ before
    → (k : ℕ) × Says before (send_envelope m t) (mail_script m k)
unfolding send_envelope
envelope-Says m before t e =
    let (k, says) =
      printed-Says (λ k. map rcpt_text (take k m.to) ++ rest_script m) 0 t (mail_text m)
        (codes "250") (λ t'. after_recipients m (send_recipients m.to 0 t'))
        (λ t' e'. recipients-Says m (t.sent ++ (mail_text m ∷ [])) t' e') in
    (k, subst (λ x. Says x (send_envelope m t) (mail_script m k)) e says)

hello-Says :
    (m : Letter) (before : List (List ℕ)) (a : Answer)
    → answer_sent a ≡ before
    → (short : Bool) × (k : ℕ) × Says before (after_hello m a) (behind m short k)
unfolding after_hello
hello-Says m before (silent t) e = (false, 0, (0, e ∙ nothing_said before (mail_script m 0), tt))
hello-Says m before (replied t) e = elim (Bool-cases (is_code (codes "250") t)) [
  | inl accepted ↦ let (k, says) = envelope-Says m before t e in rw accepted (false, k, says)
  | inr not_accepted ↦
      let (k, says) =
        printed-Says (mail_script m) 0 t (hello_text (codes "HELO ") m) (codes "250")
          (send_envelope m)
          (λ t' e'. envelope-Says m (t.sent ++ (hello_text (codes "HELO ") m ∷ [])) t' e') in
      let end =
        expect (codes "250") (send_envelope m) (say_printed (hello_text (codes "HELO ") m) t) in
      rw not_accepted (true, k, subst (λ x. Says x end (behind m true k)) e says)
]

ehlo-Says :
    (m : Letter) (before : List (List ℕ)) (t : Talk)
    → t.sent ≡ before
    → (i : Bool × ℕ) × Says before
        (after_hello m (say_printed (hello_text (codes "EHLO ") m) t))
        (script m i.0 i.1)
ehlo-Says m before t e =
    let text = hello_text (codes "EHLO ") m in
    let told = record (print_into (text ++ (0 ∷ [])) t) { sent = t.sent ++ (text ∷ []) } in
    let end = after_hello m (say_printed text t) in
    let (short, k, says) =
      hello-Says m (t.sent ++ (text ∷ [])) (say_printed text t) (read_reply-sent told) in
    (
      (short, k),
      subst (λ x. Says x end (script m short k)) e
          (Says-append t.sent (text ∷ []) (behind m short k) end says),
    )

-- Nothing is lost in blocks.
concat-blocks : (f : ℕ) (bytes : List ℕ) → length bytes ≤ f → concat (blocks f 1400 bytes) ≡ bytes
unfolding blocks
concat-blocks zero [] h = refl
concat-blocks zero (c ∷ bytes) h = absurd (omega arith)
concat-blocks (suc f) [] h = refl
concat-blocks (suc f) (c ∷ bytes) h =
    ap (λ x. take 1400 (c ∷ bytes) ++ x)
      (concat-blocks f (drop 1400 (c ∷ bytes)) (omega (arith, length-drop 1400 (c ∷ bytes))))
    ∙ take-append-drop 1400 (c ∷ bytes)

-- Whatever the server replies, what it is told is a beginning of the script: EHLO, then HELO perhaps,
-- MAIL, a RCPT for some of the recipients from the first on, DATA, the file in blocks, and the end of
-- the data; and if the dialogue ends with success it is told all of this. The blocks together are the
-- file.
pub dialogue-Says :
    (m : Letter) (t : Talk)
    → ((i : Bool × ℕ) × Says t.sent (dialogue m t) (script m i.0 i.1))
      × (concat (blocks (length m.content) 1400 m.content) ≡ m.content)
unfolding dialogue
dialogue-Says m t = (
  expect-Says (λ i. script m i.0 i.1) (false, 0) t.sent (codes "220")
      (λ t'. after_hello m (say_printed (hello_text (codes "EHLO ") m) t')) (read_reply t)
      (read_reply-sent t) (λ t' e. ehlo-Says m t.sent t' e),
  concat-blocks (length m.content) m.content (omega arith),
)
