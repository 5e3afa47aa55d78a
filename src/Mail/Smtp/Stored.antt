-- ===== src/Mail/Smtp/Stored.antt =====
-- What DATA of QX-mail/smtp.c stores of the stream.
use qnxstuff.Prelude.{
  ℕ, zero, suc, ◌+◌, ◌-◌, ◌≤◌, ◌<◌, ◌≡◌, refl, ◌≢◌, inl, inr, some_cancel, ==_iff, ap, sym, ◌∙◌,
  true, Option, none, some, List, [], ◌∷◌, ◌++◌, ◌==◌, length, take, drop, Bool-cases, arith,
  length-append, length-take, length-drop,
}
use qnxstuff.Prelude.Memory.{byte_at}
use qnxstuff.Mail.Lines.Laws.{concat}
use qnxstuff.Mail.Smtp.Body.{
  last_cr, ends_message, Body, whole, broken, starved, found_cr, bytes_of,
}

-- What stands before the last byte of "\r\n.\r\n"
abbrev pub mark : List ℕ
mark = 13 ∷ 10 ∷ b'.' ∷ 13 ∷ []

-- What the loop promises of the bytes to come, where some were written before: those it writes are
-- the ones in front of the mark, and more than the mark has been read.
abbrev pub Stores : List ℕ → List ℕ → Body → Type 0
Stores before all (whole written buffer net) =
    (text rest : List ℕ) × (written ≡ before ++ text)
    × (all ≡ text ++ (mark ++ (rest ++ concat net)))
    × (0 < length rest)
Stores before all (broken net) = Unit
Stores before all starved = ⊥

pub bytes_of-eq : (net : List (List ℕ)) → bytes_of net ≡ length (concat net)
unfolding bytes_of
bytes_of-eq [] = refl
bytes_of-eq (chunk ∷ net) = omega (arith, bytes_of-eq net, length-append chunk (concat net))

pub last_cr_found : (n p : ℕ) (b : List ℕ) → last_cr n b ≡ some p → (p < n) × (byte_at b p ≡ 13)
unfolding last_cr
last_cr_found zero p b h = cc
last_cr_found (suc n) p b h = elim (Bool-cases (byte_at b n == 13)) [
  | inl e ↦
      let same : n ≡ p = some_cancel (rw e at h) in
      (omega arith, ap (byte_at b) (sym same) ∙ (==_iff (byte_at b n) 13).0 e)
  | inr e ↦ let ih = last_cr_found n p b (rw e at h) in (omega (arith, ih.0), ih.1)
]

pub found_cr_lem :
    (n p : ℕ) (o : Option ℕ) → found_cr n o ≡ some p → (o ≡ some p) × (3 ≤ p) × (p ≢ n - 1)
found_cr_lem n p none h = cc
found_cr_lem n p (some q) h = ground arith

take-nil : (n : ℕ) → take {A = ℕ} n [] ≡ []
take-nil zero = refl
take-nil (suc n) = refl

pub take-add : (p q : ℕ) (b : List ℕ) → take (p + q) b ≡ take p b ++ take q (drop p b)
take-add zero q b = ap (λ n. take n b) (omega arith)
take-add (suc p) q [] = take-nil (suc p + q) ∙ sym (take-nil q)
take-add (suc p) q (x ∷ b) =
    let e : suc p + q ≡ suc (p + q) = omega arith in rw e (ap (λ l. x ∷ l) (take-add p q b))

byte_at-drop : (k j : ℕ) (b : List ℕ) → byte_at (drop k b) j ≡ byte_at b (k + j)
byte_at-drop zero j b = ap (byte_at b) (omega arith)
byte_at-drop (suc k) j [] = refl
byte_at-drop (suc k) j (x ∷ b) =
    let e : suc k + j ≡ suc (k + j) = omega arith in rw e (byte_at-drop k j b)

-- Four bytes at the front
starts_with_mark :
    (n : ℕ) (b : List ℕ)
    → byte_at b 0 ≡ 13
    → byte_at b 1 ≡ 10
    → byte_at b 2 ≡ b'.'
    → byte_at b 3 ≡ 13
    → take (4 + n) b ≡ mark ++ take n (drop 4 b)
starts_with_mark n [] h₀ h₁ h₂ h₃ = absurd (omega arith)
starts_with_mark n (a ∷ []) h₀ h₁ h₂ h₃ = absurd (omega arith)
starts_with_mark n (a ∷ b ∷ []) h₀ h₁ h₂ h₃ = absurd (omega arith)
starts_with_mark n (a ∷ b ∷ c ∷ []) h₀ h₁ h₂ h₃ = absurd (omega arith)
starts_with_mark n (a ∷ b ∷ c ∷ d ∷ rest) h₀ h₁ h₂ h₃ =
    let e : 4 + n ≡ suc (suc (suc (suc n))) = omega arith in rw (e, h₀, h₁, h₂, h₃) refl

-- The buffer in use, at a place where the message ends
module _ (p result : ℕ) (b : List ℕ) (here : byte_at b p ≡ 13) (inside : p < result) (low : 3 ≤ p)
    (last : p ≢ result - 1) (room : result ≤ length b) (end : ends_message p b ≡ true) where
  at_mark : (j c : ℕ) → byte_at b (p - 3 + j) ≡ c → byte_at (drop (p - 3) b) j ≡ c
  at_mark j c h = byte_at-drop (p - 3) j b ∙ h

  place : (j k : ℕ) → j + k ≡ 3 → byte_at b (p - 3 + j) ≡ byte_at b (p - k)
  place j k h = ap (byte_at b) (omega arith)

  pub mark_lem :
      take result b ≡ take (p - 3) b ++ (mark ++ take (result - p - 1) (drop 4 (drop (p - 3) b)))
  mark_lem =
      let n = result - p - 1 in
      let e : result ≡ p - 3 + (4 + n) = omega arith in
      let one : byte_at b (p - 3) ≡ 13 = ground arith in
      let two : byte_at b (p - 2) ≡ 10 = ground arith in
      let three : byte_at b (p - 1) ≡ b'.' = ground arith in
      ap (λ k. take k b) e
      ∙ (take-add (p - 3) (4 + n) b
          ∙ ap (λ l. take (p - 3) b ++ l)
              (starts_with_mark n (drop (p - 3) b) (at_mark 0 13 (place 0 3 refl ∙ one))
                (at_mark 1 10 (place 1 2 refl ∙ two)) (at_mark 2 b'.' (place 2 1 refl ∙ three))
                (at_mark 3 13 (ap (byte_at b) (omega arith) ∙ here))))

  pub rest_lem : 0 < length (take (result - p - 1) (drop 4 (drop (p - 3) b)))
  rest_lem = omega (
    arith,
    length-take (result - p - 1) (drop 4 (drop (p - 3) b)),
    length-drop 4 (drop (p - 3) b),
    length-drop (p - 3) b,
  )
