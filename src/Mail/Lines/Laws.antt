-- ===== src/Mail/Lines/Laws.antt =====
-- Laws of the places in a buffer that ReadString writes, and of the stream it reads.
use qnxstuff.Prelude.{
  Bool-cases, leb, inl, inr, sym, ◌∙◌, ℕ, zero, suc, ◌+◌, ◌≤◌, ◌<◌, ◌≡◌, refl, ap, List, [], ◌∷◌,
  ◌++◌, ltb, if◌then◌else◌, length, take, drop, All, arith, length-append, length-take, length-drop,
  append_assoc,
}
use qnxstuff.Mail.Lines.{received, left_over, poke, cr_place}

-- The bytes of a stream, however they are cut.
abbrev pub concat : List (List ℕ) → List ℕ
concat [] = []
concat (chunk ∷ net) = chunk ++ concat net

abbrev pub IsNonempty : List ℕ → Type 0
IsNonempty chunk = 0 < length chunk

module _ {ℓ} {A : Type ℓ} where
  pub take-append : (xs ys : List A) → take (length xs) (xs ++ ys) ≡ xs
  take-append [] ys = refl
  take-append (x ∷ xs) ys = ap (λ l. x ∷ l) (take-append xs ys)

  pub take-append_le : (n : ℕ) (xs ys : List A) → n ≤ length xs → take n (xs ++ ys) ≡ take n xs
  take-append_le zero xs ys h = refl
  take-append_le (suc n) [] ys h = absurd (omega arith)
  take-append_le (suc n) (x ∷ xs) ys h = ap (λ l. x ∷ l) (take-append_le n xs ys (omega arith))

  pub take-append_add : (n : ℕ) (xs ys : List A) → take (length xs + n) (xs ++ ys) ≡ xs ++ take n ys
  take-append_add n [] ys = let e : 0 + n ≡ n = omega arith in ap (λ k. take k ys) e
  take-append_add n (x ∷ xs) ys =
      let e : suc (length xs) + n ≡ suc (length xs + n) = omega arith in
      rw e (ap (λ l. x ∷ l) (take-append_add n xs ys))

  pub take-append-drop : (n : ℕ) (xs : List A) → take n xs ++ drop n xs ≡ xs
  take-append-drop zero xs = refl
  take-append-drop (suc n) [] = refl
  take-append-drop (suc n) (x ∷ xs) = ap (λ l. x ∷ l) (take-append-drop n xs)

  pub take_all : (n : ℕ) (xs : List A) → length xs ≤ n → take n xs ≡ xs
  take_all zero [] h = refl
  take_all zero (x ∷ xs) h = absurd (omega arith)
  take_all (suc n) [] h = refl
  take_all (suc n) (x ∷ xs) h = ap (λ l. x ∷ l) (take_all n xs (omega arith))

pub take-poke :
    (buffer : List ℕ) (i : ℕ) (bytes : List ℕ)
    → i ≤ length buffer
    → take (i + length bytes) (poke buffer i bytes) ≡ take i buffer ++ bytes
take-poke buffer i bytes h =
    let rest = drop (i + length bytes) buffer in
    let e : i + length bytes ≡ length (take i buffer) + length bytes =
      omega (arith, length-take i buffer) in
    ap (λ k. take k (poke buffer i bytes)) e
    ∙ (take-append_add (length bytes) (take i buffer) (bytes ++ rest)
        ∙ ap (λ l. take i buffer ++ l) (take-append bytes rest))

pub length-poke :
    (buffer : List ℕ) (i : ℕ) (bytes : List ℕ)
    → i + length bytes ≤ length buffer
    → length (poke buffer i bytes) ≡ length buffer
length-poke buffer i bytes h =
    let rest = drop (i + length bytes) buffer in
    omega (
      arith,
      length-append (take i buffer) (bytes ++ rest),
      length-append bytes rest,
      length-take i buffer,
      length-drop (i + length bytes) buffer,
    )

pub received-append-left_over :
    (room : ℕ) (net : List (List ℕ)) → received room net ++ concat (left_over room net) ≡ concat net
received-append-left_over room [] = refl
received-append-left_over room (chunk ∷ net) = elim (Bool-cases (leb (length chunk) room)) [
  | inl e ↦ rw e (ap (λ l. l ++ concat net) (take_all room chunk (ground arith)))
  | inr e ↦ rw e (
      sym (append_assoc (take room chunk) (drop room chunk) (concat net))
      ∙ ap (λ l. l ++ concat net) (take-append-drop room chunk))
]

pub left_over-All :
    (room : ℕ) (net : List (List ℕ)) → All IsNonempty net → All IsNonempty (left_over room net)
left_over-All room [] h = tt
left_over-All room (chunk ∷ net) h = elim (Bool-cases (leb (length chunk) room)) [
  | inl e ↦ rw e h.1
  | inr e ↦ rw e (ground (arith, length-drop room chunk), h.1)
]

pub cr_place-le : (xs : List ℕ) → cr_place xs ≤ length xs
unfolding cr_place
cr_place-le [] = omega arith
cr_place-le (x ∷ xs) = ground (arith, cr_place-le xs)

-- The place in what is joined.
pub cr_place-append :
    (xs ys : List ℕ)
    → cr_place (xs ++ ys)
      ≡ (if ltb (cr_place xs) (length xs) then cr_place xs else length xs + cr_place ys)
unfolding cr_place
cr_place-append [] ys = ground arith
cr_place-append (x ∷ xs) ys = ground (arith, cr_place-append xs ys, cr_place-le xs)
