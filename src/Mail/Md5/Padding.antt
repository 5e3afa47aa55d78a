-- ===== src/Mail/Md5/Padding.antt =====
-- The padded message of MD5bin.
use qnxstuff.Prelude.{
  ℕ, zero, suc, ◌+◌, ◌-◌, ◌*◌, ◌%◌, ◌≤◌, ◌<◌, ◌≡◌, refl, ap, ap₂, sym, ◌∙◌, List, [], ◌∷◌, ◌++◌,
  length, set, take, drop, arith, append_assoc,
}
use qnxstuff.Mail.Lines.{poke}
use qnxstuff.Mail.Lines.Laws.{take-append_add}
use qnxstuff.Mail.Md5.{zeros, store32, word, padded_words, padded}

drop-append_add :
    {A : Type 0} (n : ℕ) (xs ys : List A) → drop (length xs + n) (xs ++ ys) ≡ drop n ys
drop-append_add n [] ys = ap (λ k. drop k ys) (omega arith)
drop-append_add n (x ∷ xs) ys =
    let e : suc (length xs) + n ≡ suc (length xs + n) = omega arith in
    ap (λ k. drop k (x ∷ (xs ++ ys))) e ∙ drop-append_add n xs ys

set-append_here : (xs ys : List ℕ) (y v : ℕ) → set (xs ++ (y ∷ ys)) (length xs) v ≡ xs ++ (v ∷ ys)
set-append_here [] ys y v = refl
set-append_here (x ∷ xs) ys y v = ap (λ l. x ∷ l) (set-append_here xs ys y v)

drop-zeros : (k n : ℕ) → drop k (zeros n) ≡ zeros (n - k)
drop-zeros zero n = ap zeros (omega arith)
drop-zeros (suc k) zero = let e : 0 ≡ 0 - suc k = omega arith in ap zeros e
drop-zeros (suc k) (suc n) = drop-zeros k n ∙ ap zeros (omega arith)

take-zeros : (k n : ℕ) → k ≤ n → take k (zeros n) ≡ zeros k
take-zeros zero n h = refl
take-zeros (suc k) zero h = absurd (omega arith)
take-zeros (suc k) (suc n) h = ap (λ l. 0 ∷ l) (take-zeros k n (omega arith))

-- The number of bytes is a multiple of 64, and the least that has room for nine bytes more.
words_enough :
    (n : ℕ)
    → (n + 9 ≤ padded_words n * 4) × (padded_words n * 4 < n + 73) × (padded_words n * 4 % 64 ≡ 0)
unfolding padded_words
words_enough n = ground arith

-- The padding at a length that has room for it.
module _ (buf bits : List ℕ) (words k : ℕ) (size : words * 4 ≡ length buf + k + 9)
    (four : length bits ≡ 4) where
  copied_lem : poke (zeros (words * 4)) 0 buf ≡ buf ++ (0 ∷ zeros (k + 8))
  copied_lem =
      let e : words * 4 - (0 + length buf) ≡ suc (k + 8) = omega arith in
      ap (λ l. buf ++ l) (drop-zeros (0 + length buf) (words * 4) ∙ ap zeros e)

  marked_lem :
      set (poke (zeros (words * 4)) 0 buf) (length buf) 0x80 ≡ buf ++ (0x80 ∷ zeros (k + 8))
  marked_lem =
      ap (λ l. set l (length buf) 0x80) copied_lem ∙ set-append_here buf (zeros (k + 8)) 0 0x80

  front_lem : take ((words - 2) * 4) (buf ++ (0x80 ∷ zeros (k + 8))) ≡ buf ++ (0x80 ∷ zeros k)
  front_lem =
      let e : (words - 2) * 4 ≡ length buf + suc k = omega arith in
      ap (λ n. take n (buf ++ (0x80 ∷ zeros (k + 8)))) e
      ∙ (take-append_add (suc k) buf (0x80 ∷ zeros (k + 8))
          ∙ ap (λ l. buf ++ (0x80 ∷ l)) (take-zeros k (k + 8) (omega arith)))

  back_lem : drop ((words - 2) * 4 + length bits) (buf ++ (0x80 ∷ zeros (k + 8))) ≡ zeros 4
  back_lem =
      let e : (words - 2) * 4 + length bits ≡ length buf + suc (k + 4) = omega arith in
      let f : k + 8 - (k + 4) ≡ 4 = omega arith in
      ap (λ n. drop n (buf ++ (0x80 ∷ zeros (k + 8)))) e
      ∙ (drop-append_add (suc (k + 4)) buf (0x80 ∷ zeros (k + 8))
          ∙ (drop-zeros (k + 4) (k + 8) ∙ ap zeros f))

  poke_lem :
      poke (set (poke (zeros (words * 4)) 0 buf) (length buf) 0x80) ((words - 2) * 4) bits
      ≡ buf ++ (0x80 ∷ (zeros k ++ (bits ++ zeros 4)))
  poke_lem =
      ap (λ l. poke l ((words - 2) * 4) bits) marked_lem
      ∙ (ap₂ (λ l r. l ++ (bits ++ r)) front_lem back_lem
          ∙ append_assoc buf (0x80 ∷ zeros k) (bits ++ zeros 4))

-- Behind a message MD5bin puts the byte 0x80, then zeros, fewer than 64 and so many that the whole
-- is a multiple of 64 bytes long, then the number of its bits, of which 32 are kept, and four
-- zeros.
pub padded_lem :
    (buf : List ℕ)
    → (k : ℕ) × (k < 64)
      × ((length buf + k + 9) % 64 ≡ 0)
      × (padded buf ≡ buf ++ (0x80 ∷ (zeros k ++ (store32 (word (length buf * 8)) ++ zeros 4))))
unfolding padded
padded_lem buf =
    let words = padded_words (length buf) in
    let (least, most, whole) = words_enough (length buf) in
    let k = words * 4 - length buf - 9 in
    let e : words * 4 ≡ length buf + k + 9 = omega arith in
    (
      k,
      omega arith,
      ap (λ n. n % 64) (sym e) ∙ whole,
      poke_lem buf (store32 (word (length buf * 8))) words k e refl,
    )
