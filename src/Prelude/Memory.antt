-- ===== src/Prelude/Memory.antt =====
-- What the C library and an x86 machine do with bytes in memory: `memcmp`, and little-endian loads
-- of unaligned words, as the casts of a byte pointer make them.
use Prim.Native.Nat.{ℕ, zero, suc, ◌+◌, ◌*◌, compare, Ordering}
use mathlib.Core.Path.{◌≡◌, refl}
use mathlib.Core.List.{List, [], ◌∷◌}
use native.Mathlib.Omega.{arith}
use qnxstuff.Prelude.Lists.{get_or}

-- The sign of `memcmp(a, b, n)`. Every call of the program has `n` bytes on both sides.
unfoldable pub memcmp : ℕ → List ℕ → List ℕ → Ordering
memcmp zero a b = Ordering.eq
memcmp (suc n) [] [] = Ordering.eq
memcmp (suc n) [] (y ∷ ys) = Ordering.lt
memcmp (suc n) (x ∷ xs) [] = Ordering.gt
memcmp (suc n) (x ∷ xs) (y ∷ ys) = elim (compare x y) [
  | Ordering.lt ↦ Ordering.lt
  | Ordering.eq ↦ memcmp n xs ys
  | Ordering.gt ↦ Ordering.gt
]

-- The byte at an offset; 0 past the end.
abbrev pub byte_at : List ℕ → ℕ → ℕ
byte_at bytes i = get_or bytes i 0

-- `*(uint16_t*)(bytes + i)`
abbrev pub load16 : List ℕ → ℕ → ℕ
load16 bytes i = byte_at bytes i + byte_at bytes (i + 1) * 256

-- `*(uint32_t*)(bytes + i)`
abbrev pub load32 : List ℕ → ℕ → ℕ
load32 bytes i = load16 bytes i + load16 bytes (i + 2) * 65536

pub memcmp_refl : (n : ℕ) (a : List ℕ) → memcmp n a a ≡ Ordering.eq
unfolding memcmp
memcmp_refl zero a = refl
memcmp_refl (suc n) [] = refl
memcmp_refl (suc n) (x ∷ xs) = ground (arith, memcmp_refl n xs)

-- Equal bytes compare alike with any third.
pub memcmp_congr :
    (n : ℕ) (c a b : List ℕ) → memcmp n a b ≡ Ordering.eq → memcmp n c a ≡ memcmp n c b
unfolding memcmp
memcmp_congr zero c a b h = refl
memcmp_congr (suc n) c [] [] h = refl
memcmp_congr (suc n) c [] (y ∷ ys) h = ground arith
memcmp_congr (suc n) c (x ∷ xs) [] h = ground arith
memcmp_congr (suc n) [] (x ∷ xs) (y ∷ ys) h = refl
memcmp_congr (suc n) (z ∷ zs) (x ∷ xs) (y ∷ ys) h = ground (arith, memcmp_congr n zs xs ys)
