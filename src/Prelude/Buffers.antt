-- ===== src/Prelude/Buffers.antt =====
-- Two areas of memory whose roles are exchanged by exchanging two pointers.
use mathlib.Core.Path.{◌≡◌, refl}
use mathlib.Core.Logic.{◌≢◌}
use mathlib.Core.List.{List}
use qnxstuff.Prelude.Lists.{length}

-- The value of a pointer to one of the two areas.
pub data Half : Type 0 where
  first second : Half

pub record Buffers {ℓ} (A : Type ℓ) : Type ℓ where
  pub in_first : A
  pub in_second : A

module _ {ℓ} {A : Type ℓ} where
  abbrev pub read : Half → Buffers A → A
  read first m = m.in_first
  read second m = m.in_second

  abbrev pub write : Half → A → Buffers A → Buffers A
  write first a m = record m { in_first = a }
  write second a m = record m { in_second = a }

  pub read-write_self : (h : Half) (a : A) (m : Buffers A) → read h (write h a m) ≡ a
  read-write_self first a m = refl
  read-write_self second a m = refl

  pub read-write_ne : (h k : Half) (a : A) (m : Buffers A) → h ≢ k → read k (write h a m) ≡ read k m
  read-write_ne first first a m n = absurd (n refl)
  read-write_ne first second a m n = refl
  read-write_ne second first a m n = refl
  read-write_ne second second a m n = absurd (n refl)

module _ {ℓ} {A : Type ℓ} where
  -- A new array of the same length in one half changes no length.
  pub length-read-write :
      (k h : Half) (b : List A) (m : Buffers (List A))
      → length b ≡ length (read k m)
      → length (read h (write k b m)) ≡ length (read h m)
  length-read-write first first b m e = e
  length-read-write first second b m e = refl
  length-read-write second first b m e = refl
  length-read-write second second b m e = e
