-- ===== src/Prelude/Strings.antt =====
-- C strings as the lists of their bytes, without the final NUL, and the library's tests on them.
use Prim.Native.Nat.{ℕ, ◌-◌, ◌+◌}
use mathlib.Core.Path.{◌≡◌, refl}
use native.Mathlib.Omega.{arith}
use mathlib.Core.Bool.{Bool, true, false, ◌&&◌}
use mathlib.Core.List.{List, [], ◌∷◌}
use qnxstuff.Prelude.Tests.{leb, ◌==◌, if◌then◌else◌}

-- `toupper` in the C locale
abbrev pub toupper : ℕ → ℕ
toupper c = if leb b'a' c && leb c b'z' then c - 32 else c

-- `!stricmp(s, t)`
unfoldable pub stricmp_eq : List ℕ → List ℕ → Bool
stricmp_eq [] [] = true
stricmp_eq [] (d ∷ t) = false
stricmp_eq (c ∷ s) [] = false
stricmp_eq (c ∷ s) (d ∷ t) = toupper c == toupper d && stricmp_eq s t

pub stricmp_eq_refl : (s : List ℕ) → stricmp_eq s s ≡ true
unfolding stricmp_eq
stricmp_eq_refl [] = refl
stricmp_eq_refl (c ∷ s) = ground (arith, stricmp_eq_refl s)

-- The C string at the beginning of an array.
abbrev pub c_string : List ℕ → List ℕ
c_string [] = []
c_string (c ∷ s) = let rest = c_string s in if c == 0 then [] else c ∷ rest

-- `tolower` in the C locale
abbrev pub tolower : ℕ → ℕ
tolower c = if leb b'A' c && leb c b'Z' then c + 32 else c
