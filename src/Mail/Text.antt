-- ===== src/Mail/Text.antt =====
-- Numbers and names in the text that the mail server reads and prints, as the C library has them.
use Prim.Native.Char.{code}
use Prim.Native.String.{String}
use qnxstuff.Prelude.{
  ℕ, zero, suc, ◌+◌, ◌-◌, ◌*◌, ◌/◌, ◌%◌, Bool, ◌&&◌, ◌||◌, Option, none, some, List, [], ◌∷◌, ltb,
  leb, ◌==◌, if◌then◌else◌, true, false,
}
use qnxstuff.Prelude.Int.{ℤ, pos, negsuc}
use qnxstuff.Prelude.Strings.{tolower, toupper}

-- The bytes of a literal
abbrev pub codes : String → List ℕ
codes String.[] = []
codes (String.◌∷◌ c s) = code c ∷ codes s

-- `isspace` in the C locale
abbrev is_space : ℕ → Bool
is_space c = c == b' ' || (leb 9 c && leb c 13)

abbrev pub is_digit : ℕ → Bool
is_digit c = leb b'0' c && leb c b'9'

unfoldable pub digits_value : ℕ → List ℕ → ℕ
digits_value n [] = n
digits_value n (c ∷ s) =
    let rest = digits_value (n * 10 + (c - b'0')) s in if is_digit c then rest else n

abbrev minus : ℕ → ℤ
minus zero = pos 0
minus (suc n) = negsuc n

abbrev signed : List ℕ → ℤ
unfolding digits_value
signed [] = pos 0
signed (c ∷ s) =
    if c == b'-'
    then minus (digits_value 0 s)
    else if c == b'+'
    then pos (digits_value 0 s)
    else pos (digits_value 0 (c ∷ s))

-- `atoi`. Numbers out of the range of `int`, for which C promises nothing, are read as they are.
unfoldable pub atoi : List ℕ → ℤ
unfolding signed
atoi [] = pos 0
atoi (c ∷ s) = let rest = atoi s in if is_space c then rest else signed (c ∷ s)

-- The decimal digits of a number in front of a text; ten digits are enough for a word.
unfoldable pub decimal : ℕ → ℕ → List ℕ → List ℕ
decimal zero n text = text
decimal (suc f) n text =
    let more = decimal f (n / 10) ((b'0' + n % 10) ∷ text) in
    if ltb n 10 then (b'0' + n) ∷ text else more

-- `%i` of a 32-bit word
unfoldable pub print_int : ℕ → List ℕ
unfolding decimal
print_int n = if ltb n 2147483648 then decimal 10 n [] else b'-' ∷ decimal 10 (4294967296 - n) []

-- `%i` of an `int`
unfoldable pub print_signed : ℤ → List ℕ
unfolding decimal
print_signed (pos n) = decimal 10 n []
print_signed (negsuc n) = b'-' ∷ decimal 10 (suc n) []

-- `strchr(s, c)`: the string in front of the character, and that behind it.
unfoldable pub split_at : ℕ → List ℕ → Option (List ℕ × List ℕ)
split_at c [] = none
split_at c (d ∷ s) =
    let rest = split_at c s in
    if d == c then some ([], s) else elim rest [ none ↦ none | some (a, b) ↦ some (d ∷ a, b) ]

-- `!memicmp(s, t, n)`
unfoldable pub memicmp_eq : ℕ → List ℕ → List ℕ → Bool
memicmp_eq zero s t = true
memicmp_eq (suc n) (c ∷ s) (d ∷ t) = tolower c == tolower d && memicmp_eq n s t
memicmp_eq (suc n) _ _ = false

-- `!strcmp(s, t)`
unfoldable pub strcmp_eq : List ℕ → List ℕ → Bool
strcmp_eq [] [] = true
strcmp_eq (c ∷ s) (d ∷ t) = c == d && strcmp_eq s t
strcmp_eq _ _ = false

-- The first four characters in capitals, with which both handlers begin
abbrev pub capitals : List ℕ → List ℕ
capitals (a ∷ b ∷ c ∷ d ∷ rest) = toupper a ∷ toupper b ∷ toupper c ∷ toupper d ∷ rest
capitals bytes = bytes
