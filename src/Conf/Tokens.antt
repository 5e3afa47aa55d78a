-- ===== src/Conf/Tokens.antt =====
-- getconf/GetConf.c: the lines of a configuration file and the tokens in them.
pub mod Words
use qnxstuff.Prelude.{
  ℕ, zero, suc, ◌+◌, ◌-◌, Bool, ◌||◌, Option, none, some, List, [], ◌∷◌, ◌++◌, ◌==◌, if◌then◌else◌,
  length, set, take, drop,
}
use qnxstuff.Prelude.Memory.{byte_at}

-- ConfStringLen - 1, and ConfComment
abbrev pub last_place : ℕ
last_place = 4095

abbrev pub conf_comment : ℕ
conf_comment = b'#'

-- `ConfString`, `ConfToken` and `GetConf_ln`
pub record Conf : Type 0 where
  pub string : List ℕ
  pub token : ℕ
  pub line : ℕ

-- A space or a tab
abbrev pub is_blank : ℕ → Bool
is_blank c = c == b' ' || c == 9

-- What ends a token: these, the end of the string and that of the line
abbrev pub is_end : ℕ → Bool
is_end c = c == b' ' || c == 9 || c == 0 || c == 10

-- How far the loop over blanks goes, in so many steps at most.
unfoldable pub skip : ℕ → List ℕ → ℕ
skip zero bytes = 0
skip (suc n) [] = 0
skip (suc n) (c ∷ bytes) = let k = skip n bytes in if is_blank c then suc k else 0

-- How far the loop to the end of the token goes.
unfoldable pub word_length : ℕ → List ℕ → ℕ
word_length zero bytes = 0
word_length (suc n) [] = 0
word_length (suc n) (c ∷ bytes) = let k = word_length n bytes in if is_end c then 0 else suc k

-- The token that starts at a place is ended by a NUL.
abbrev pub cut_token : Conf → ℕ → ℕ → Option (List ℕ) × Conf
cut_token c start n = (
  some (take n (drop start c.string)),
  record c { string = set c.string (start + n) 0; token = start + n + 1 },
)

-- GetConf_token
unfoldable pub get_conf_token : Conf → Option (List ℕ) × Conf
unfolding skip word_length
get_conf_token c =
    let start = c.token + skip (last_place - c.token) (drop c.token c.string) in
    let rest = drop start c.string in
    let first = byte_at rest 0 in
    if is_end first
    then (none, record c { token = start })
    else if first == conf_comment
    then (none, record c { token = start })
    else cut_token c start (word_length (last_place - start) rest)

-- `fgets` puts a line and a NUL over what the string held.
abbrev pub with_line : Conf → List ℕ → Conf
with_line c l = record {
  string = l ++ (0 ∷ drop (length l + 1) c.string);
  token = 0;
  line = c.line + 1;
}

-- A line with a token is the one returned; else the lines after it are tried.
abbrev pub line_result :
    List (List ℕ)
    → Option (List ℕ) × (Conf × List (List ℕ))
    → Option (List ℕ) × Conf
    → Option (List ℕ) × (Conf × List (List ℕ))
line_result ls rest (none, c) = rest
line_result ls rest (some word, c) = (some word, (c, ls))

-- GetConf_string, over the lines that `fgets` will return.
unfoldable pub get_conf_string : List (List ℕ) → Conf → Option (List ℕ) × (Conf × List (List ℕ))
unfolding get_conf_token
get_conf_string [] c = (none, (record c { line = c.line + 1 }, []))
get_conf_string (l ∷ ls) c =
    let found = get_conf_token (with_line c l) in line_result ls (get_conf_string ls found.1) found
