-- ===== src/Mail/Tests.antt =====
-- Runs of the handlers of QX-mail on short connections, and the theorems at these.
use qnxstuff.Prelude.{ℕ, ◌+◌, ◌*◌, ◌%◌, ◌<◌, ◌≡◌, refl, List, [], ◌∷◌, ◌++◌, length, arith}
use qnxstuff.Mail.Lines.{read_string}
use qnxstuff.Mail.Lines.Laws.{concat}
use qnxstuff.Mail.Lines.Stream.{Reads, read_string_lem}
use qnxstuff.Mail.Md5.{get_md5, zeros, padded, store32, word}
use qnxstuff.Mail.Md5.Padding.{padded_lem}
use qnxstuff.Mail.Text.{codes}

-- The digest of the empty message
md5_of_empty : get_md5 [] ≡ codes "d41d8cd98f00b204e9800998ecf8427e"
unfolding get_md5
md5_of_empty = refl

-- A message that fills a block exactly with its padding
md5_of_digits :
    get_md5
      (codes "12345678901234567890123456789012345678901234567890123456789012345678901234567890")
    ≡ codes "57edf4a22be3c955ac49da2e2107b67a"
unfolding get_md5
md5_of_digits = refl

padded_lem_example :
    (k : ℕ) × (k < 64)
    × ((length (codes "abc") + k + 9) % 64 ≡ 0)
    × (padded (codes "abc")
        ≡ codes "abc"
          ++ (0x80 ∷ (zeros k ++ (store32 (word (length (codes "abc") * 8)) ++ zeros 4))))
padded_lem_example = padded_lem (codes "abc")

-- "NOOP\r\n" in two deliveries
abbrev cut_noop : List (List ℕ)
cut_noop = codes "NO" ∷ (codes "OP" ++ (13 ∷ 10 ∷ [])) ∷ []

read_string_lem_example : Reads 15 0 [] 16 (concat cut_noop) (read_string 15 (zeros 16) cut_noop)
read_string_lem_example = read_string_lem 15 (zeros 16) cut_noop (omega arith) (omega arith)
