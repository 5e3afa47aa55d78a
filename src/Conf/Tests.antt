-- ===== src/Conf/Tests.antt =====
-- Runs of the reader on short lines, and the theorems at these lines.
use qnxstuff.Prelude.{ℕ, ◌+◌, ◌≡◌, refl, ◌≢◌, some, [], ◌∷◌, arith}
use qnxstuff.Conf.Tokens.{Conf, get_conf_token, get_conf_string}
use qnxstuff.Conf.Tokens.Words.{after, get_conf_token_lem, stale_token}

-- " ab c", of which nothing was read
abbrev fresh : Conf
fresh = record { string = b' ' ∷ b'a' ∷ b'b' ∷ b' ' ∷ b'c' ∷ 0 ∷ []; token = 0; line = 1 }

a_no_comment : ◌≢◌ {A = ℕ} b'a' b'#'
a_no_comment e = absurd (cc)

get_conf_token_lem_example :
    get_conf_token fresh ≡ (some (b'a' ∷ b'b' ∷ []), after fresh (0 + 1 + 2))
get_conf_token_lem_example =
    get_conf_token_lem fresh (b' ' ∷ []) b'a' (b'b' ∷ []) b' ' (b'c' ∷ 0 ∷ []) refl (refl, tt)
      (refl, (refl, tt)) refl a_no_comment (omega arith)

-- The line "xyz a" was read before.
abbrev used : Conf
used = record { string = b'x' ∷ b'y' ∷ b'z' ∷ 0 ∷ b'a' ∷ 0 ∷ 0 ∷ []; token = 6; line = 1 }

x_no_comment : ◌≢◌ {A = ℕ} b'x' b'#'
x_no_comment e = absurd (cc)

stale_word :
    (c' : Conf) × (get_conf_string ((b'x' ∷ b'x' ∷ b'x' ∷ []) ∷ []) used
      ≡ (some (b'x' ∷ b'x' ∷ b'x' ∷ []), (c', [])))
    × (c'' : Conf) × (get_conf_token c' ≡ (some (b'a' ∷ []), c''))
stale_word =
    stale_token used b'x' (b'x' ∷ b'x' ∷ []) b'a' [] 0 (0 ∷ []) (refl, (refl, (refl, tt)))
      x_no_comment refl (refl, tt) a_no_comment refl (omega arith)
