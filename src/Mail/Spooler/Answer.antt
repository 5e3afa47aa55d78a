-- ===== src/Mail/Spooler/Answer.antt =====
-- QX-mail/spooler.c: the list of mail servers that is made of an answer.
use qnxstuff.Prelude.{
  ℕ, zero, suc, ◌+◌, ◌-◌, ◌*◌, Option, none, some, List, [], ◌∷◌, leb, ◌==◌, if◌then◌else◌, drop,
}
use qnxstuff.Mail.Spooler.Question.{Decoded, named, outside, overrun, unending, decode_name}

-- The number in two bytes, the higher first, from a place on.
abbrev number_in : List ℕ → Option ℕ
number_in (a ∷ b ∷ s) = some (a * 256 + b)
number_in _ = none

-- The place of the next zero byte.
unfoldable pub skip_query : List ℕ → ℕ → Option ℕ
skip_query [] here = none
skip_query (c ∷ s) here = let rest = skip_query s (here + 1) in if c == 0 then some here else rest

-- The place behind the name of a record.
unfoldable pub skip_zone : List ℕ → ℕ → Option ℕ
skip_zone [] here = none
skip_zone (c ∷ s) here =
    let rest = skip_zone s (here + 1) in
    if leb 192 c then some (here + 2) else if c == 0 then some (here + 1) else rest

-- The name in a record, and the list of the records behind it. The length of a record may be less
-- than the two bytes of the preference, and the place then goes back.
abbrev add_target : Decoded (List ℕ) → List (List ℕ) → Decoded (List (List ℕ))
add_target (named rname) targets = named (rname ∷ targets)
add_target outside targets = outside
add_target overrun targets = overrun
add_target unending targets = unending

abbrev pub and_then :
    Decoded (List (List ℕ)) → (List (List ℕ) → Decoded (List (List ℕ))) → Decoded (List (List ℕ))
and_then (named targets) next = next targets
and_then outside next = outside
and_then overrun next = overrun
and_then unending next = unending

-- The loop over the records, from a place on; the newest target comes first.
unfoldable pub read_answers : ℕ → List ℕ → ℕ → ℕ → List (List ℕ) → Decoded (List (List ℕ))
read_answers fuel netbuf zero here targets = named targets
read_answers fuel netbuf (suc ancount) here targets = elim (skip_zone (drop here netbuf) here) [
  | none ↦ outside
  | some behind ↦ elim (number_in (drop (behind + 8) netbuf)) [
    | none ↦ outside
    | some length ↦
        and_then (add_target (decode_name fuel netbuf (behind + 12)) targets)
          (λ targets'. read_answers fuel netbuf ancount (behind + 12 + length - 2) targets')
  ]
]

-- The analysis of an answer to the question for a domain. Without records the domain is the target.
unfoldable pub analyse : ℕ → List ℕ → List ℕ → Decoded (List (List ℕ))
analyse fuel domain netbuf = elim (number_in (drop 6 netbuf)) [
  | none ↦ outside
  | some zero ↦ named (domain ∷ [])
  | some (suc ancount) ↦ elim (skip_query (drop 12 netbuf) 12) [
    | none ↦ outside
    | some here ↦ read_answers fuel netbuf (suc ancount) (here + 5) []
  ]
]
