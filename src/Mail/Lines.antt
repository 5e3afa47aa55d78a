-- ===== src/Mail/Lines.antt =====
-- QX-mail/general.c: ReadString, which collects one line of what the socket receives.
pub mod Laws
pub mod Stream
use qnxstuff.Prelude.{
  ℕ, zero, suc, ◌+◌, ◌-◌, List, [], ◌∷◌, ◌++◌, ◌==◌, ltb, leb, if◌then◌else◌, length, set, take,
  drop,
}

-- What the socket has in store, as the network delivers it; the end of the list is a timeout or a
-- closed connection, for which `recv` returns no bytes. A read takes what has room.
abbrev pub received : ℕ → List (List ℕ) → List ℕ
received room [] = []
received room (chunk ∷ net) = take room chunk

abbrev pub left_over : ℕ → List (List ℕ) → List (List ℕ)
left_over room [] = []
left_over room (chunk ∷ net) = if leb (length chunk) room then net else drop room chunk ∷ net

-- Bytes written into an array from a place on.
abbrev pub poke : List ℕ → ℕ → List ℕ → List ℕ
poke buffer i bytes = take i buffer ++ (bytes ++ drop (i + length bytes) buffer)

-- Where the loop over received bytes stops: at '\r', or behind them.
unfoldable pub cr_place : List ℕ → ℕ
cr_place [] = 0
cr_place (c ∷ bytes) = let i = cr_place bytes in if c == 13 then 0 else suc i

-- What ReadString returns: a count with the string in the buffer, or -1. The last is not a result
-- of the code: the model's fuel has run out.
pub data Read : Type 0 where
  line : ℕ → List ℕ → List (List ℕ) → Read
  failed : List ℕ → List (List ℕ) → Read
  starved : Read

-- The loop, from a place in the buffer.
unfoldable pub read_from : ℕ → ℕ → ℕ → List ℕ → List (List ℕ) → Read
read_from zero size index buffer net = starved
read_from (suc fuel) size index buffer net =
    let got = received (size - index) net in
    let net' = left_over (size - index) net in
    let buffer' = poke buffer index got in
    let i = cr_place got in
    let rest = read_from fuel size (index + i) buffer' net' in
    if length got == 0
    then failed buffer net'
    else if ltb i (length got)
    then line (index + i + 1) (set buffer' (index + i) 0) net'
    else rest

-- ReadString. Each round fills at least one place, so the size of the buffer bounds the rounds.
unfoldable pub read_string : ℕ → List ℕ → List (List ℕ) → Read
unfolding read_from
read_string size buffer net = read_from (suc size) size 0 buffer net
