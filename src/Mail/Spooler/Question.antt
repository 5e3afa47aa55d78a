-- ===== src/Mail/Spooler/Question.antt =====
-- QX-mail/spooler.c: the question for the mail servers of a domain, and the names in the answer.
use qnxstuff.Prelude.{
  ℕ, zero, suc, ◌+◌, ◌-◌, ◌*◌, ◌%◌, List, [], ◌∷◌, ◌++◌, ltb, leb, ◌==◌, if◌then◌else◌, length,
  take, drop,
}

-- The loop that goes back from the end of the domain: it puts the number of bytes passed since the
-- last dot, an unsigned character, in the place of every dot.
unfoldable pub labels : List ℕ → List ℕ × ℕ
labels [] = ([], 0)
labels (c ∷ s) =
    let (out, j) = labels s in if c == b'.' then (j ∷ out, 0) else (c ∷ out, (j + 1) % 256)

-- The name in the question: the number of bytes in front of the first dot takes the place of '@'.
unfoldable pub question_name : List ℕ → List ℕ
question_name domain = let (out, j) = labels domain in j ∷ (out ++ (0 ∷ []))

-- The header, with the identifier 2, the flag for recursion and one question
abbrev pub header : List ℕ
header = 0 ∷ 2 ∷ 1 ∷ 0 ∷ 0 ∷ 1 ∷ 0 ∷ 0 ∷ 0 ∷ 0 ∷ 0 ∷ 0 ∷ []

-- The question; the type is that of mail servers, the class that of the Internet.
unfoldable pub question : List ℕ → List ℕ
question domain = header ++ (question_name domain ++ (0 ∷ 15 ∷ 0 ∷ 1 ∷ []))

-- What the reading of an answer comes to. The code reads behind its buffer of 2048 bytes (outside),
-- writes behind the 256 bytes of rname (overrun), or the model's fuel has run out (unending).
pub data Decoded {ℓ} (A : Type ℓ) : Type ℓ where
  named : A → Decoded A
  outside overrun unending : Decoded A

-- The loop that collects the labels of a name, each with a dot, from a place in the buffer on: the
-- bytes that stand there. A byte whose two highest bits are set begins a pointer.
unfoldable pub decode : ℕ → List ℕ → List ℕ → List ℕ → Decoded (List ℕ)
decode zero netbuf here rname = unending
decode (suc fuel) netbuf [] rname = outside
decode (suc fuel) netbuf (k ∷ []) rname = if k == 0 then named rname else outside
decode (suc fuel) netbuf (k ∷ c ∷ here) rname =
    let there = decode fuel netbuf (drop ((k * 256 + c) % 16384) netbuf) rname in
    let rname' = rname ++ (take k (c ∷ here) ++ (b'.' ∷ [])) in
    let behind = decode fuel netbuf (drop k (c ∷ here)) rname' in
    if leb 192 k
    then if ltb (length rname) 256 then there else named rname
    else if k == 0
    then named rname
    else if ltb 256 (length rname + k + 1)
    then overrun
    else if ltb (length (c ∷ here)) k
    then outside
    else if ltb (length rname') 256
    then behind
    else named rname'

-- The last dot is cut off.
abbrev pub without_dot : Decoded (List ℕ) → Decoded (List ℕ)
without_dot (named rname) = named (take (length rname - 1) rname)
without_dot other = other

unfoldable pub decode_name : ℕ → List ℕ → ℕ → Decoded (List ℕ)
decode_name fuel netbuf i = without_dot (decode fuel netbuf (drop i netbuf) [])
