-- ===== src/Mail/Lines/Stream.antt =====
-- ReadString by the stream alone: how the network cuts it makes no difference.
use qnxstuff.Prelude.{
  ℕ, zero, suc, ◌+◌, ◌-◌, ◌≤◌, ◌<◌, ◌≡◌, refl, ap, subst, sym, ◌∙◌, ◌⊎◌, inl, inr, List, [], ◌∷◌,
  ◌++◌, ltb, ◌==◌, length, set, take, All, Bool-cases, arith, length-append, length-take,
  length-set, take-suc-set, take-take, append_assoc,
}
use qnxstuff.Mail.Lines.{
  received, left_over, poke, cr_place, Read, line, failed, starved, read_from, read_string,
}
use qnxstuff.Mail.Lines.Laws.{
  concat, IsNonempty, take-append_le, take-append_add, take-poke, length-poke,
  received-append-left_over, left_over-All, cr_place-le, cr_place-append,
}

-- What a read promises of the bytes `all` that are to come, where `before` stands in the buffer.
abbrev pub Reads : ℕ → ℕ → List ℕ → ℕ → List ℕ → Read → Type 0
Reads size index before room all (line n buffer net) =
    let p = cr_place all in
    (p < length all)
    × (index + p < size)
    × (n ≡ index + p + 1)
    × (take n buffer ≡ before ++ (take p all ++ (0 ∷ [])))
    × (length buffer ≡ room)
    × All IsNonempty net
    × (length (concat net) + p + 1 ≤ length all)
Reads size index before room all (failed buffer net) =
    (length all ≤ cr_place all) ⊎ (size ≤ index + cr_place all)
Reads size index before room all starved = ⊥

-- No bytes come only at the end of the stream, or where there is no room.
nothing_received :
    (size index : ℕ) (net : List (List ℕ))
    → All IsNonempty net
    → length (received (size - index) net) ≡ 0
    → (length (concat net) ≤ cr_place (concat net)) ⊎ (size ≤ index + cr_place (concat net))
nothing_received size index [] h e = inl (omega arith)
nothing_received size index (chunk ∷ net) h e =
    inr (omega (arith, length-take (size - index) chunk, h.0))

pub length-received : (room : ℕ) (net : List (List ℕ)) → length (received room net) ≤ room
length-received room [] = omega arith
length-received room (chunk ∷ net) = omega (arith, length-take room chunk)

-- The string is complete in what was received.
module _ (size index : ℕ) (buffer got : List ℕ) (net' : List (List ℕ))
    (fits : index + length got ≤ length buffer) (room : index + length got ≤ size)
    (found : cr_place got < length got) where
  place_here : cr_place (got ++ concat net') ≡ cr_place got
  place_here = ground (arith, cr_place-append got (concat net'))

  text_here :
      take (index + cr_place got) (poke buffer index got)
      ≡ take index buffer ++ take (cr_place got) got
  text_here =
      let k = index + cr_place got in
      let le : index ≤ length buffer = omega arith in
      let e : k ≡ length (take index buffer) + cr_place got =
        omega (arith, length-take index buffer) in
      sym (take-take k (index + length got) (poke buffer index got) (omega arith))
      ∙ (ap (take k) (take-poke buffer index got le)
          ∙ (ap (λ n. take n (take index buffer ++ got)) e
              ∙ take-append_add (cr_place got) (take index buffer) got))

  string_here :
      take (index + cr_place got + 1) (set (poke buffer index got) (index + cr_place got) 0)
      ≡ take index buffer ++ (take (cr_place got) (got ++ concat net') ++ (0 ∷ []))
  string_here =
      let k = index + cr_place got in
      let b' = poke buffer index got in
      let e : k + 1 ≡ suc k = omega arith in
      let lt : k < length b' = omega (arith, length-poke buffer index got fits) in
      let le : cr_place got ≤ length got = omega arith in
      rw (take-append_le (cr_place got) got (concat net') le) (
        ap (λ n. take n (set b' k 0)) e
        ∙ (take-suc-set b' k 0 lt
            ∙ (ap (λ l. l ++ (0 ∷ [])) text_here
                ∙ append_assoc (take index buffer) (take (cr_place got) got) (0 ∷ []))))

  line_here :
      All IsNonempty net'
      → Reads size index (take index buffer) (length buffer) (got ++ concat net') (
          line
            (index + cr_place got + 1)
            (set (poke buffer index got) (index + cr_place got) 0)
            net')
  line_here ne =
      let at = length-append got (concat net') in
      let k = index + cr_place got in
      rw place_here (
        omega (arith, at),
        omega arith,
        refl,
        string_here,
        length-set (poke buffer index got) k 0 ∙ length-poke buffer index got fits,
        ne,
        omega (arith, at),
      )

-- What is promised of the rest of the stream is promised of the whole of it.
Reads-append :
    (r : Read) (size index : ℕ) (before got : List ℕ) (room : ℕ) (all : List ℕ)
    → cr_place got ≡ length got
    → Reads size (index + length got) (before ++ got) room all r
    → Reads size index before room (got ++ all) r
Reads-append (line n b net) size index before got room all e h =
    let p : cr_place (got ++ all) ≡ length got + cr_place all =
      ground (arith, cr_place-append got all) in
    let l = length-append got all in
    let (found, fits, count, text, same, ne, less) = h in
    rw p (
      omega (arith, l),
      omega arith,
      omega arith,
      text
          ∙ (append_assoc before got (take (cr_place all) all ++ (0 ∷ []))
              ∙ ap (λ t. before ++ t)
                  (sym (append_assoc got (take (cr_place all) all) (0 ∷ []))
                    ∙ ap (λ t. t ++ (0 ∷ [])) (sym (take-append_add (cr_place all) got all)))),
      same,
      ne,
      omega (arith, l),
    )
Reads-append (failed b net) size index before got room all e h =
    ground (arith, cr_place-append got all, length-append got all)
Reads-append starved size index before got room all e h = h

read_from-Reads :
    (fuel size index : ℕ) (buffer : List ℕ) (net : List (List ℕ))
    → size - index < fuel
    → index ≤ size
    → size ≤ length buffer
    → All IsNonempty net
    → Reads size index
        (take index buffer)
        (length buffer)
        (concat net)
        (read_from fuel size index buffer net)
unfolding read_from
read_from-Reads zero size index buffer net f i s ne = absurd (omega arith)
read_from-Reads (suc fuel) size index buffer net f i s ne =
    let got = received (size - index) net in
    let net' = left_over (size - index) net in
    let room = length-received (size - index) net in
    elim (Bool-cases (length got == 0)) [
      | inl e ↦ rw e (nothing_received size index net ne (ground arith))
      | inr e ↦ elim (Bool-cases (ltb (cr_place got) (length got))) [
        | inl here ↦
            rw (e, here)
              (subst
                (λ all. Reads size index (take index buffer) (length buffer) all (
                  line (index + cr_place got + 1)
                    (set (poke buffer index got) (index + cr_place got) 0) net'))
                (received-append-left_over (size - index) net)
                (line_here size index buffer got net' (omega (arith, room)) (omega (arith, room))
                  (ground arith) (left_over-All (size - index) net ne)))
        | inr there ↦
            rw (e, there)
              (let end : cr_place got ≡ length got = ground (arith, cr_place-le got) in
                let le : index + length got ≤ length buffer = omega (arith, room) in
                let b' = poke buffer index got in
                let r = read_from fuel size (index + length got) b' net' in
                let ih : Reads size (index + length got) (take (index + length got) b') (length b')
                    (concat net') r =
                  read_from-Reads fuel size (index + length got) b' net' (ground (arith, room))
                    (omega (arith, room)) (omega (arith, length-poke buffer index got le))
                    (left_over-All (size - index) net ne) in
                let ih' : Reads size (index + length got) (take index buffer ++ got) (length buffer)
                    (concat net') r =
                  subst (λ t. Reads size (index + length got) t (length buffer) (concat net') r)
                    (take-poke buffer index got (omega arith))
                    (subst
                      (λ n.
                        Reads size (index + length got) (take (index + length got) b') n
                          (concat net') r)
                      (length-poke buffer index got le) ih) in
                rw end (
                  subst (λ all. Reads size index (take index buffer) (length buffer) all r)
                    (received-append-left_over (size - index) net)
                    (Reads-append r size index (take index buffer) got (length buffer) (concat net')
                      end ih')))
      ]
    ]

-- If the buffer has the room that ReadString is told of, and every delivery of the network has
-- bytes, ReadString ends, and what it returns does not depend on how the stream is cut. If the
-- stream has its first '\r' at a place below the size, it returns one more than the place, the
-- buffer begins with the bytes in front of the '\r' and a NUL and keeps its length, and the stream
-- is shorter by these bytes at least; in every other case it returns -1.
pub read_string_lem :
    (size : ℕ) (buffer : List ℕ) (net : List (List ℕ))
    → size ≤ length buffer
    → All IsNonempty net
    → Reads size 0 [] (length buffer) (concat net) (read_string size buffer net)
unfolding read_string
read_string_lem size buffer net s ne =
    read_from-Reads (suc size) size 0 buffer net (omega arith) (omega arith) s ne
