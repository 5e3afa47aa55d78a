-- ===== src/Mail/Spooler/Decoding.antt =====
-- QX-mail/spooler.c: what the decoding of the names in an answer gives.
use qnxstuff.Prelude.{
  ℕ, zero, suc, ◌+◌, ◌-◌, ◌*◌, ◌/◌, ◌%◌, ◌<◌, ◌≤◌, true, false, List, [], ◌∷◌, ◌++◌, ltb, leb, ◌==◌,
  length, sym, take, drop, All, ◌≡◌, inl, inr, refl, subst, ap, ◌∙◌, arith, append_assoc,
  append-nil, length-append,
}
use qnxstuff.Mail.Lines.Laws.{take-append}
use qnxstuff.Mail.Spooler.Question.{
  question_name, decode, decode_name, named, unending, without_dot,
}
use qnxstuff.Mail.Spooler.Names.{Label, join, dotted, Encodes, wire, question_name-wire}

drop_label : (l s : List ℕ) → drop (length l) (l ++ s) ≡ s
drop_label [] s = refl
drop_label (c ∷ l) s = drop_label l s

decode_none : (netbuf here rname : List ℕ) → decode zero netbuf here rname ≡ unending
unfolding decode
decode_none netbuf here rname = refl

decode_end :
    (fuel : ℕ) (netbuf s rname : List ℕ) → decode (suc fuel) netbuf (0 ∷ s) rname ≡ named rname
unfolding decode
decode_end fuel netbuf [] rname = refl
decode_end fuel netbuf (c ∷ s) rname = refl

decode_label :
    (fuel : ℕ) (netbuf l s rname : List ℕ)
    → 1 ≤ length l
    → length l ≤ 191
    → length rname + length l + 1 < 256
    → decode (suc fuel) netbuf (length l ∷ (l ++ s)) rname
      ≡ decode fuel netbuf s (rname ++ (l ++ (b'.' ∷ [])))
unfolding decode
decode_label fuel netbuf [] s rname p q b = absurd (omega arith)
decode_label fuel netbuf (c ∷ l) s rname p q b =
    let plain : leb 192 (suc (length l)) ≡ false = ground arith in
    let some_bytes : (suc (length l) == 0) ≡ false = ground arith in
    let room : ltb 256 (length rname + suc (length l) + 1) ≡ false = ground arith in
    let there : ltb (suc (length (l ++ s))) (suc (length l)) ≡ false =
      ground (arith, length-append l s) in
    let again : ltb (length (rname ++ ((c ∷ l) ++ (b'.' ∷ [])))) 256 ≡ true =
      ground (arith, length-append rname ((c ∷ l) ++ (b'.' ∷ [])), length-append l (b'.' ∷ [])) in
    rw (plain, some_bytes, room, there, take-append l s, drop_label l s, again) refl

decode_pointer :
    (fuel : ℕ) (netbuf : List ℕ) (k c : ℕ) (s rname : List ℕ)
    → 192 ≤ k
    → length rname < 256
    → decode (suc fuel) netbuf (k ∷ c ∷ s) rname
      ≡ decode fuel netbuf (drop ((k * 256 + c) % 16384) netbuf) rname
unfolding decode
decode_pointer fuel netbuf k c s rname p b =
    let pointer : leb 192 k ≡ true = ground arith in
    let again : ltb (length rname) 256 ≡ true = ground arith in rw (pointer, again) refl

-- What decode collects of a name that the packet has at a place.
pub decode_lem :
    (n fuel : ℕ) (netbuf here : List ℕ) (ls : List (List ℕ)) (rname : List ℕ)
    → Encodes n netbuf here ls
    → n ≤ fuel
    → length rname + length (dotted ls) < 256
    → decode fuel netbuf here rname ≡ named (rname ++ dotted ls)
decode_lem zero fuel netbuf here ls rname h f b = absurd (omega arith)
decode_lem (suc n) zero netbuf here ls rname h f b = absurd (omega arith)
decode_lem (suc n) (suc fuel) netbuf here ls rname (inl (s, e, e')) f b =
    rw (e, e', append-nil rname) (decode_end fuel netbuf s rname)
decode_lem (suc n) (suc fuel) netbuf here ls rname (inr (inl (l, s, more, e, e', p, q, h))) f b =
    let whole : length (dotted ls) ≡ length l + 1 + length (dotted more) =
      subst (λ x. length (dotted x) ≡ length l + 1 + length (dotted more)) (sym e')
        (omega
          (arith, length-append l (b'.' ∷ []), length-append (l ++ (b'.' ∷ [])) (dotted more))) in
    let later =
      decode_lem n fuel netbuf s more (rname ++ (l ++ (b'.' ∷ []))) h (omega arith) (
        omega
          (arith, length-append rname (l ++ (b'.' ∷ [])), length-append l (b'.' ∷ []), whole)) in
    rw
      (
        e,
        e',
        decode_label fuel netbuf l s rname p q (omega arith),
        later,
        append_assoc rname (l ++ (b'.' ∷ [])) (dotted more),
      )
      refl
decode_lem (suc n) (suc fuel) netbuf here ls rname (inr (inr (k, c, s, e, p, h))) f b =
    rw (e, decode_pointer fuel netbuf k c s rname p (omega arith))
      (decode_lem n fuel netbuf (drop ((k * 256 + c) % 16384) netbuf) ls rname h (omega arith) b)

wire-Encodes :
    (netbuf post : List ℕ) (ls : List (List ℕ))
    → All Label ls
    → Encodes (suc (length ls)) netbuf (wire ls ++ post) ls
wire-Encodes netbuf post [] h = inl (post, refl, refl)
wire-Encodes netbuf post (l ∷ ls) ((h, p, q), t) = inr (
    inl (
      l,
      wire ls ++ post,
      ls,
      ap (λ x. length l ∷ x) (append_assoc l (wire ls) post),
      refl,
      p,
      q,
      wire-Encodes netbuf post ls t,
    ))

dotted-join : (l : List ℕ) (ls : List (List ℕ)) → dotted (l ∷ ls) ≡ join l ls ++ (b'.' ∷ [])
dotted-join l [] = append-nil (l ++ (b'.' ∷ []))
dotted-join l (m ∷ ls) =
    rw
      (
        dotted-join m ls,
        append_assoc l (b'.' ∷ []) (join m ls ++ (b'.' ∷ [])),
        append_assoc l (b'.' ∷ join m ls) (b'.' ∷ []),
      )
      refl

dot_cut : (d : List ℕ) → take (length (d ++ (b'.' ∷ [])) - 1) (d ++ (b'.' ∷ [])) ≡ d
dot_cut d =
    let e : length (d ++ (b'.' ∷ [])) - 1 ≡ length d = omega (arith, length-append d (b'.' ∷ [])) in
    rw e (take-append d (b'.' ∷ []))

-- If the bytes at a place of the answer are a name of labels, with pointers in their places and within
-- as many steps as there is fuel, and it has fewer than 255 bytes with the dots between, then the
-- decoding gives the labels with dots between.
pub decode_name_lem :
    (n fuel : ℕ) (netbuf : List ℕ) (i : ℕ) (l : List ℕ) (ls : List (List ℕ))
    → Encodes n netbuf (drop i netbuf) (l ∷ ls)
    → n ≤ fuel
    → length (join l ls) < 255
    → decode_name fuel netbuf i ≡ named (join l ls)
unfolding decode_name
decode_name_lem n fuel netbuf i l ls h f b =
    let whole : length (dotted (l ∷ ls)) ≡ length (join l ls) + 1 =
      rw (dotted-join l ls) (length-append (join l ls) (b'.' ∷ [])) in
    rw (decode_lem n fuel netbuf (drop i netbuf) (l ∷ ls) [] h f (omega arith), dotted-join l ls)
      (ap named (dot_cut (join l ls)))

-- The name that the question for a domain has, wherever it stands in a packet, is decoded to the
-- domain, if each label of it has from 1 to 191 bytes and no dot, and the domain fewer than 255, with
-- as much fuel as labels and one more.
pub decode_name-question_name :
    (fuel : ℕ) (pre post : List ℕ) (l : List ℕ) (ls : List (List ℕ))
    → All Label (l ∷ ls)
    → length (join l ls) < 255
    → length ls + 2 ≤ fuel
    → decode_name fuel (pre ++ (question_name (join l ls) ++ post)) (length pre) ≡ named (join l ls)
decode_name-question_name fuel pre post l ls h b f =
    let netbuf = pre ++ (question_name (join l ls) ++ post) in
    let there : drop (length pre) netbuf ≡ wire (l ∷ ls) ++ post =
      drop_label pre (question_name (join l ls) ++ post)
      ∙ ap (λ x. x ++ post) (question_name-wire l ls h) in
    decode_name_lem (suc (length (l ∷ ls))) fuel netbuf (length pre) l ls
      (subst (λ x. Encodes (suc (length (l ∷ ls))) netbuf x (l ∷ ls)) (sym there)
        (wire-Encodes netbuf post (l ∷ ls) h))
      (omega arith) b

-- If at a place of the answer stands a pointer to this place, the decoding does not end.
pub decode_name_unending :
    (fuel : ℕ) (netbuf : List ℕ) (i : ℕ) (s : List ℕ)
    → i < 16384
    → drop i netbuf ≡ (192 + i / 256) ∷ (i % 256) ∷ s
    → decode_name fuel netbuf i ≡ unending
unfolding decode_name
decode_name_unending fuel netbuf i s lt e = ap without_dot (go fuel)
  where
    go : (f : ℕ) → decode f netbuf (drop i netbuf) [] ≡ unending
    go zero = decode_none netbuf (drop i netbuf) []
    go (suc f) =
        let same : ((192 + i / 256) * 256 + i % 256) % 16384 ≡ i = omega arith in
        subst (λ x. decode (suc f) netbuf x [] ≡ unending) (sym e)
          (decode_pointer f netbuf (192 + i / 256) (i % 256) s [] (omega arith) (omega arith)
            ∙ rw same (go f))
