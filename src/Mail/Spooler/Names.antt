-- ===== src/Mail/Spooler/Names.antt =====
-- QX-mail/spooler.c: names of labels, their forms in packets, and the name in the question.
use qnxstuff.Prelude.{
  ℕ, zero, suc, ◌+◌, ◌*◌, ◌%◌, ◌<◌, ◌≤◌, false, List, [], ◌∷◌, ◌++◌, ◌==◌, length, drop, any, All,
  ◌≡◌, ◌⊎◌, refl, subst, ap, ◌∙◌, arith, append_assoc, append-nil,
}
use qnxstuff.Mail.Spooler.Question.{labels, question_name}

-- A label of a name, and the names that have it.
abbrev pub Label : List ℕ → Type 0
Label l = (any (λ c. c == b'.') l ≡ false) × (1 ≤ length l) × (length l ≤ 191)

-- The labels of a name with dots between, and with a dot behind each.
abbrev pub join : List ℕ → List (List ℕ) → List ℕ
join l [] = l
join l (m ∷ ls) = l ++ (b'.' ∷ join m ls)

abbrev pub dotted : List (List ℕ) → List ℕ
dotted [] = []
dotted (l ∷ ls) = (l ++ (b'.' ∷ [])) ++ dotted ls

-- The name that a packet has at a place, in a number of steps: the end, a label in front of a name,
-- or a pointer to one.
abbrev pub Encodes : ℕ → List ℕ → List ℕ → List (List ℕ) → Type 0
Encodes zero netbuf here ls = zero ≡ 1
Encodes (suc n) netbuf here ls =
    ((s : List ℕ) × (here ≡ 0 ∷ s) × (ls ≡ []))
    ⊎ ((l s : List ℕ) × (more : List (List ℕ)) × (here ≡ length l ∷ (l ++ s))
        × (ls ≡ l ∷ more)
        × (1 ≤ length l)
        × (length l ≤ 191)
        × Encodes n netbuf s more)
    ⊎ ((k c : ℕ) × (s : List ℕ) × (here ≡ k ∷ c ∷ s)
        × (192 ≤ k)
        × Encodes n netbuf (drop ((k * 256 + c) % 16384) netbuf) ls)

-- The wire form of a name
abbrev pub wire : List (List ℕ) → List ℕ
wire [] = 0 ∷ []
wire (l ∷ ls) = length l ∷ (l ++ wire ls)

-- In front of a dot or of the end, labels keeps a label and counts its bytes.
labels_lem :
    (l s out : List ℕ)
    → any (λ c. c == b'.') l ≡ false
    → length l < 256
    → labels s ≡ (out, 0)
    → labels (l ++ s) ≡ (l ++ out, length l)
unfolding labels
labels_lem [] s out h b e = e
labels_lem (c ∷ l) s out h b e =
    let here : (c == b'.') ≡ false = ground (arith, h) in
    let counted : (length l + 1) % 256 ≡ suc (length l) = omega arith in
    rw (labels_lem l s out (ground (arith, h)) (omega arith) e, here, counted) refl

question_name_of :
    (d out : List ℕ) (j : ℕ) → labels d ≡ (out, j) → question_name d ≡ j ∷ (out ++ (0 ∷ []))
unfolding question_name
question_name_of d out j e = rw e refl

dot_lem : (s out : List ℕ) (j : ℕ) → labels s ≡ (out, j) → labels (b'.' ∷ s) ≡ (j ∷ out, 0)
unfolding labels
dot_lem s out j e = rw e refl

abbrev Labelled : List ℕ → List (List ℕ) → Type 0
Labelled l ls =
    (out : List ℕ) × (labels (join l ls) ≡ (out, length l))
    × (length l ∷ (out ++ (0 ∷ [])) ≡ wire (l ∷ ls))

join-Labelled : (l : List ℕ) (ls : List (List ℕ)) → All Label (l ∷ ls) → Labelled l ls
unfolding labels
join-Labelled l [] ((h, p, q), t) = (
  l,
  subst (λ x. labels x ≡ (x, length l)) (append-nil l) (labels_lem l [] [] h (omega arith) refl),
  refl,
)
join-Labelled l (m ∷ ls) ((h, p, q), t) =
    let (out, e, w) = join-Labelled m ls t in
    (
      l ++ (length m ∷ out),
      labels_lem l (b'.' ∷ join m ls) (length m ∷ out) h (omega arith)
          (dot_lem (join m ls) out (length m) e),
      ap (λ x. length l ∷ x) (rw (append_assoc l (length m ∷ out) (0 ∷ [])) (ap (λ x. l ++ x) w)),
    )

-- The name in the question is the wire form of the domain.
pub question_name-wire :
    (l : List ℕ) (ls : List (List ℕ))
    → All Label (l ∷ ls)
    → question_name (join l ls) ≡ wire (l ∷ ls)
question_name-wire l ls h =
    let (out, e, w) = join-Labelled l ls h in question_name_of (join l ls) out (length l) e ∙ w
