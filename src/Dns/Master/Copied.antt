-- ===== src/Dns/Master/Copied.antt =====
-- QX-dns/master.c: what rcpy_string makes of names of labels.
use qnxstuff.Prelude.{
  ℕ, suc, ◌+◌, ◌%◌, ◌<◌, ◌≤◌, Bool, true, false, List, [], ◌∷◌, ◌++◌, ◌==◌, length, any, All, ◌≡◌,
  refl, sym, ap, subst, ◌∙◌, arith, append-nil, append_assoc,
}
use qnxstuff.Dns.Master.{length_byte, measured, rcpy_string}
use qnxstuff.Dns.Master.Compare.{Plain}

abbrev pub Label : List ℕ → Type 0
Label l = (any (λ c. c == b'.') l ≡ false) × All Plain l × (1 ≤ length l) × (length l ≤ 191)

-- Labels with a dot behind each, and with dots between.
abbrev pub dotted : List (List ℕ) → List ℕ
dotted [] = []
dotted (l ∷ ls) = l ++ (b'.' ∷ dotted ls)

abbrev pub join : List ℕ → List (List ℕ) → List ℕ
join l [] = l
join l (m ∷ ls) = l ++ (b'.' ∷ join m ls)

-- Labels in a packet, each behind its length.
abbrev pub pieces : List (List ℕ) → List ℕ
pieces [] = []
pieces (l ∷ ls) = length l ∷ (l ++ pieces ls)

measured_lem :
    (l s out : List ℕ) (e : Bool)
    → any (λ c. c == b'.') l ≡ false
    → length l < 256
    → measured s ≡ (out, (0, e))
    → measured (l ++ s) ≡ (l ++ out, (length l, e))
unfolding measured
measured_lem [] s out e h b eq = eq
measured_lem (c ∷ l) s out e h b eq =
    let here : (c == b'.') ≡ false = ground (arith, h) in
    let counted : (length l + 1) % 256 ≡ suc (length l) = omega arith in
    rw (measured_lem l s out e (ground (arith, h)) (omega arith) eq, here, counted) refl

dot_lem :
    (s out : List ℕ) (k : ℕ) (e : Bool)
    → measured s ≡ (out, (k, e))
    → measured (b'.' ∷ s) ≡ (length_byte e k ∷ out, (0, false))
unfolding measured
dot_lem s out k e eq = rw eq refl

length_byte_pos : (e : Bool) (k : ℕ) → 1 ≤ k → length_byte e k ≡ k
length_byte_pos true k h = ground arith
length_byte_pos false k h = refl

rcpy_of :
    (s out : List ℕ) (k : ℕ) (e : Bool)
    → measured s ≡ (out, (k, e))
    → rcpy_string s ≡ length_byte e k ∷ (out ++ (0 ∷ []))
unfolding rcpy_string
rcpy_of s out k e eq = rw eq refl

-- A name, of the first label's length, that leaves these bytes from the length on.
abbrev Measured : List ℕ → List ℕ → List ℕ → Type 0
Measured s l bytes =
    (out : List ℕ) × (e : Bool) × (measured s ≡ (out, (length l, e))) × (length l ∷ out ≡ bytes)

rcpy-Measured :
    (s l bytes : List ℕ) → 1 ≤ length l → Measured s l bytes → rcpy_string s ≡ bytes ++ (0 ∷ [])
rcpy-Measured s l bytes p (out, e, eq, b) =
    rcpy_of s out (length l) e eq
    ∙ (ap (λ k. k ∷ (out ++ (0 ∷ []))) (length_byte_pos e (length l) p) ∙ ap (λ x. x ++ (0 ∷ [])) b)

join-Measured :
    (l : List ℕ) (ls : List (List ℕ))
    → All Label (l ∷ ls)
    → Measured (join l ls) l (pieces (l ∷ ls))
unfolding measured
join-Measured l [] ((h, p, a, b), t) = (
  l,
  true,
  subst (λ x. measured x ≡ (x, (length l, true))) (append-nil l)
      (measured_lem l [] [] true h (omega arith) refl),
  ap (λ x. length l ∷ x) (sym (append-nil l)),
)
join-Measured l (m ∷ ls) ((h, p, a, b), ((h', p', a', b'), t)) =
    let (out, e, eq, w) = join-Measured m ls ((h', p', a', b'), t) in
    let dot = dot_lem (join m ls) out (length m) e eq in
    (
      l ++ (length_byte e (length m) ∷ out),
      false,
      measured_lem l (b'.' ∷ join m ls) (length_byte e (length m) ∷ out) false h (omega arith) dot,
      ap (λ x. length l ∷ (l ++ x)) (rw (length_byte_pos e (length m) a') w),
    )

dotted-Measured :
    (l : List ℕ) (ls : List (List ℕ))
    → All Label (l ∷ ls)
    → Measured (dotted (l ∷ ls)) l (pieces (l ∷ ls) ++ (0xC0 ∷ []))
unfolding measured
dotted-Measured l [] ((h, p, a, b), t) = (
  l ++ (0xC0 ∷ []),
  false,
  measured_lem l (b'.' ∷ []) (0xC0 ∷ []) false h (omega arith) refl,
  ap (λ x. length l ∷ (x ++ (0xC0 ∷ []))) (sym (append-nil l)),
)
dotted-Measured l (m ∷ ls) ((h, p, a, b), ((h', p', a', b'), t)) =
    let (out, e, eq, w) = dotted-Measured m ls ((h', p', a', b'), t) in
    let dot = dot_lem (dotted (m ∷ ls)) out (length m) e eq in
    (
      l ++ (length_byte e (length m) ∷ out),
      false,
      measured_lem l (b'.' ∷ dotted (m ∷ ls)) (length_byte e (length m) ∷ out) false h (omega arith)
          dot,
      ap (λ x. length l ∷ x)
          (ap (λ x. l ++ x) (rw (length_byte_pos e (length m) a') w)
            ∙ sym (append_assoc l (pieces (m ∷ ls)) (0xC0 ∷ []))),
    )

pub rcpy_dotted :
    (l : List ℕ) (ls : List (List ℕ))
    → All Label (l ∷ ls)
    → rcpy_string (dotted (l ∷ ls)) ≡ (pieces (l ∷ ls) ++ (0xC0 ∷ [])) ++ (0 ∷ [])
rcpy_dotted l ls ((h, p, a, b), t) =
    rcpy-Measured (dotted (l ∷ ls)) l (pieces (l ∷ ls) ++ (0xC0 ∷ [])) a
      (dotted-Measured l ls ((h, p, a, b), t))

pub rcpy_join :
    (l : List ℕ) (ls : List (List ℕ))
    → All Label (l ∷ ls)
    → rcpy_string (join l ls) ≡ pieces (l ∷ ls) ++ (0 ∷ [])
rcpy_join l ls ((h, p, a, b), t) =
    rcpy-Measured (join l ls) l (pieces (l ∷ ls)) a (join-Measured l ls ((h, p, a, b), t))

All-append : (xs ys : List ℕ) → All Plain xs → All Plain ys → All Plain (xs ++ ys)
All-append [] ys h k = k
All-append (x ∷ xs) ys (p, h) k = (p, All-append xs ys h k)

pub pieces-Plain : (ls : List (List ℕ)) → All Label ls → All Plain (pieces ls)
pieces-Plain [] h = tt
pieces-Plain (l ∷ ls) ((h, p, a, b), t) =
    ((omega arith, omega arith), All-append l (pieces ls) p (pieces-Plain ls t))
