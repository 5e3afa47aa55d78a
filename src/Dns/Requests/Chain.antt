-- ===== src/Dns/Requests/Chain.antt =====
-- QX-dns/main.c: the queue as a sequence of buffers, linked in both directions.
use qnxstuff.Prelude.{
  ℕ, zero, suc, ◌≡◌, refl, sym, ap, subst, ◌∙◌, ◌≢◌, Option, some, List, [], ◌∷◌, ◌++◌, get_elem?,
  All, some_cancel, ◌⊎◌, inl, inr,
}
use qnxstuff.Dns.Requests.{DnsBuffer, modify, with_next}

-- The buffers of a sequence from the pointer p on: the first links back to `before`, the last is
-- `last` and links to q.
unfoldable pub Seg : List DnsBuffer → Option ℕ → Option ℕ → List ℕ → Option ℕ → Option ℕ → Type 0
Seg bufs p before [] q last = (p ≡ q) × (last ≡ before)
Seg bufs p before (i ∷ is) q last =
    (b : DnsBuffer) × (p ≡ some i)
    × (get_elem? bufs i ≡ some b)
    × (b.prev ≡ before)
    × Seg bufs b.next (some i) is q last

abbrev pub Apart : ℕ → List ℕ → Type 0
Apart i is = All (λ j. i ≢ j) is

unfoldable pub Unique : List ℕ → Type 0
Unique [] = Unit
Unique (i ∷ is) = Apart i is × Unique is

pub modify_self :
    (bufs : List DnsBuffer) (i : ℕ) (f : DnsBuffer → DnsBuffer) (b : DnsBuffer)
    → get_elem? bufs i ≡ some b
    → get_elem? (modify bufs i f) i ≡ some (f b)
modify_self [] i f b at = absurd (cc)
modify_self (x ∷ bufs) zero f b at = ap (λ y. some (f y)) (some_cancel at)
modify_self (x ∷ bufs) (suc i) f b at = modify_self bufs i f b at

pub modify_ne :
    (bufs : List DnsBuffer) (i j : ℕ) (f : DnsBuffer → DnsBuffer)
    → i ≢ j
    → get_elem? (modify bufs i f) j ≡ get_elem? bufs j
modify_ne [] i j f n = refl
modify_ne (x ∷ bufs) zero zero f n = absurd (n refl)
modify_ne (x ∷ bufs) zero (suc j) f n = refl
modify_ne (x ∷ bufs) (suc i) zero f n = refl
modify_ne (x ∷ bufs) (suc i) (suc j) f n = modify_ne bufs i j f (λ e. n (ap suc e))

-- A write elsewhere.
pub Seg-modify :
    (is : List ℕ) (bufs : List DnsBuffer) (p before q last : Option ℕ) (k : ℕ)
    (f : DnsBuffer → DnsBuffer)
    → Apart k is
    → Seg bufs p before is q last
    → Seg (modify bufs k f) p before is q last
unfolding Seg
Seg-modify [] bufs p before q last k f apart s = s
Seg-modify (i ∷ is) bufs p before q last k f (n, apart) (b, at, here, back, rest) = (
  b,
  at,
  modify_ne bufs k i f n ∙ here,
  back,
  Seg-modify is bufs b.next (some i) q last k f apart rest,
)

-- The sequence is cut in front of one of its buffers.
pub Seg-split :
    (xs ys : List ℕ) (bufs : List DnsBuffer) (p before q last : Option ℕ)
    → Seg bufs p before (xs ++ ys) q last
    → (r : Option ℕ) × (m : Option ℕ) × Seg bufs p before xs r m × Seg bufs r m ys q last
unfolding Seg
Seg-split [] ys bufs p before q last s = (p, before, (refl, refl), s)
Seg-split (i ∷ xs) ys bufs p before q last (b, at, here, back, rest) =
    let (r, m, front, tail) = Seg-split xs ys bufs b.next (some i) q last rest in
    (r, m, (b, at, here, back, front), tail)

pub Seg-join :
    (xs ys : List ℕ) (bufs : List DnsBuffer) (p before r m q last : Option ℕ)
    → Seg bufs p before xs r m
    → Seg bufs r m ys q last
    → Seg bufs p before (xs ++ ys) q last
unfolding Seg
Seg-join [] ys bufs p before r m q last (e, e') s =
    subst (λ x. Seg bufs x before ys q last) (sym e) (subst (λ x. Seg bufs r x ys q last) e' s)
Seg-join (i ∷ xs) ys bufs p before r m q last (b, at, here, back, rest) s =
    (b, at, here, back, Seg-join xs ys bufs b.next (some i) r m q last rest s)

-- The last buffer of a sequence is led elsewhere.
pub Seg-lead :
    (ws : List ℕ) (bufs : List DnsBuffer) (p before q q' last : Option ℕ) (k : ℕ)
    → Apart k ws
    → Seg bufs p before (ws ++ (k ∷ [])) q last
    → (last ≡ some k) × Seg (modify bufs k (with_next q')) p before (ws ++ (k ∷ [])) q' (some k)
unfolding Seg
Seg-lead ws bufs p before q q' last k apart s =
    let (r, m, front, (b, at, here, back, (e, e'))) =
      Seg-split ws (k ∷ []) bufs p before q last s in
    let f = with_next q' in
    (
      e',
      Seg-join ws (k ∷ []) (modify bufs k f) p before r m q' (some k)
          (Seg-modify ws bufs p before r m k f apart front)
          (f b, at, modify_self bufs k f b here, back, (refl, refl)),
    )

pub Apart-append : (k : ℕ) (xs ys : List ℕ) → Apart k (xs ++ ys) → Apart k xs × Apart k ys
Apart-append k [] ys a = (tt, a)
Apart-append k (x ∷ xs) ys (n, a) = let (b, c) = Apart-append k xs ys a in ((n, b), c)

-- An element of a sequence without repetition stands nowhere else.
pub Unique-middle :
    (xs : List ℕ) (k : ℕ) (ys : List ℕ) → Unique (xs ++ (k ∷ ys)) → Apart k xs × Apart k ys
unfolding Unique
Unique-middle [] k ys (a, u) = (tt, a)
Unique-middle (x ∷ xs) k ys (a, u) =
    let (b, c) = Unique-middle xs k ys u in
    let (_, (n, _)) = Apart-append x xs (k ∷ ys) a in ((λ e. n (sym e), b), c)

-- A sequence is empty or has a last element.
pub last_cases : (xs : List ℕ) → (xs ≡ []) ⊎ ((ws : List ℕ) × (k : ℕ) × (xs ≡ ws ++ (k ∷ [])))
last_cases [] = inl refl
last_cases (x ∷ xs) = elim (last_cases xs) [
  | inl e ↦ inr ([], x, ap (λ l. x ∷ l) e)
  | inr (ws, k, e) ↦ inr (x ∷ ws, k, ap (λ l. x ∷ l) e)
]
