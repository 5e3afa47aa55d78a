-- ===== src/Dns/Requests/Queue.antt =====
-- QX-dns/main.c: the queue of waiting queries under addition and removal.
use qnxstuff.Prelude.{
  ℕ, zero, suc, ◌≤◌, ◌≡◌, refl, sym, ap, subst, ◌∙◌, inl, inr, false, Option, none, some, List, [],
  ◌∷◌, ◌++◌, append_assoc, arith, length, get_elem?, All, Bool-cases, some_cancel, ◌==◌,
}
use qnxstuff.Dns.Requests.{
  DnsBuffer, Server, modify, with_next, with_prev, find, pass_next, pass_prev, take_out, take_query,
}
use qnxstuff.Dns.Requests.Chain.{
  Seg, Apart, Unique, modify_self, Seg-modify, Seg-split, Seg-join, Seg-lead, Unique-middle,
  last_cases,
}

-- The buffers that wait, first to last, none of them twice.
pub record Waits (s : Server) (is : List ℕ) : Type 0 where
  pub unique : Unique is
  pub chain : Seg s.bufs s.queue_head none is none s.queue_tail

-- The buffer has this reference.
pub Refers : List DnsBuffer → ℕ → ℕ → Type 0
Refers bufs ref i = (b : DnsBuffer) × (get_elem? bufs i ≡ some b) × (b.ref_id ≡ ref)

-- What the search finds: nothing, or the first buffer of the reference.
pub data Found (bufs : List DnsBuffer) (ref : ℕ) (is : List ℕ) : Option ℕ → Type 0 where
  lost : All (λ i. ¬ Refers bufs ref i) is → Found bufs ref is none
  found :
      (xs : List ℕ) (j : ℕ) (ys : List ℕ)
      → is ≡ xs ++ (j ∷ ys)
      → All (λ i. ¬ Refers bufs ref i) xs
      → Refers bufs ref j
      → Found bufs ref is (some j)

find-Found :
    (is : List ℕ) (fuel ref : ℕ) (bufs : List DnsBuffer) (p before last : Option ℕ)
    → length is ≤ fuel
    → Seg bufs p before is none last
    → (o : Option ℕ) × (find fuel ref bufs p ≡ some o) × Found bufs ref is o
unfolding find Seg Refers
find-Found [] fuel ref bufs none before last le s = (none, refl, lost tt)
find-Found [] fuel ref bufs (some i) before last le (e, _) = absurd (cc)
find-Found (i ∷ is) fuel ref bufs none before last le (b, at, _, _, _) = absurd (cc)
find-Found (i ∷ is) zero ref bufs (some k) before last le s = absurd (omega arith)
find-Found (i ∷ is) (suc fuel) ref bufs (some k) before last le (b, at, here, back, rest) =
    let (o, done, how) = find-Found is fuel ref bufs b.next (some i) last (omega arith) rest in
    let here' : get_elem? bufs k ≡ some b = ap (get_elem? bufs) (some_cancel at) ∙ here in
    elim (Bool-cases (b.ref_id == ref)) [
      | inl same ↦ (
        some k,
        rw (here', same, find) refl,
        subst (λ n. Found bufs ref (n ∷ is) (some k)) (some_cancel at)
            (found [] k is refl tt (b, here', ground arith)),
      )
      | inr other ↦ (o, rw (here', other, find) done, go (not_this b here other) o how)
    ]
  where
    not_this :
        (b : DnsBuffer)
        → get_elem? bufs i ≡ some b
        → (b.ref_id == ref) ≡ false
        → ¬ Refers bufs ref i
    not_this b here other (c, at, e) =
        let same : c ≡ b = some_cancel (sym at ∙ here) in
        let e' : b.ref_id ≡ ref = sym (ap (λ x. x.ref_id) same) ∙ e in ground (arith, e', other)

    go : ¬ Refers bufs ref i → (o : Option ℕ) → Found bufs ref is o → Found bufs ref (i ∷ is) o
    go n o (lost all) = lost (n, all)
    go n o (found xs j ys e all r) = found (i ∷ xs) j ys (ap (λ l. i ∷ l) e) (n, all) r

Apart-front : (k : ℕ) (xs ys : List ℕ) → Apart k (xs ++ ys) → Apart k xs
Apart-front k [] ys a = tt
Apart-front k (x ∷ xs) ys (n, a) = (n, Apart-front k xs ys a)

-- The queue without a buffer, as far as the write in front of it goes,
Led : Server → List ℕ → Option ℕ → Option ℕ → ℕ → List ℕ → Type 0
Led s xs m next j ys =
    Seg (pass_next s m next).bufs (pass_next s m next).queue_head none xs next m
    × Seg (pass_next s m next).bufs next (some j) ys none s.queue_tail
    × ((pass_next s m next).queue_tail ≡ s.queue_tail)

pass_next-Led :
    (s : Server) (xs : List ℕ) (r m next : Option ℕ) (j : ℕ) (ys : List ℕ)
    → Unique (xs ++ (j ∷ ys))
    → Seg s.bufs s.queue_head none xs r m
    → Seg s.bufs next (some j) ys none s.queue_tail
    → Led s xs m next j ys
unfolding Led pass_next Seg
pass_next-Led s xs r m next j ys unique front rest = elim (last_cases xs) [
  | inl e ↦
      let (_, first) = subst (λ l. Seg s.bufs s.queue_head none l r m) e front in
      subst (λ l. Led s l m next j ys) (sym e)
        (subst (λ x. Led s [] x next j ys) (sym first) ((refl, refl), rest, refl))
  | inr (ws, k, e) ↦
      let front' = subst (λ l. Seg s.bufs s.queue_head none l r m) e front in
      let unique' = subst (λ l. Unique (l ++ (j ∷ ys))) e unique in
      let (left, (_, right)) =
        Unique-middle ws k (j ∷ ys) (subst Unique (append_assoc ws (k ∷ []) (j ∷ ys)) unique') in
      let (last, led) = Seg-lead ws s.bufs s.queue_head none r next m k left front' in
      subst (λ l. Led s l m next j ys) (sym e)
        (subst (λ x. Led s (ws ++ (k ∷ [])) x next j ys) (sym last)
          (
            led,
            Seg-modify ys s.bufs next (some j) none s.queue_tail k (with_next next) right rest,
            refl,
          ))
]

-- and as a whole.
pass_prev-Seg :
    (s : Server) (xs : List ℕ) (m next : Option ℕ) (j : ℕ) (ys : List ℕ)
    → Unique (xs ++ (j ∷ ys))
    → Seg s.bufs s.queue_head none xs next m
    → Seg s.bufs next (some j) ys none s.queue_tail
    → Seg
        (pass_prev s next m).bufs
        (pass_prev s next m).queue_head
        none
        (xs ++ ys)
        none
        (pass_prev s next m).queue_tail
unfolding pass_prev Seg
pass_prev-Seg s xs m none j [] unique front (e, e') =
    Seg-join xs [] s.bufs s.queue_head none none m none m front (refl, refl)
pass_prev-Seg s xs m (some k) j [] unique front (e, e') = absurd (cc)
pass_prev-Seg s xs m none j (y ∷ ys) unique front (b, at, _, _, _) = absurd (cc)
pass_prev-Seg s xs m (some k) j (y ∷ ys) unique front (b, at, here, back, rest) =
    let same : k ≡ y = some_cancel at in
    let f = with_prev m in
    let (left, right) =
      Unique-middle (xs ++ (j ∷ [])) y ys
        (subst Unique (sym (append_assoc xs (j ∷ []) (y ∷ ys))) unique) in
    let apart = Apart-front y xs (j ∷ []) left in
    let here' : get_elem? s.bufs k ≡ some b = ap (get_elem? s.bufs) same ∙ here in
    Seg-join xs (y ∷ ys) (modify s.bufs k f) s.queue_head none (some k) m none s.queue_tail
      (Seg-modify xs s.bufs s.queue_head none (some k) m k f
        (subst (λ n. Apart n xs) (sym same) apart) front)
      (
        f b,
        at,
        subst (λ n. get_elem? (modify s.bufs k f) n ≡ some (f b)) same
            (modify_self s.bufs k f b here'),
        refl,
        Seg-modify ys s.bufs b.next (some y) none s.queue_tail k f
            (subst (λ n. Apart n ys) (sym same) right) rest,
      )

-- What becomes of the queue when the query of a reference is sought.
pub data Taken (s : Server) (is : List ℕ) (ref : ℕ) : Option ℕ → Server → Type 0 where
  nobody : All (λ i. ¬ Refers s.bufs ref i) is → Taken s is ref none s
  taken :
      (xs : List ℕ) (j : ℕ) (ys : List ℕ) (s' : Server)
      → is ≡ xs ++ (j ∷ ys)
      → All (λ i. ¬ Refers s.bufs ref i) xs
      → Refers s.bufs ref j
      → Waits s' (xs ++ ys)
      → Taken s is ref (some j) s'

Apart-without :
    (k : ℕ) (xs : List ℕ) (j : ℕ) (ys : List ℕ) → Apart k (xs ++ (j ∷ ys)) → Apart k (xs ++ ys)
Apart-without k [] j ys (n, a) = a
Apart-without k (x ∷ xs) j ys (n, a) = (n, Apart-without k xs j ys a)

Unique-without : (xs : List ℕ) (j : ℕ) (ys : List ℕ) → Unique (xs ++ (j ∷ ys)) → Unique (xs ++ ys)
unfolding Unique
Unique-without [] j ys (a, u) = u
Unique-without (x ∷ xs) j ys (a, u) = (Apart-without x xs j ys a, Unique-without xs j ys u)

take_out-Waits :
    (s : Server) (xs : List ℕ) (j : ℕ) (ys : List ℕ) (b : DnsBuffer)
    → Waits s (xs ++ (j ∷ ys))
    → get_elem? s.bufs j ≡ some b
    → Waits (take_out s b) (xs ++ ys)
unfolding take_out Seg Led
take_out-Waits s xs j ys b w at =
    let (r, m, front, (c, here, at', back, rest)) =
      Seg-split xs (j ∷ ys) s.bufs s.queue_head none none s.queue_tail w.chain in
    let same : c ≡ b = some_cancel (sym at' ∙ at) in
    let back' : b.prev ≡ m = sym (ap (λ x. x.prev) same) ∙ back in
    let rest' = subst (λ x. Seg s.bufs x.next (some j) ys none s.queue_tail) same rest in
    let (led, kept, tail) = pass_next-Led s xs r m b.next j ys w.unique front rest' in
    let s' = pass_next s m b.next in
    let kept' = subst (λ x. Seg s'.bufs b.next (some j) ys none x) (sym tail) kept in
    record {
      unique = Unique-without xs j ys w.unique;
      chain =
          subst
            (λ x.
              Seg (pass_prev (pass_next s x b.next) b.next x).bufs
                (pass_prev (pass_next s x b.next) b.next x).queue_head none (xs ++ ys) none
                (pass_prev (pass_next s x b.next) b.next x).queue_tail)
            (sym back') (pass_prev-Seg s' xs m b.next j ys w.unique led kept');
    }

-- In a queue of linked buffers, with as much fuel as buffers wait, the search for the query of a
-- response ends: it finds the first buffer of the reference, and the queue then is the same without
-- that buffer, in the same order and linked in both directions; or none has the reference, and
-- nothing changes.
pub take-Taken :
    (fuel : ℕ) (s : Server) (is : List ℕ) (ref : ℕ)
    → Waits s is
    → length is ≤ fuel
    → (o : Option ℕ) × (s' : Server) × (take_query fuel s ref ≡ some (o, s')) × Taken s is ref o s'
unfolding take_query Refers
take-Taken fuel s is ref w le =
    let (o, done, how) = find-Found is fuel ref s.bufs s.queue_head none s.queue_tail le w.chain in
    go o done how
  where
    go :
        (o : Option ℕ)
        → find fuel ref s.bufs s.queue_head ≡ some o
        → Found s.bufs ref is o
        → (o : Option ℕ) × (s' : Server) × (take_query fuel s ref ≡ some (o, s'))
          × Taken s is ref o s'
    go o done (lost all) = (none, s, rw (done, take_query) refl, nobody all)
    go o done (found xs j ys e all (b, at, eq)) = (
      some j,
      take_out s b,
      rw (done, at, take_query) refl,
      taken xs j ys (take_out s b) e all (b, at, eq)
          (take_out-Waits s xs j ys b (subst (Waits s) e w) at),
    )
