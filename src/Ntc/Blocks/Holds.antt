-- ===== src/Ntc/Blocks/Holds.antt =====
-- nfm-ntc/ntc_rm.c: the linked nodes hold the list of addresses that the commands specify.
use qnxstuff.Prelude.{
  ℕ, zero, suc, ◌<◌, ◌≤◌, ◌≡◌, refl, sym, ◌∙◌, ap, ◌≢◌, true, false, Option, none, some, List, [],
  ◌∷◌, ◌++◌, arith, length, get_or, set, Bool-cases, inl, inr, length-append, subst, some_cancel,
  length-set,
}
use qnxstuff.Ntc.Blocks.{
  MacCmp, BlockNode, Blocks, same_mac, load, find, lookup, add_block, skip_back, skip_forth, freed,
  unlink, del_block,
}
use qnxstuff.Ntc.Blocks.Spec.{listed, behind, deleted}

-- A pointer to an allocation before the i-th, or to none.
abbrev pub Below : ℕ → Option ℕ → Type 0
Below i none = Unit
Below i (some j) = j < i

-- The nodes from a pointer on: each links to an older one, and none links back.
unfoldable pub Chain : List (Option BlockNode) → Option ℕ → List MacCmp → Type 0
Chain heap p [] = p ≡ none
Chain heap p (a ∷ macs) =
    (i : ℕ) × (node : BlockNode) × (p ≡ some i)
    × (load heap i ≡ some node)
    × (node.block_addr ≡ a)
    × (node.prev ≡ none)
    × Below i node.next
    × Chain heap node.next macs

pub record Holds (b : Blocks) (macs : List MacCmp) : Type 0 where
  pub below : Below (length b.heap) b.blocklist
  pub chain : Chain b.heap b.blocklist macs

module _ {ℓ} {A : Type ℓ} where
  load_inside : (h : List (Option A)) (i : ℕ) (a : A) → get_or h i none ≡ some a → i < length h
  load_inside [] i a e = absurd (cc)
  load_inside (x ∷ h) zero a e = omega arith
  load_inside (x ∷ h) (suc i) a e = omega (arith, load_inside h i a e)

  load-append :
      (h k : List (Option A)) (i : ℕ) (a : A)
      → get_or h i none ≡ some a
      → get_or (h ++ k) i none ≡ some a
  load-append [] k i a e = absurd (cc)
  load-append (x ∷ h) k zero a e = e
  load-append (x ∷ h) k (suc i) a e = load-append h k i a e

  load-append_last :
      (h : List (Option A)) (x : A) → get_or (h ++ (some x ∷ [])) (length h) none ≡ some x
  load-append_last [] x = refl
  load-append_last (y ∷ h) x = load-append_last h x

  load-set_ne :
      (h : List (Option A)) (i j : ℕ) (v : Option A)
      → i ≢ j
      → get_or (set h i v) j none ≡ get_or h j none
  load-set_ne [] i j v n = refl
  load-set_ne (x ∷ h) zero zero v n = absurd (n refl)
  load-set_ne (x ∷ h) zero (suc j) v n = refl
  load-set_ne (x ∷ h) (suc i) zero v n = refl
  load-set_ne (x ∷ h) (suc i) (suc j) v n = load-set_ne h i j v (λ e. n (ap suc e))

  set_same : (h : List (Option A)) (i : ℕ) (a : A) → get_or h i none ≡ some a → set h i (some a) ≡ h
  set_same [] i a e = refl
  set_same (x ∷ h) zero a e = cc
  set_same (x ∷ h) (suc i) a e = ap (λ l. x ∷ l) (set_same h i a e)

Below-trans : (i j : ℕ) (p : Option ℕ) → Below i p → i ≤ j → Below j p
Below-trans i j none h le = tt
Below-trans i j (some k) h le = omega arith

Chain-append :
    (macs : List MacCmp) (heap more : List (Option BlockNode)) (p : Option ℕ)
    → Chain heap p macs
    → Chain (heap ++ more) p macs
unfolding Chain
Chain-append [] heap more p c = c
Chain-append (a ∷ macs) heap more p (i, node, at, here, addr, back, older, rest) = (
  i,
  node,
  at,
  load-append heap more i node here,
  addr,
  back,
  older,
  Chain-append macs heap more node.next rest,
)

-- A write at or above the pointer's allocation is not seen.
Chain-set :
    (macs : List MacCmp) (heap : List (Option BlockNode)) (p : Option ℕ) (j : ℕ)
    (v : Option BlockNode)
    → Below j p
    → Chain heap p macs
    → Chain (set heap j v) p macs
unfolding Chain
Chain-set [] heap p j v low c = c
Chain-set (a ∷ macs) heap p j v low (i, node, at, here, addr, back, older, rest) =
    let lt : i < j = subst (λ q. Below j q) at low in
    (
      i,
      node,
      at,
      load-set_ne heap j i v (λ e. omega arith) ∙ here,
      addr,
      back,
      older,
      Chain-set macs heap node.next j v (Below-trans i j node.next older (omega arith)) rest,
    )

-- What a search finds.
unfoldable pub Found : MacCmp → List (Option BlockNode) → List MacCmp → Option ℕ → Type 0
Found mac heap macs none = listed mac macs ≡ false
Found mac heap macs (some i) =
    (node : BlockNode) × (listed mac macs ≡ true)
    × (load heap i ≡ some node)
    × (node.prev ≡ none)
    × (i < length heap)
    × Below i node.next
    × Chain heap node.next (behind mac macs)

behind-Found :
    (mac : MacCmp) (heap : List (Option BlockNode)) (a : MacCmp) (macs : List MacCmp) (q : Option ℕ)
    → same_mac mac a ≡ false
    → Found mac heap macs q
    → Found mac heap (a ∷ macs) q
unfolding Found listed behind
behind-Found mac heap a macs none out found = rw (out, found) refl
behind-Found mac heap a macs (some i) out (node, hit, here, back, inside, older, rest) =
    (node, rw (out, hit) refl, here, back, inside, older, rw out rest)

find_lem :
    (fuel : ℕ) (mac : MacCmp) (heap : List (Option BlockNode)) (macs : List MacCmp) (p : Option ℕ)
    → Below fuel p
    → Chain heap p macs
    → (q : Option ℕ) × (find fuel mac heap p ≡ some q) × Found mac heap macs q
unfolding find Chain Found listed behind
find_lem fuel mac heap [] none low c = (none, refl, refl)
find_lem fuel mac heap [] (some i) low c = absurd (cc)
find_lem fuel mac heap (a ∷ macs) none low (i, node, at, _, _, _, _, _) = absurd (cc)
find_lem zero mac heap (a ∷ macs) (some k) low c = absurd (omega arith)
find_lem (suc fuel) mac heap (a ∷ macs) (some k) low (i, node, at, here, addr, back, older, rest) =
    let same : k ≡ i = some_cancel at in
    let (q, done, found) =
      find_lem fuel mac heap macs node.next (Below-trans i fuel node.next older (omega arith))
        rest in
    let here' : load heap k ≡ some node = ap (load heap) same ∙ here in
    let test = ap (same_mac mac) addr in
    elim (Bool-cases (same_mac mac a)) [
      | inl hit ↦ (
        some k,
        rw (here', test ∙ hit, find) refl,
        (node, rw hit refl, here', back, load_inside heap k node here', rw same older, rw hit rest),
      )
      | inr out ↦ (q, rw (here', test ∙ out, find) done, behind-Found mac heap a macs q out found)
    ]

pub lookup_lem :
    {b : Blocks} {macs : List MacCmp} (mac : MacCmp)
    → Holds b macs
    → (q : Option ℕ) × (lookup b mac ≡ some q) × Found mac b.heap macs q
unfolding lookup
lookup_lem {b} {macs} mac h = find_lem (length b.heap) mac b.heap macs b.blocklist h.below h.chain

pub add-Holds :
    {b : Blocks} {macs : List MacCmp} (mac : MacCmp)
    → Holds b macs
    → Holds (add_block b mac) (mac ∷ macs)
unfolding add_block Chain
add-Holds {b} {macs} mac h =
    let node : BlockNode = record { block_addr = mac; next = b.blocklist; prev = none } in
    record {
      below = omega (arith, length-append b.heap (some node ∷ []));
      chain = (
        length b.heap,
        node,
        refl,
        load-append_last b.heap node,
        refl,
        refl,
        h.below,
        Chain-append macs b.heap (some node ∷ []) b.blocklist h.chain,
      );
    }

-- No node links back, so that the write to the next one changes nothing.
skip_back_lem :
    (macs : List MacCmp) (heap : List (Option BlockNode)) (p : Option ℕ)
    → Chain heap p macs
    → skip_back heap p none ≡ some heap
unfolding skip_back Chain
skip_back_lem macs heap none c = refl
skip_back_lem [] heap (some k) c = absurd (cc)
skip_back_lem (a ∷ macs) heap (some k) (i, after, e, here, addr, back, older, rest) =
    let here' : load heap k ≡ some after = ap (load heap) (some_cancel e) ∙ here in
    let unchanged = ap (λ x. record after { prev = x }) (sym back) in
    rw (here', skip_back) (rw unchanged (ap some (set_same heap k after here')))

unlink_lem :
    (b : Blocks) (mac : MacCmp) (macs : List MacCmp) (i : ℕ)
    → Found mac b.heap macs (some i)
    → (b' : Blocks) × (unlink b i ≡ some b') × Holds b' (behind mac macs)
unfolding unlink skip_forth Found
unlink_lem b mac macs i (node, hit, here, back, inside, older, rest) = (
  freed (record b { blocklist = node.next }) i,
  rw (here, back, skip_back_lem (behind mac macs) b.heap node.next rest, unlink) (rw back refl),
  record {
    below =
        Below-trans i (length (set b.heap i none)) node.next older
          (omega (arith, length-set b.heap i none, inside));
    chain = Chain-set (behind mac macs) b.heap node.next i none older rest;
  },
)

deleted_found :
    (mac : MacCmp) (macs : List MacCmp)
    → listed mac macs ≡ true
    → deleted mac macs ≡ behind mac macs
unfolding deleted
deleted_found mac macs hit = rw hit refl

pub del-Holds :
    {b : Blocks} {macs : List MacCmp} (mac : MacCmp)
    → Holds b macs
    → (b' : Blocks) × (del_block b mac ≡ some b') × Holds b' (deleted mac macs)
unfolding del_block deleted Found
del-Holds {b} {macs} mac h = let (q, done, found) = lookup_lem mac h in go q done found
  where
    go :
        (q : Option ℕ)
        → lookup b mac ≡ some q
        → Found mac b.heap macs q
        → (b' : Blocks) × (del_block b mac ≡ some b') × Holds b' (deleted mac macs)
    go none done found = (b, rw (done, del_block) refl, rw found h)
    go (some i) done found =
        let (b', gone, holds) = unlink_lem b mac macs i found in
        (
          b',
          rw (done, del_block) gone,
          subst (Holds b') (sym (deleted_found mac macs found.1)) holds,
        )
