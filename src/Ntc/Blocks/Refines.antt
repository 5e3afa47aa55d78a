-- ===== src/Ntc/Blocks/Refines.antt =====
-- nfm-ntc/ntc_rm.c: any use of the list of addresses, and what a deletion forgets.
use qnxstuff.Prelude.{
  ℕ, ◌≡◌, refl, sym, subst, true, false, Option, none, some, Bool-cases, inl, inr, List, [], ◌∷◌,
  ◌++◌, arith,
}
use qnxstuff.Ntc.Blocks.{MacCmp, Blocks, no_blocks, same_mac, lookup, add_block, del_block}
use qnxstuff.Ntc.Blocks.Spec.{
  listed, behind, deleted, Use, adds, deletes, asks, is_found, run, answers, add_all,
}
use qnxstuff.Ntc.Blocks.Holds.{Holds, Chain, Found, add-Holds, del-Holds, lookup_lem}

pub none-Holds : Holds no_blocks []
unfolding Chain
none-Holds = record { below = tt; chain = refl }

-- The search in a list that is held.
pub lookup-Holds :
    {b : Blocks} {macs : List MacCmp} (mac : MacCmp)
    → Holds b macs
    → (q : Option ℕ) × (lookup b mac ≡ some q) × (is_found q ≡ listed mac macs)
unfolding Found is_found
lookup-Holds {b} {macs} mac h = let (q, done, found) = lookup_lem mac h in (q, done, go q found)
  where
    go : (q : Option ℕ) → Found mac b.heap macs q → is_found q ≡ listed mac macs
    go none out = sym out
    go (some i) found = sym found.1

run-Holds :
    (us : List Use) (b : Blocks) (macs : List MacCmp)
    → Holds b macs
    → run b us ≡ some (answers macs us)
unfolding run answers
run-Holds [] b macs h = refl
run-Holds (adds mac ∷ us) b macs h = run-Holds us (add_block b mac) (mac ∷ macs) (add-Holds mac h)
run-Holds (deletes mac ∷ us) b macs h =
    let (b', done, held) = del-Holds mac h in
    rw (done, run) (run-Holds us b' (deleted mac macs) held)
run-Holds (asks mac ∷ us) b macs h =
    let (q, done, found) = lookup-Holds mac h in rw (done, run-Holds us b macs h, found, run) refl

-- From the empty list on, any additions, deletions and searches end and follow no pointer to a node
-- that was freed, and a search succeeds exactly if the address is in the sequence specified: an
-- addition puts it in front, and a deletion cuts off the first occurrence together with everything
-- in front of it.
pub run_of_none : (us : List Use) → run no_blocks us ≡ some (answers [] us)
run_of_none us = run-Holds us no_blocks [] none-Holds

add_all-Holds :
    (front : List MacCmp) {b : Blocks} {macs : List MacCmp}
    → Holds b macs
    → Holds (add_all front b) (front ++ macs)
unfolding add_all
add_all-Holds [] h = h
add_all-Holds (mac ∷ front) h = add-Holds mac (add_all-Holds front h)

same_mac_refl : (mac : MacCmp) → same_mac mac mac ≡ true
same_mac_refl mac = ground arith

listed-middle :
    (mac : MacCmp) (front macs : List MacCmp) → listed mac (front ++ (mac ∷ macs)) ≡ true
unfolding listed
listed-middle mac [] macs = rw (same_mac_refl mac) refl
listed-middle mac (a ∷ front) macs = ground (arith, listed-middle mac front macs)

behind-middle :
    (mac : MacCmp) (front macs : List MacCmp)
    → listed mac front ≡ false
    → behind mac (front ++ (mac ∷ macs)) ≡ macs
unfolding behind listed
behind-middle mac [] macs out = rw (same_mac_refl mac) refl
behind-middle mac (a ∷ front) macs out = elim (Bool-cases (same_mac mac a)) [
  | inl hit ↦ ground arith
  | inr miss ↦ rw miss (behind-middle mac front macs (ground arith))
]

deleted-middle :
    (mac : MacCmp) (front macs : List MacCmp)
    → listed mac front ≡ false
    → deleted mac (front ++ (mac ∷ macs)) ≡ macs
unfolding deleted
deleted-middle mac front macs out =
    rw (listed-middle mac front macs, deleted) (behind-middle mac front macs out)

-- If an address is added, then others, all different from it, and then the address is deleted, the
-- command ends, and whatever other address is sought then is found exactly if it was in the list
-- before the first of these additions: the later ones are lost.
pub del_loses :
    {b : Blocks} {macs : List MacCmp} (mac : MacCmp) (front : List MacCmp)
    → Holds b macs
    → listed mac front ≡ false
    → (b' : Blocks) × (del_block (add_all front (add_block b mac)) mac ≡ some b')
      × ((other : MacCmp)
          → (q : Option ℕ) × (lookup b' other ≡ some q) × (is_found q ≡ listed other macs))
del_loses {b} {macs} mac front h out =
    let (b', done, held) = del-Holds mac (add_all-Holds front (add-Holds mac h)) in
    (
      b',
      done,
      λ other. lookup-Holds other (subst (Holds b') (deleted-middle mac front macs out) held),
    )
