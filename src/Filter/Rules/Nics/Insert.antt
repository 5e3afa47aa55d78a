-- ===== src/Filter/Rules/Nics/Insert.antt =====
-- QX-billing/qxc_rules.c: the loop of `rule_add_nic` makes a tree of one more rule.
use qnxstuff.Prelude.{
  ℕ, zero, suc, ◌+◌, ◌≤◌, ◌<◌, ◌≡◌, refl, sym, ap, ◌∙◌, ◌≢◌, ◌⊎◌, inl, inr, none, some, List, [],
  ◌∷◌, ◌++◌, map, arith, get_elem?, set, take, length, Option-cases, length-set, get_elem?-set_self,
  get_elem?-set_ne, get_elem?-lt, subst, map-set, map-set_same, take-suc-set, length-map,
  some_cancel,
}
use native.Mathlib.Decide.{ℕ_discrete}
use qnxstuff.Filter.Rules.Nics.{RuleNics, NicNode, toward, linked, link_in, fresh_node}
use qnxstuff.Filter.Rules.Nics.Tree.{Reach, here, step, IsTree, rules_of}

toward-linked_self : (n : NicNode) (mac : List ℕ) (k : ℕ) → toward (linked n mac k) mac ≡ some k
toward-linked_self n mac k = ground arith

toward-linked_keep :
    (n : NicNode) (mac mac' : List ℕ) (k j : ℕ)
    → toward n mac ≡ none
    → toward n mac' ≡ some j
    → toward (linked n mac k) mac' ≡ some j
toward-linked_keep n mac mac' k j e e' = ground arith

toward-linked_cases :
    (n : NicNode) (mac mac' : List ℕ) (k j : ℕ)
    → toward (linked n mac k) mac' ≡ some j
    → (j ≡ k) ⊎ (toward n mac' ≡ some j)
toward-linked_cases n mac mac' k j e = ground arith

rule-linked : (n : NicNode) (mac : List ℕ) (k : ℕ) → (linked n mac k).rule ≡ n.rule
rule-linked n mac k = ground arith

fresh-ends :
    {rule : RuleNics} (m : NicNode) (mac : List ℕ) (j : ℕ)
    → m ≡ fresh_node rule
    → toward m mac ≡ some j
    → ⊥
fresh-ends m mac j same to = ground arith

-- The nodes below `count` keep their rules and their links.
record Extends (buf b : List NicNode) (count : ℕ) : Type 0 where
  keeps :
      (i : ℕ) (n : NicNode)
      → i < count
      → get_elem? buf i ≡ some n
      → (n' : NicNode) × (get_elem? b i ≡ some n')
        × (n'.rule ≡ n.rule)
        × ((mac : List ℕ) (j : ℕ) → toward n mac ≡ some j → toward n' mac ≡ some j)

Reach-Extends :
    {buf b : List NicNode} {count k : ℕ} {mac : List ℕ}
    → IsTree buf count
    → Extends buf b count
    → {i : ℕ} → Reach buf mac k i
    → i < count
    → Reach b mac k i
Reach-Extends t x here lt = here
Reach-Extends {mac = mac} t x {i} (step n j at to r) lt =
    let (n', at', same, links) = x.keeps i n lt at in
    let (below, in_count) = t.ahead i j n mac lt at to in
    step n' j at' (links mac j to) (Reach-Extends t x r in_count)

Reach_snoc :
    {buf : List NicNode} {mac : List ℕ} {k : ℕ} (n : NicNode) (j : ℕ)
    → get_elem? buf k ≡ some n
    → toward n mac ≡ some j
    → {i : ℕ} → Reach buf mac k i
    → Reach buf mac j i
Reach_snoc n j at to here = step n j at to here
Reach_snoc n j at to (step m l at' to' r) = step m l at' to' (Reach_snoc n j at to r)

-- The copy of the new rule behind the tree leaves it a tree.
set-IsTree :
    {buf : List NicNode} {count : ℕ} (x : NicNode)
    → IsTree buf count
    → IsTree (set buf count x) count
set-IsTree {buf} {count} x t = record {
  sized = let s = t.sized in omega (arith, length-set buf count x);
  ahead = λ i j n mac lt at to. t.ahead i j n mac lt (sym (same i lt) ∙ at) to;
  reached =
      λ k n lt at. Reach-Extends t keep (t.reached k n lt (sym (same k lt) ∙ at)) (omega arith);
}
  where
    same : (i : ℕ) → i < count → get_elem? (set buf count x) i ≡ get_elem? buf i
    same i lt = get_elem?-set_ne buf count i x (omega arith)

    keep : Extends buf (set buf count x) count
    keep = record { keeps = λ i n lt at. (n, same i lt ∙ at, refl, λ mac j to. to) }

-- The loop ends at a node of the tree whose link toward the new address is free, and links it.
link_in_lem :
    (fuel nic : ℕ) {buf : List NicNode} {count : ℕ} (mac : List ℕ) (k : ℕ)
    → IsTree buf count
    → nic < count
    → count ≤ nic + fuel
    → (i : ℕ) × (n : NicNode) × (i < count)
      × (get_elem? buf i ≡ some n)
      × (toward n mac ≡ none)
      × (link_in fuel buf mac k nic ≡ some (set buf i (linked n mac k)))
      × Reach buf mac i nic
unfolding link_in
link_in_lem zero nic mac k t lt enough = absurd (omega arith)
link_in_lem (suc fuel) nic {buf} mac k t lt enough =
    let sized = t.sized in
    let (n, at) = get_elem?-lt buf nic (omega arith) in
    elim (Option-cases (toward n mac)) [
      | inl free ↦ (nic, n, lt, at, free, rw (at, link_in) (rw free), here)
      | inr (j, to) ↦
          let (below, in_count) = t.ahead nic j n mac lt at to in
          let (i, m, i_in, at', free, done, r) =
            link_in_lem fuel j mac k t in_count (omega arith) in
          (i, m, i_in, at', free, rw (at, link_in) (rw to done), step n j at to r)
    ]

-- Linking node `count` in where the way for its address ends makes a tree of one more node.
module _ {buf : List NicNode} {count : ℕ} (rule : RuleNics) (t : IsTree buf count)
    (room : count < length buf) (new : get_elem? buf count ≡ some (fresh_node rule)) (i : ℕ)
    (n : NicNode) (i_in : i < count) (at : get_elem? buf i ≡ some n)
    (free : toward n rule.mac ≡ none) (way : Reach buf rule.mac i 0) where
  linked_buf : List NicNode
  linked_buf = set buf i (linked n rule.mac count)

  at_i : get_elem? linked_buf i ≡ some (linked n rule.mac count)
  unfolding linked_buf
  at_i = get_elem?-set_self buf i (linked n rule.mac count) (omega arith)

  elsewhere : (j : ℕ) → i ≢ j → get_elem? linked_buf j ≡ get_elem? buf j
  unfolding linked_buf
  elsewhere j ne = get_elem?-set_ne buf i j (linked n rule.mac count) ne

  linked-Extends : Extends buf linked_buf count
  linked-Extends = record {
    keeps = λ j m lt at_j. elim (ℕ_discrete i j) [
      | yes e ↦
          let same : n ≡ m = cc in
          (
            linked n rule.mac count,
            subst (λ l. get_elem? linked_buf l ≡ some (linked n rule.mac count)) e at_i,
            rule-linked n rule.mac count ∙ ap (λ (x : NicNode). x.rule) same,
            λ mac l to.
                toward-linked_keep n rule.mac mac count l free (ap (λ x. toward x mac) same ∙ to),
          )
      | no ne ↦ (m, elsewhere j ne ∙ at_j, refl, λ mac l to. to)
    ];
  }

  linked-ahead :
      (a j : ℕ) (m : NicNode) (mac : List ℕ)
      → a < suc count
      → get_elem? linked_buf a ≡ some m
      → toward m mac ≡ some j
      → (a < j) × (j < suc count)
  linked-ahead a j m mac lt at_a to = elim (ℕ_discrete i a) [
    | yes e ↦
        let same : m ≡ linked n rule.mac count = some_cancel (
          sym at_a ∙ subst (λ l. get_elem? linked_buf l ≡ some (linked n rule.mac count)) e at_i) in
        elim (toward-linked_cases n rule.mac mac count j (ap (λ x. toward x mac) (sym same) ∙ to)) [
          | inl new_link ↦ omega arith
          | inr old_link ↦ let old = t.ahead i j n mac i_in at old_link in omega arith
        ]
    | no ne ↦ elim (ℕ_discrete count a) [
      | yes e ↦
          let same : m ≡ fresh_node rule = some_cancel (
            sym at_a
            ∙ elsewhere a ne
            ∙ subst (λ l. get_elem? buf l ≡ some (fresh_node rule)) e new) in
          absurd (fresh-ends m mac j same to)
      | no older ↦
          let old = t.ahead a j m mac (omega arith) (sym (elsewhere a ne) ∙ at_a) to in omega arith
    ]
  ]

  linked-reached :
      (k : ℕ) (m : NicNode)
      → k < suc count
      → get_elem? linked_buf k ≡ some m
      → Reach linked_buf m.rule.mac k 0
  linked-reached k m lt at_k = elim (ℕ_discrete count k) [
    | yes e ↦
        let new_k : get_elem? linked_buf k ≡ some (fresh_node rule) =
          elsewhere k (omega arith) ∙ subst (λ l. get_elem? buf l ≡ some (fresh_node rule)) e new in
        let mine : rule.mac ≡ m.rule.mac =
          ap (λ (x : NicNode). x.rule.mac) (some_cancel (sym new_k ∙ at_k)) in
        let arrived : Reach linked_buf rule.mac count 0 =
          Reach_snoc (linked n rule.mac count) count at_i (toward-linked_self n rule.mac count)
            (Reach-Extends t linked-Extends way (omega arith)) in
        subst (λ l. Reach linked_buf m.rule.mac l 0) e
          (subst (λ a. Reach linked_buf a count 0) mine arrived)
    | no older ↦
        let (x, at_x) = get_elem?-lt buf k (omega arith) in
        let (x', at', same, links) = linked-Extends.keeps k x (omega arith) at_x in
        let mine : x.rule.mac ≡ m.rule.mac =
          ap (λ (r : RuleNics). r.mac) (sym same)
          ∙ ap (λ (y : NicNode). y.rule.mac) (some_cancel (sym at' ∙ at_k)) in
        subst (λ a. Reach linked_buf a k 0) mine
          (Reach-Extends t linked-Extends (t.reached k x (omega arith) at_x) (omega arith))
  ]

  linked-sized : suc count ≤ length linked_buf
  unfolding linked_buf
  linked-sized = omega (arith, length-set buf i (linked n rule.mac count))

  linked-IsTree : IsTree linked_buf (suc count)
  linked-IsTree = record { sized = linked-sized; ahead = linked-ahead; reached = linked-reached }

-- One turn of `rule_add_nic` on an array with a tree of `count` rules: from the copy of the rule
-- to the links.
pub add_lem :
    {buf : List NicNode} {count : ℕ} (rule : RuleNics)
    → IsTree buf count
    → 0 < count
    → count < length buf
    → (b : List NicNode) × (link_in count (set buf count (fresh_node rule)) rule.mac count 0
        ≡ some b)
      × IsTree b (suc count)
      × (length b ≡ length buf)
      × (rules_of b (suc count) ≡ rules_of buf count ++ (rule ∷ []))
add_lem {buf} {count} rule t some_node room =
    let t' = set-IsTree (fresh_node rule) t in
    let (i, n, i_in, at, free, done, way) =
      link_in_lem count 0 rule.mac count t' some_node (omega arith) in
    let same = length-set buf count (fresh_node rule) in
    let new = get_elem?-set_self buf count (fresh_node rule) room in
    (
      set (set buf count (fresh_node rule)) i (linked n rule.mac count),
      done,
      unfold linked_buf in linked-IsTree rule t' (omega (arith, same)) new i n i_in at free way,
      length-set (set buf count (fresh_node rule)) i (linked n rule.mac count) ∙ same,
      ap (take (suc count)) (
            map-set_same (λ (x : NicNode). x.rule) (set buf count (fresh_node rule)) i n
              (linked n rule.mac count) at (rule-linked n rule.mac count)
            ∙ map-set (λ (x : NicNode). x.rule) buf count (fresh_node rule))
          ∙ take-suc-set (map (λ x. x.rule) buf) count rule
              (omega (arith, length-map (λ (x : NicNode). x.rule) buf)),
    )

-- The first rule is a tree by itself.
pub first-IsTree :
    (buf : List NicNode) (rule : RuleNics)
    → 0 < length buf
    → IsTree (set buf 0 (fresh_node rule)) 1
      × (rules_of (set buf 0 (fresh_node rule)) 1 ≡ rule ∷ [])
first-IsTree [] rule h = elim h [ ]
first-IsTree (x ∷ xs) rule h = (
  record {
    sized = omega arith;
    ahead = λ i j n mac lt at to. absurd (fresh-ends n mac j (only i n lt at) to);
    reached =
        λ k n lt at. subst (λ l. Reach (fresh_node rule ∷ xs) n.rule.mac l 0) (omega arith) here;
  },
  refl,
)
  where
    only :
        (i : ℕ) (n : NicNode)
        → i < 1
        → get_elem? (fresh_node rule ∷ xs) i ≡ some n
        → n ≡ fresh_node rule
    only zero n lt at = some_cancel (sym at)
    only (suc i) n lt at = absurd (omega arith)
