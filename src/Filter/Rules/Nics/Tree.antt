-- ===== src/Filter/Rules/Nics/Tree.antt =====
-- QX-billing/qxc_rules.c: the array of `rule_add_nic` holds a search tree, in which the loop of
-- `rule_match_client` finds every rule.
use mathlib.Core.Bool.{false≢true}
use qnxstuff.Prelude.{
  ℕ, zero, suc, ◌+◌, ◌≤◌, ◌<◌, ◌≡◌, sym, ap, ◌∙◌, ◌⊎◌, inl, inr, Ordering, Bool, true, false,
  Option, none, some, List, map, arith, if◌then◌else◌, get_elem?, take, length, any, Bool-cases,
  Option-cases, get_elem?-lt, any-get_elem?, any_index, map-take, any-map,
}
use qnxstuff.Prelude.Memory.{memcmp, memcmp_congr}
use qnxstuff.Filter.Packet.{LogRecord}
use qnxstuff.Filter.Rules.Nics.{RuleNics, NicNode, is_lt, is_eq, toward, client_hit, search_from}

-- A node is on the way that the loops take for `mac` from node `i`.
pub data Reach (buf : List NicNode) (mac : List ℕ) (k : ℕ) : ℕ → Type 0 where
  here : Reach buf mac k k
  step :
      {i : ℕ} (n : NicNode) (j : ℕ)
      → get_elem? buf i ≡ some n
      → toward n mac ≡ some j
      → Reach buf mac k j
      → Reach buf mac k i

-- The first `count` elements of the array are such a tree: links lead to later elements, and every
-- node is on the way for its own address.
pub record IsTree (buf : List NicNode) (count : ℕ) : Type 0 where
  pub sized : count ≤ length buf
  pub ahead :
      (i j : ℕ) (n : NicNode) (mac : List ℕ)
      → i < count
      → get_elem? buf i ≡ some n
      → toward n mac ≡ some j
      → (i < j) × (j < count)
  pub reached :
      (k : ℕ) (n : NicNode) → k < count → get_elem? buf k ≡ some n → Reach buf n.rule.mac k 0

toward_congr : (n : NicNode) (a b : List ℕ) → memcmp 6 a b ≡ Ordering.eq → toward n a ≡ toward n b
toward_congr n a b h =
    ap (λ o. if is_lt o then n.left else n.right) (memcmp_congr 6 n.rule.mac a b h)

Reach_congr :
    {buf : List NicNode} {k : ℕ} (a b : List ℕ)
    → memcmp 6 a b ≡ Ordering.eq
    → {i : ℕ} → Reach buf a k i
    → Reach buf b k i
Reach_congr a b h here = here
Reach_congr a b h (step n j at to r) =
    step n j at (sym (toward_congr n a b h) ∙ to) (Reach_congr a b h r)

is_eq→eq : (o : Ordering) → is_eq o ≡ true → o ≡ Ordering.eq
is_eq→eq o h = ground arith

client_hit-mac :
    (pkt : LogRecord) (r : RuleNics)
    → client_hit pkt r ≡ true
    → memcmp 6 r.mac pkt.mac ≡ Ordering.eq
client_hit-mac pkt r h = is_eq→eq (memcmp 6 r.mac pkt.mac) (ground arith)

search_hit :
    (fuel i : ℕ) (buf : List NicNode) (pkt : LogRecord) (n : NicNode)
    → get_elem? buf i ≡ some n
    → client_hit pkt n.rule ≡ true
    → search_from (suc fuel) buf pkt (some i) ≡ some 1
unfolding search_from
search_hit fuel i buf pkt n at hit = rw (at, search_from) (rw hit)

search_miss :
    (fuel i : ℕ) (buf : List NicNode) (pkt : LogRecord) (n : NicNode)
    → get_elem? buf i ≡ some n
    → client_hit pkt n.rule ≡ false
    → search_from (suc fuel) buf pkt (some i) ≡ search_from fuel buf pkt (toward n pkt.mac)
unfolding search_from
search_miss fuel i buf pkt n at miss = rw (at, search_from) (rw miss)

search_end :
    (fuel : ℕ) (buf : List NicNode) (pkt : LogRecord) (o : Option ℕ)
    → o ≡ none
    → search_from fuel buf pkt o ≡ some 0
unfolding search_from
search_end zero buf pkt o e = rw e
search_end (suc fuel) buf pkt o e = rw e

-- The loop finds a rule that is on the way.
search_from-Reach :
    (fuel i k : ℕ) {buf : List NicNode} {count : ℕ} (pkt : LogRecord) (n : NicNode)
    → IsTree buf count
    → i < count
    → count ≤ i + fuel
    → get_elem? buf k ≡ some n
    → client_hit pkt n.rule ≡ true
    → Reach buf pkt.mac k i
    → search_from fuel buf pkt (some i) ≡ some 1
search_from-Reach zero i k pkt n t lt enough at hit r = absurd (omega arith)
search_from-Reach (suc fuel) i _ {buf} pkt n t lt enough at hit here =
    search_hit fuel i buf pkt n at hit
search_from-Reach (suc fuel) i k {buf} pkt n t lt enough at hit (step m j at' to r) =
    elim (Bool-cases (client_hit pkt m.rule)) [
      | inl found ↦ search_hit fuel i buf pkt m at' found
      | inr miss ↦
          let (below, in_count) = t.ahead i j m pkt.mac lt at' to in
          search_miss fuel i buf pkt m at' miss
          ∙ ap (search_from fuel buf pkt) to
          ∙ search_from-Reach fuel j k pkt n t in_count (omega arith) at hit r
    ]

abbrev Listed : List NicNode → ℕ → LogRecord → Type 0
Listed buf count pkt =
    (k : ℕ) × (n : NicNode) × (k < count)
    × (get_elem? buf k ≡ some n)
    × (client_hit pkt n.rule ≡ true)

-- It ends in time, and answers 1 only for a rule that is in the tree.
search_from_cases :
    (fuel i : ℕ) {buf : List NicNode} {count : ℕ} (pkt : LogRecord)
    → IsTree buf count
    → i < count
    → count ≤ i + fuel
    → (search_from fuel buf pkt (some i) ≡ some 0)
      ⊎ ((search_from fuel buf pkt (some i) ≡ some 1) × Listed buf count pkt)
search_from_cases zero i pkt t lt enough = absurd (omega arith)
search_from_cases (suc fuel) i {buf} {count} pkt t lt enough =
    let sized = t.sized in
    let (n, at) = get_elem?-lt buf i (omega arith) in
    elim (Bool-cases (client_hit pkt n.rule)) [
      | inl found ↦ inr (search_hit fuel i buf pkt n at found, (i, n, lt, at, found))
      | inr miss ↦ elim (Option-cases (toward n pkt.mac)) [
        | inl end ↦ inl (search_miss fuel i buf pkt n at miss ∙ search_end fuel buf pkt _ end)
        | inr (j, to) ↦
            let (below, in_count) = t.ahead i j n pkt.mac lt at to in
            let same = search_miss fuel i buf pkt n at miss ∙ ap (search_from fuel buf pkt) to in
            elim (search_from_cases fuel j pkt t in_count (omega arith)) [
              | inl stop ↦ inl (same ∙ stop)
              | inr (go, found) ↦ inr (same ∙ go, found)
            ]
      ]
    ]

abbrev pub rules_of : List NicNode → ℕ → List RuleNics
rules_of buf count = take count (map (λ n. n.rule) buf)

abbrev pub from_Bool : Bool → ℕ
from_Bool b = if b then 1 else 0

listed_node :
    (buf : List NicNode) (count : ℕ) (pkt : LogRecord)
    → any (client_hit pkt) (rules_of buf count) ≡ any (λ n. client_hit pkt n.rule) (take count buf)
listed_node buf count pkt =
    ap (any (client_hit pkt)) (sym (map-take (λ n. n.rule) count buf))
    ∙ any-map (client_hit pkt) (λ n. n.rule) (take count buf)

-- The loop answers exactly whether a rule of the tree is for the packet's client.
pub search_from-any :
    (fuel count : ℕ) {buf : List NicNode} (pkt : LogRecord)
    → IsTree buf count
    → 0 < count
    → count ≤ fuel
    → search_from fuel buf pkt (some 0)
      ≡ some (from_Bool (any (client_hit pkt) (rules_of buf count)))
search_from-any fuel count {buf} pkt t some_node enough =
    elim (Bool-cases (any (λ n. client_hit pkt n.rule) (take count buf))) [
      | inl e ↦
          let (k, n, lt, at, hit) =
            any_index (λ (n : NicNode). client_hit pkt n.rule) buf count e in
          search_from-Reach fuel 0 k pkt n t some_node (omega arith) at hit
            (Reach_congr n.rule.mac pkt.mac (client_hit-mac pkt n.rule hit) (t.reached k n lt at))
          ∙ ap (λ b. some (from_Bool b)) (sym (listed_node buf count pkt ∙ e))
      | inr e ↦ elim (search_from_cases fuel 0 pkt t some_node (omega arith)) [
        | inl stop ↦ stop ∙ ap (λ b. some (from_Bool b)) (sym (listed_node buf count pkt ∙ e))
        | inr (go, found) ↦
            let (k, n, lt, at, hit) = found in
            let e' =
              any-get_elem? (λ (n : NicNode). client_hit pkt n.rule) buf count k n lt at hit in
            absurd (false≢true (sym e ∙ e'))
      ]
    ]
