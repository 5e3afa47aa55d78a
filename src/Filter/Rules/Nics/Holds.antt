-- ===== src/Filter/Rules/Nics/Holds.antt =====
-- QX-billing/qxc_rules.c: the client lists as two sequences, those in force and those to come.
use native.Mathlib.Decide.{ℕ_discrete}
use native.Mathlib.Numerals.{add-one}
use qnxstuff.Prelude.{
  eqb_of_ne, eqb_of_eq, suc, ◌≤◌, ◌<◌, ◌≡◌, refl, sym, ap, ◌∙◌, ◌≢◌, List, [], ◌∷◌, ◌++◌, arith,
  set, length, any, length-append, length-set, Option, none, some, subst,
}
use qnxstuff.Prelude.Buffers.{Half, read, read-write_self, read-write_ne, length-read-write}
use qnxstuff.Filter.Packet.{LogRecord}
use qnxstuff.Filter.Rules.Nics.{
  RuleNics, NicNode, NicLists, client_hit, rule_match_client, rule_add_nic, with_shadow, fresh_node,
  swap_nics,
}
use qnxstuff.Filter.Rules.Nics.Tree.{IsTree, rules_of, from_Bool, search_from-any}
use qnxstuff.Filter.Rules.Nics.Insert.{add_lem, first-IsTree}

-- The list in force is a tree in the half that is not being filled.
pub data InForce (s : NicLists) (active : List RuleNics) : Option Half → Type 0 where
  nobody : active ≡ [] → InForce s active none
  tree :
      (h : Half)
      → h ≢ s.nc_rul_shadow
      → 0 < length active
      → length active ≤ s.nc_limit
      → IsTree (read h s.mem) (length active)
      → rules_of (read h s.mem) (length active) ≡ active
      → InForce s active (some h)

pub record Holds (s : NicLists) (active pending : List RuleNics) : Type 0 where
  pub apart : s.nc_rul_active ≢ s.nc_rul_shadow
  pub room : (h : Half) → s.nc_limit ≤ length (read h s.mem)
  pub counted : s.nc_count ≡ length pending
  pub bounded : s.nc_count ≤ s.nc_limit
  pub in_force : InForce s active s.nc_rul_list
  pub grown : IsTree (read s.nc_rul_shadow s.mem) s.nc_count
  pub to_come : rules_of (read s.nc_rul_shadow s.mem) s.nc_count ≡ pending

pub empty-IsTree : (buf : List NicNode) → IsTree buf 0
empty-IsTree buf = record {
  sized = omega arith;
  ahead = λ i j n mac lt at to. absurd (omega arith);
  reached = λ k n lt at. absurd (omega arith);
}

nil_of_length : (l : List RuleNics) → length l ≡ 0 → l ≡ []
nil_of_length [] e = refl
nil_of_length (x ∷ xs) e = absurd (omega arith)

search-InForce :
    (s : NicLists) (active : List RuleNics) (o : Option Half) (pkt : LogRecord)
    → s.nc_rul_list ≡ o
    → InForce s active o
    → rule_match_client s pkt ≡ some (from_Bool (any (client_hit pkt) active))
unfolding rule_match_client
search-InForce s active _ pkt e (nobody none_active) = rw (e, rule_match_client) (rw none_active)
search-InForce s active _ pkt e (tree h apart some_rule small t rules) =
    rw (e, rule_match_client)
      (search_from-any s.nc_limit (length active) pkt t some_rule small
        ∙ ap (λ l. some (from_Bool (any (client_hit pkt) l))) rules)

-- New contents of the shadow half leave the list in force.
with_shadow-InForce :
    (s : NicLists) (active : List RuleNics) (b : List NicNode) {o : Option Half}
    → InForce s active o
    → InForce (with_shadow s b) active o
with_shadow-InForce s active b (nobody e) = nobody e
with_shadow-InForce s active b (tree h apart some_rule small t rules) =
    let same = read-write_ne s.nc_rul_shadow h b s.mem (λ e. apart (sym e)) in
    tree h apart some_rule small (subst (λ l. IsTree l (length active)) (sym same) t)
      (subst (λ l. rules_of l (length active) ≡ active) (sym same) rules)

module _ {s : NicLists} {active pending : List RuleNics} (v : Holds s active pending) where
  pub match-Holds :
      (pkt : LogRecord) → rule_match_client s pkt ≡ some (from_Bool (any (client_hit pkt) active))
  match-Holds pkt = search-InForce s active s.nc_rul_list pkt refl v.in_force

  pub add_full : (r : RuleNics) → length pending ≡ s.nc_limit → rule_add_nic s r ≡ some (0, s)
  unfolding rule_add_nic
  add_full r full = let c = v.counted in rw (eqb_of_eq s.nc_count s.nc_limit (omega arith))

  with_shadow-Holds :
      (r : RuleNics) (b : List NicNode)
      → length pending ≢ s.nc_limit
      → IsTree b (suc s.nc_count)
      → length b ≡ length (read s.nc_rul_shadow s.mem)
      → rules_of b (suc s.nc_count) ≡ pending ++ (r ∷ [])
      → Holds (with_shadow s b) active (pending ++ (r ∷ []))
  with_shadow-Holds r b space t len rules =
      let c = v.counted in
      let bound = v.bounded in
      let same = read-write_self s.nc_rul_shadow b s.mem in
      record {
        apart = v.apart;
        room = λ h.
            let e = length-read-write s.nc_rul_shadow h b s.mem len in
            let l = v.room h in omega arith;
        counted = omega (arith, length-append pending (r ∷ []));
        bounded = omega arith;
        in_force = with_shadow-InForce s active b v.in_force;
        grown = rw (same, add-one) t;
        to_come = rw (same, add-one) rules;
      }

  abbrev pub AddsNic : RuleNics → Type 0
  AddsNic r =
      (s' : NicLists) × (rule_add_nic s r ≡ some (1, s'))
      × Holds s' active (pending ++ (r ∷ []))
      × (s'.nc_limit ≡ s.nc_limit)

  add_first : (r : RuleNics) → length pending ≢ s.nc_limit → s.nc_count ≡ 0 → AddsNic r
  unfolding rule_add_nic
  add_first r space start =
      let c = v.counted in
      let bound = v.bounded in
      let place = v.room s.nc_rul_shadow in
      let buf = read s.nc_rul_shadow s.mem in
      let b = set buf s.nc_count (fresh_node r) in
      let (t, rules) = first-IsTree buf r (omega arith) in
      let no_pending : pending ≡ [] = nil_of_length pending (omega arith) in
      (
        with_shadow s b,
        rw (eqb_of_ne s.nc_count s.nc_limit (omega arith), eqb_of_eq s.nc_count 0 start)
            (ap (λ k. some (k, with_shadow s b)) (omega arith)),
        with_shadow-Holds r b space
            (subst (λ k. IsTree (set buf k (fresh_node r)) (suc k)) (sym start) t)
            (length-set buf s.nc_count (fresh_node r))
            (subst (λ k. rules_of (set buf k (fresh_node r)) (suc k) ≡ pending ++ (r ∷ []))
              (sym start) (rules ∙ ap (λ l. l ++ (r ∷ [])) (sym no_pending))),
        refl,
      )

  add_later : (r : RuleNics) → length pending ≢ s.nc_limit → 0 < s.nc_count → AddsNic r
  unfolding rule_add_nic
  add_later r space later =
      let c = v.counted in
      let bound = v.bounded in
      let place = v.room s.nc_rul_shadow in
      let (b, done, t, len, rules) = add_lem r v.grown later (omega arith) in
      (
        with_shadow s b,
        rw (eqb_of_ne s.nc_count s.nc_limit (omega arith), eqb_of_ne s.nc_count 0 (omega arith))
            (rw done),
        with_shadow-Holds r b space t len (rules ∙ ap (λ l. l ++ (r ∷ [])) v.to_come),
        refl,
      )

  pub add_Holds : (r : RuleNics) → length pending ≢ s.nc_limit → AddsNic r
  add_Holds r space = elim (ℕ_discrete s.nc_count 0) [
    | yes start ↦ add_first r space start
    | no later ↦ add_later r space (omega arith)
  ]

  swap-InForce : InForce (swap_nics s) pending (swap_nics s).nc_rul_list
  unfolding swap_nics
  swap-InForce =
      let c = v.counted in
      let bound = v.bounded in
      elim (ℕ_discrete s.nc_count 0) [
        | yes empty ↦
            rw (eqb_of_eq s.nc_count 0 empty) (nobody (nil_of_length pending (omega arith)))
        | no some_rule ↦ rw (eqb_of_ne s.nc_count 0 some_rule) (
            tree s.nc_rul_shadow (λ e. v.apart (sym e)) (omega arith) (omega arith)
              (subst (λ k. IsTree (read s.nc_rul_shadow s.mem) k) c v.grown)
              (subst (λ k. rules_of (read s.nc_rul_shadow s.mem) k ≡ pending) c v.to_come))
      ]

  pub swap-Holds : Holds (swap_nics s) pending []
  swap-Holds = record {
    apart = unfold swap_nics in λ e. v.apart (sym e);
    room = unfold swap_nics in v.room;
    counted = unfold swap_nics in refl;
    bounded = unfold swap_nics in omega arith;
    in_force = swap-InForce;
    grown = unfold swap_nics in empty-IsTree (read s.nc_rul_active s.mem);
    to_come = unfold swap_nics in refl;
  }

pub limit-swap : (s : NicLists) → (swap_nics s).nc_limit ≡ s.nc_limit
unfolding swap_nics
limit-swap s = refl
