-- ===== src/Filter/Rules/Refines.antt =====
-- QX-billing/qxc_rules.c: the arrays, pointers and trees behave as the two sequences of each kind.
use native.Mathlib.Decide.{ℕ_discrete}
use qnxstuff.Prelude.{
  eqb_of_ne, eqb_of_eq, ℕ, ◌≤◌, ◌≡◌, refl, ap, ◌∙◌, ◌≢◌, none, some, List, [], ◌∷◌, arith, length,
}
use qnxstuff.Prelude.Buffers.{first, second, read}
use qnxstuff.Filter.Rules.Exempts.{RuleExempt, ExemptLists, rule_add_exempt, stored}
use qnxstuff.Filter.Rules.Exempts.Holds as ExemptsHolds
use qnxstuff.Filter.Rules.Nics.{RuleNics, NicNode, NicLists, rule_add_nic}
use qnxstuff.Filter.Rules.Nics.Holds as NicsHolds
use qnxstuff.Filter.Rules.{
  Rules, Mallocs, Call, loaded, rule_init_lists, rule_swap_lists, step, run,
}
use qnxstuff.Filter.Rules.Spec.{Spec}
use qnxstuff.Filter.Rules.Spec

-- The lists hold the sequences.
pub record Refines (s : Rules) (a : Spec) : Type 0 where
  pub exempts : ExemptsHolds.Holds s.exempts a.exempts a.coming_exempts
  pub max_exempts : s.exempts.ex_limit ≡ a.max_exempts
  pub nics : NicsHolds.Holds s.nics a.nics a.coming_nics
  pub max_nics : s.nics.nc_limit ≡ a.max_nics

-- A call gives the result that the specification says, and the lists hold what it says then.
abbrev pub Simulates : Rules → Spec → Call → Type 0
Simulates s a c =
    (s' : Rules) × (step s c ≡ some ((Spec.step a c).0, s')) × Refines s' (Spec.step a c).1

module _ {s : Rules} {a : Spec} (v : Refines s a) where
  pub add_exempt-Refines :
      (r : RuleExempt)
      → (e : ExemptLists) × (rule_add_exempt s.exempts r ≡ ((Spec.add_exempt a r).0, e))
        × Refines (record s { exempts = e }) (Spec.add_exempt a r).1
  unfolding Spec.add_exempt
  add_exempt-Refines r =
      let m = v.max_exempts in
      elim (ℕ_discrete (length a.coming_exempts) a.max_exempts) [
        | yes full ↦
            rw (eqb_of_eq (length a.coming_exempts) a.max_exempts full)
              (s.exempts, ExemptsHolds.add_full v.exempts r (omega arith), v)
        | no space ↦ rw (eqb_of_ne (length a.coming_exempts) a.max_exempts space) (
          stored s.exempts r,
          ExemptsHolds.add_stored v.exempts r (omega arith),
          record {
            exempts = ExemptsHolds.stored-Holds v.exempts r (omega arith);
            max_exempts = v.max_exempts;
            nics = v.nics;
            max_nics = v.max_nics;
          },
        )
      ]

  pub add_nic-Refines :
      (r : RuleNics)
      → (n : NicLists) × (rule_add_nic s.nics r ≡ some ((Spec.add_nic a r).0, n))
        × Refines (record s { nics = n }) (Spec.add_nic a r).1
  unfolding Spec.add_nic
  add_nic-Refines r =
      let m = v.max_nics in
      elim (ℕ_discrete (length a.coming_nics) a.max_nics) [
        | yes full ↦
            rw (eqb_of_eq (length a.coming_nics) a.max_nics full)
              (s.nics, NicsHolds.add_full v.nics r (omega arith), v)
        | no space ↦
            let (n, done, holds, limit) = NicsHolds.add_Holds v.nics r (omega arith) in
            rw (eqb_of_ne (length a.coming_nics) a.max_nics space) (
              n,
              done,
              record {
                exempts = v.exempts;
                max_exempts = v.max_exempts;
                nics = holds;
                max_nics = limit ∙ v.max_nics;
              },
            )
      ]

  pub swap-Refines : Refines (rule_swap_lists s) (Spec.swap a)
  unfolding rule_swap_lists Spec.swap
  swap-Refines = record {
    exempts = ExemptsHolds.swap-Holds v.exempts;
    max_exempts = ExemptsHolds.limit-swap s.exempts ∙ v.max_exempts;
    nics = NicsHolds.swap-Holds v.nics;
    max_nics = NicsHolds.limit-swap s.nics ∙ v.max_nics;
  }

  pub step-Simulates : (c : Call) → Simulates s a c
  unfolding step Spec.step Spec.is_client
  step-Simulates (Call.add_exempt r) =
      let (e, done, holds) = add_exempt-Refines r in (record s { exempts = e }, rw done refl, holds)
  step-Simulates (Call.add_nic r) =
      let (n, done, holds) = add_nic-Refines r in
      (record s { nics = n }, rw (done, step) refl, holds)
  step-Simulates Call.swap_lists = (rule_swap_lists s, refl, swap-Refines)
  step-Simulates (Call.match_exempt pkt) =
      (s, ap (λ k. some (k, s)) (ExemptsHolds.match-Holds v.exempts pkt), v)
  step-Simulates (Call.match_client pkt) = (s, rw (NicsHolds.match-Holds v.nics pkt, step), v)

-- Any calls in a row have the results that the specification gives.
run-Refines :
    (cs : List Call) {s : Rules} {a : Spec} → Refines s a → run s cs ≡ some (Spec.run a cs)
unfolding run Spec.run
run-Refines [] v = refl
run-Refines (c ∷ cs) {s} {a} v =
    let (s', done, holds) = step-Simulates v c in rw (done, run) (rw (run-Refines cs holds) refl)

-- Each array has as many elements as were asked for.
pub record Allocated (m : Mallocs) (ex_cnt nc_cnt : ℕ) : Type 0 where
  pub ex_active : List RuleExempt
  pub ex_shadow : List RuleExempt
  pub nc_active : List NicNode
  pub nc_shadow : List NicNode
  pub gave_ex_active : m.for_ex_active ≡ some ex_active
  pub gave_ex_shadow : m.for_ex_shadow ≡ some ex_shadow
  pub gave_nc_active : m.for_nc_active ≡ some nc_active
  pub gave_nc_shadow : m.for_nc_shadow ≡ some nc_shadow
  pub size_ex_active : length ex_active ≡ ex_cnt
  pub size_ex_shadow : length ex_shadow ≡ ex_cnt
  pub size_nc_active : length nc_active ≡ nc_cnt
  pub size_nc_shadow : length nc_shadow ≡ nc_cnt

first-ne-second : first ≢ second
first-ne-second e = cc

module _ {m : Mallocs} {ex_cnt nc_cnt : ℕ} (got : Allocated m ex_cnt nc_cnt) where
  abbrev set_up : Rules
  set_up = record {
    exempts = record {
      mem = record { in_first = got.ex_active; in_second = got.ex_shadow };
      ex_rul_active = first;
      ex_rul_shadow = second;
      ex_count = 0;
      ex_active_count = 0;
      ex_limit = ex_cnt;
    };
    nics = record {
      mem = record { in_first = got.nc_active; in_second = got.nc_shadow };
      nc_rul_active = first;
      nc_rul_shadow = second;
      nc_rul_list = none;
      nc_count = 0;
      nc_limit = nc_cnt;
    };
  }

  init-set_up : rule_init_lists loaded m ex_cnt nc_cnt ≡ (1, set_up)
  unfolding rule_init_lists loaded
  init-set_up =
      rw (got.gave_ex_active, got.gave_ex_shadow, got.gave_nc_active, got.gave_nc_shadow) refl

  set_up-Refines : Refines set_up (Spec.empty ex_cnt nc_cnt)
  set_up-Refines = record {
    exempts = record {
      apart = first-ne-second;
      room = λ h. elim h as (λ k. ex_cnt ≤ length (read k set_up.exempts.mem)) [
        | first ↦ let e = got.size_ex_active in omega arith
        | second ↦ let e = got.size_ex_shadow in omega arith
      ];
      counted = refl;
      bounded = omega arith;
      in_force = refl;
      to_come = refl;
    };
    max_exempts = refl;
    nics = record {
      apart = first-ne-second;
      room = λ h. elim h as (λ k. nc_cnt ≤ length (read k set_up.nics.mem)) [
        | first ↦ let e = got.size_nc_active in omega arith
        | second ↦ let e = got.size_nc_shadow in omega arith
      ];
      counted = refl;
      bounded = omega arith;
      in_force = NicsHolds.nobody refl;
      grown = NicsHolds.empty-IsTree got.nc_shadow;
      to_come = refl;
    };
    max_nics = refl;
  }

  -- Where the four allocations succeed, `rule_init_lists` returns 1, and any calls after it have
  -- the results that the specification gives from its empty state: every search ends, inside its
  -- array, and answers by membership in the client rules of the last swap, whatever was added since.
  pub init-run_rules :
      (cs : List Call)
      → ((rule_init_lists loaded m ex_cnt nc_cnt).0 ≡ 1)
        × (run (rule_init_lists loaded m ex_cnt nc_cnt).1 cs
            ≡ some (Spec.run (Spec.empty ex_cnt nc_cnt) cs))
  init-run_rules cs = rw init-set_up (refl, run-Refines cs set_up-Refines)
