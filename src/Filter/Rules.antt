-- ===== src/Filter/Rules.antt =====
-- QX-billing/qx_rules.h, qxc_rules.h and qxc_rules.c: the rules by which packets pass.
-- Each kind of rule has two arrays, and pointers to them that `rule_swap_lists` exchanges. An array
-- that was not allocated (a pointer that is NULL) has no elements. The locks keep readers and the
-- swap apart, so that each operation is one step.
pub mod Exempts
pub mod Nics
pub mod Spec
pub mod Refines
use qnxstuff.Prelude.{ℕ, ◌≤◌, ◌≡◌, Bool, Option, none, some, List, [], ◌∷◌}
use qnxstuff.Prelude.Buffers.{Half, first, second, Buffers, write}
use qnxstuff.Filter.Packet.{LogRecord}
use Exempts.{RuleExempt, ExemptLists, rule_match_exempt, rule_add_exempt, swap_exempts}
use Nics.{RuleNics, NicNode, NicLists, rule_match_client, rule_add_nic, swap_nics}

-- The variables of the module.
pub record Rules : Type 0 where
  pub exempts : ExemptLists
  pub nics : NicLists

-- The variables as the module is loaded.
pub loaded : Rules
loaded = record {
  exempts = record {
    mem = record { in_first = []; in_second = [] };
    ex_rul_active = first;
    ex_rul_shadow = second;
    ex_count = 0;
    ex_active_count = 0;
    ex_limit = 10;
  };
  nics = record {
    mem = record { in_first = []; in_second = [] };
    nc_rul_active = first;
    nc_rul_shadow = second;
    nc_rul_list = none;
    nc_count = 0;
    nc_limit = 10;
  };
}

-- What `malloc` gave for each of the four arrays: nothing, or memory with whatever it holds.
pub record Mallocs : Type 0 where
  pub for_ex_active : Option (List RuleExempt)
  pub for_ex_shadow : Option (List RuleExempt)
  pub for_nc_active : Option (List NicNode)
  pub for_nc_shadow : Option (List NicNode)

abbrev with_ex_active : Rules → List RuleExempt → Rules
with_ex_active s a = record s {
  exempts = record (s.exempts) { mem = write s.exempts.ex_rul_active a s.exempts.mem };
}

abbrev with_ex_shadow : Rules → List RuleExempt → Rules
with_ex_shadow s a = record s {
  exempts = record (s.exempts) { mem = write s.exempts.ex_rul_shadow a s.exempts.mem };
}

abbrev with_nc_active : Rules → List NicNode → Rules
with_nc_active s a = record s {
  nics = record (s.nics) { mem = write s.nics.nc_rul_active a s.nics.mem };
}

abbrev with_nc_shadow : Rules → List NicNode → Rules
with_nc_shadow s a = record s {
  nics = record (s.nics) { mem = write s.nics.nc_rul_shadow a s.nics.mem };
}

abbrev with_limits : Rules → ℕ → ℕ → Rules
with_limits s ex_cnt nc_cnt = record s {
  exempts = record (s.exempts) { ex_limit = ex_cnt };
  nics = record (s.nics) { nc_limit = nc_cnt };
}

-- Returns 0 where an allocation fails, with the arrays before it in place.
pub rule_init_lists : Rules → Mallocs → ℕ → ℕ → ℕ × Rules
rule_init_lists s m ex_cnt nc_cnt = elim m.for_ex_active [
  | none ↦ (0, s)
  | some a ↦
      let s₁ = with_ex_active s a in
      elim m.for_ex_shadow [
        | none ↦ (0, s₁)
        | some b ↦
            let s₂ = with_ex_shadow s₁ b in
            elim m.for_nc_active [
              | none ↦ (0, s₂)
              | some c ↦
                  let s₃ = with_nc_active s₂ c in
                  elim m.for_nc_shadow [
                    | none ↦ (0, s₃)
                    | some d ↦ (1, with_limits (with_nc_shadow s₃ d) ex_cnt nc_cnt)
                  ]
            ]
      ]
]

pub rule_swap_lists : Rules → Rules
rule_swap_lists s = record { exempts = swap_exempts s.exempts; nics = swap_nics s.nics }

-- A call of one of the functions of qxc_rules.h.
pub data Call : Type 0 where
  add_exempt : RuleExempt → Call
  add_nic : RuleNics → Call
  swap_lists : Call
  match_exempt : LogRecord → Call
  match_client : LogRecord → Call

-- The result of a call, 0 for `rule_swap_lists`, which has none. `none`: a search ran out of its
-- fuel or of its array.
pub step : Rules → Call → Option (ℕ × Rules)
step s (add_exempt r) =
    let (result, e) = rule_add_exempt s.exempts r in some (result, record s { exempts = e })
step s (add_nic r) = elim (rule_add_nic s.nics r) [
  | none ↦ none
  | some (result, n) ↦ some (result, record s { nics = n })
]
step s swap_lists = some (0, rule_swap_lists s)
step s (match_exempt pkt) = some (rule_match_exempt s.exempts pkt, s)
step s (match_client pkt) = elim (rule_match_client s.nics pkt) [
  | none ↦ none
  | some result ↦ some (result, s)
]

-- The results of calls in a row.
pub run : Rules → List Call → Option (List ℕ)
run s [] = some []
run s (c ∷ cs) = elim (step s c) [
  | none ↦ none
  | some (result, s') ↦ elim (run s' cs) [ none ↦ none | some results ↦ some (result ∷ results) ]
]
