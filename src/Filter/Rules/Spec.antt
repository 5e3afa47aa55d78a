-- ===== src/Filter/Rules/Spec.antt =====
-- What QX-billing/qxc_rules.h promises: two sequences of rules of each kind, those in force and
-- those that wait for the next swap.
use qnxstuff.Prelude.{ℕ, Bool, List, [], ◌∷◌, ◌++◌, ◌==◌, if◌then◌else◌, length, any}
use qnxstuff.Filter.Packet.{LogRecord}
use qnxstuff.Filter.Rules.Exempts.{RuleExempt, match_from}
use qnxstuff.Filter.Rules.Nics.{RuleNics, client_hit}
use qnxstuff.Filter.Rules.Nics.Tree.{from_Bool}
use qnxstuff.Filter.Rules.{Call}

pub record Spec : Type 0 where
  pub exempts : List RuleExempt
  pub coming_exempts : List RuleExempt
  pub max_exempts : ℕ
  pub nics : List RuleNics
  pub coming_nics : List RuleNics
  pub max_nics : ℕ

abbrev pub empty : ℕ → ℕ → Spec
empty ex_cnt nc_cnt = record {
  exempts = [];
  coming_exempts = [];
  max_exempts = ex_cnt;
  nics = [];
  coming_nics = [];
  max_nics = nc_cnt;
}

unfoldable pub add_exempt : Spec → RuleExempt → ℕ × Spec
add_exempt a r =
    if length a.coming_exempts == a.max_exempts
    then (0, a)
    else (1, record a { coming_exempts = a.coming_exempts ++ (r ∷ []) })

unfoldable pub add_nic : Spec → RuleNics → ℕ × Spec
add_nic a r =
    if length a.coming_nics == a.max_nics
    then (0, a)
    else (1, record a { coming_nics = a.coming_nics ++ (r ∷ []) })

unfoldable pub swap : Spec → Spec
swap a = record a {
  exempts = a.coming_exempts;
  coming_exempts = [];
  nics = a.coming_nics;
  coming_nics = [];
}

-- Membership, with no order and no tree.
unfoldable pub is_client : Spec → LogRecord → Bool
is_client a pkt = any (client_hit pkt) a.nics

unfoldable pub step : Spec → Call → ℕ × Spec
step a (Call.add_exempt r) = add_exempt a r
step a (Call.add_nic r) = add_nic a r
step a Call.swap_lists = (0, swap a)
step a (Call.match_exempt pkt) = (match_from pkt a.exempts, a)
step a (Call.match_client pkt) = (from_Bool (is_client a pkt), a)

unfoldable pub run : Spec → List Call → List ℕ
run a [] = []
run a (c ∷ cs) = let (result, a') = step a c in result ∷ run a' cs
