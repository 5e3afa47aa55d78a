-- ===== src/Filter/Rules/Exempts/Holds.antt =====
-- QX-billing/qxc_rules.c: the exemption lists as two sequences, those in force and those to come.
use native.Mathlib.Numerals.{add-one}
use qnxstuff.Prelude.{
  eqb_of_ne, eqb_of_eq, ◌+◌, ◌≤◌, ◌<◌, ◌≡◌, refl, sym, ap, ◌∙◌, ◌≢◌, List, [], ◌∷◌, ◌++◌, arith,
  take, set, length, length-append, length-set, take-suc-set,
}
use qnxstuff.Prelude.Buffers.{Half, read, read-write_self, read-write_ne, length-read-write}
use qnxstuff.Filter.Packet.{LogRecord}
use qnxstuff.Filter.Rules.Exempts.{
  RuleExempt, ExemptLists, match_from, rule_match_exempt, rule_add_exempt, stored, swap_exempts,
}

pub record Holds (s : ExemptLists) (active pending : List RuleExempt) : Type 0 where
  pub apart : s.ex_rul_active ≢ s.ex_rul_shadow
  pub room : (h : Half) → s.ex_limit ≤ length (read h s.mem)
  pub counted : s.ex_count ≡ length pending
  pub bounded : s.ex_count ≤ s.ex_limit
  pub in_force : take s.ex_active_count (read s.ex_rul_active s.mem) ≡ active
  pub to_come : take s.ex_count (read s.ex_rul_shadow s.mem) ≡ pending

module _ {s : ExemptLists} {active pending : List RuleExempt} (v : Holds s active pending) where
  pub match-Holds : (pkt : LogRecord) → rule_match_exempt s pkt ≡ match_from pkt active
  unfolding rule_match_exempt
  match-Holds pkt = ap (match_from pkt) v.in_force

  pub add_full : (r : RuleExempt) → length pending ≡ s.ex_limit → rule_add_exempt s r ≡ (0, s)
  unfolding rule_add_exempt
  add_full r full = let c = v.counted in rw (eqb_of_eq s.ex_count s.ex_limit (omega arith))

  stored-to_come :
      (r : RuleExempt)
      → s.ex_count < length (read s.ex_rul_shadow s.mem)
      → take (s.ex_count + 1) (read s.ex_rul_shadow (stored s r).mem) ≡ pending ++ (r ∷ [])
  stored-to_come r place =
      rw
        (
          read-write_self s.ex_rul_shadow (set (read s.ex_rul_shadow s.mem) s.ex_count r) s.mem,
          add-one,
        )
        (take-suc-set (read s.ex_rul_shadow s.mem) s.ex_count r place
          ∙ ap (λ l. l ++ (r ∷ [])) v.to_come)

  pub stored-Holds :
      (r : RuleExempt)
      → length pending ≢ s.ex_limit
      → Holds (stored s r) active (pending ++ (r ∷ []))
  stored-Holds r space =
      let c = v.counted in
      let b = v.bounded in
      let place = v.room s.ex_rul_shadow in
      let new = set (read s.ex_rul_shadow s.mem) s.ex_count r in
      record {
        apart = v.apart;
        room = λ h.
            let e =
              length-read-write s.ex_rul_shadow h new s.mem
                (length-set (read s.ex_rul_shadow s.mem) s.ex_count r) in
            let l = v.room h in omega arith;
        counted = omega (arith, length-append pending (r ∷ []));
        bounded = omega arith;
        in_force =
            rw (read-write_ne s.ex_rul_shadow s.ex_rul_active new s.mem (λ e. v.apart (sym e)))
              v.in_force;
        to_come = stored-to_come r (omega arith);
      }

  pub add_stored :
      (r : RuleExempt) → length pending ≢ s.ex_limit → rule_add_exempt s r ≡ (1, stored s r)
  unfolding rule_add_exempt
  add_stored r space = let c = v.counted in rw (eqb_of_ne s.ex_count s.ex_limit (omega arith))

  pub swap-Holds : Holds (swap_exempts s) pending []
  unfolding swap_exempts
  swap-Holds = record {
    apart = λ e. v.apart (sym e);
    room = v.room;
    counted = refl;
    bounded = omega arith;
    in_force = v.to_come;
    to_come = refl;
  }

pub limit-swap : (s : ExemptLists) → (swap_exempts s).ex_limit ≡ s.ex_limit
unfolding swap_exempts
limit-swap s = refl
