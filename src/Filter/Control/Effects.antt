-- ===== src/Filter/Control/Effects.antt =====
-- QX-billing/qxc_rm.c: what each command answers and what it changes.
use qnxstuff.Prelude.{
  ℕ, ◌≡◌, refl, ◌∙◌, ap, Option, some, List, [], arith, length, ltb, if◌then◌else◌, ltb_of_lt,
  ltb_of_le,
}
use native.Mathlib.Decide.{dec_lt}
use qnxstuff.Prelude.Int.{pos}
use qnxstuff.Filter.Rules.{Call}
use qnxstuff.Filter.Rules.{rule_swap_lists}
use qnxstuff.Filter.Rules.Spec
use qnxstuff.Filter.Rules.Refines.{add_exempt-Refines, add_nic-Refines, swap-Refines}
use qnxstuff.Filter.Log.{log_swap_log}
use qnxstuff.Filter.Log.Holds.{swap-Holds, swap_limit, swap_results}
use qnxstuff.Filter.State.{State, View, Shows}
use qnxstuff.Filter.Control.{
  Command, qxc_add_te, qxc_add_nic, qxc_swap_get_log, qxc_get_info, other, Devctl, Reply, enosys,
  replied, nothing, info, log_region, sizeof_exempt, sizeof_nics, sizeof_if_info, sizeof_int,
  exempt_at, nics_at, refused, add_te, add_nic, swap_get_log, qxc_rm_devctl,
}

-- The answer that the specification of the rules gives, and the view after it.
abbrev rule_effect : View → Call → Reply × View
rule_effect a c =
    let (result, r) = Spec.step a.rules c in
    (replied (pos result) 0 nothing, record a { rules = r })

-- A swap of all lists at once, and the number of records that it hands over.
abbrev swap_effect : State → View → Reply × View
swap_effect f a = (
  replied (pos (length a.current)) sizeof_int (log_region f.log.log_fd_num),
  record a { rules = Spec.swap a.rules; current = []; handed = a.current },
)

abbrev pub effect : State → View → Devctl → Reply × View
effect f a m = elim m.dcmd [
  | qxc_add_te ↦
      if ltb m.nbytes sizeof_exempt
      then (refused, a)
      else rule_effect a (Call.add_exempt (exempt_at m.bytes))
  | qxc_add_nic ↦
      if ltb m.nbytes sizeof_nics
      then (refused, a)
      else rule_effect a (Call.add_nic (nics_at m.bytes))
  | qxc_get_info ↦
      if ltb m.nbytes sizeof_if_info
      then (refused, a)
      else (replied (pos 1) sizeof_if_info (info f.interface), a)
  | qxc_swap_get_log ↦ swap_effect f a
  | other ↦ (enosys, a)
]

abbrev pub Answers : State → View → Option (Reply × State) → Reply × View → Type 0
Answers f a r e = (f' : State) × (r ≡ some (e.0, f')) × Shows f' e.1 × (f'.interface ≡ f.interface)

module _ {f : State} {a : View} (s : Shows f a) where
  add_te-Answers :
      (b : List ℕ) → Answers f a (some (add_te f b)) (rule_effect a (Call.add_exempt (exempt_at b)))
  unfolding add_te Spec.step
  add_te-Answers b =
      let (e, done, holds) = add_exempt-Refines s.rules (exempt_at b) in
      (
        record f { rules = record (f.rules) { exempts = e } },
        rw done refl,
        record { rules = holds; log = s.log; limit = s.limit },
        refl,
      )

  add_nic-Answers :
      (b : List ℕ) → Answers f a (add_nic f b) (rule_effect a (Call.add_nic (nics_at b)))
  unfolding add_nic Spec.step
  add_nic-Answers b =
      let (n, done, holds) = add_nic-Refines s.rules (nics_at b) in
      (
        record f { rules = record (f.rules) { nics = n } },
        rw (done, add_nic) refl,
        record { rules = holds; log = s.log; limit = s.limit },
        refl,
      )

  swap-Answers : Answers f a (some (swap_get_log f)) (swap_effect f a)
  unfolding swap_get_log
  swap-Answers = (
    record f { log = (log_swap_log f.log).2; rules = rule_swap_lists f.rules },
    ap
        (λ (l : ℕ × ℕ). some (
          replied (pos l.1) sizeof_int (log_region l.0),
          record f { log = (log_swap_log f.log).2; rules = rule_swap_lists f.rules },
        ))
        (swap_results s.log),
    record {
      rules = swap-Refines s.rules;
      log = swap-Holds s.log;
      limit = swap_limit f.log ∙ s.limit;
    },
    refl,
  )

  stays : (r : Reply) → Answers f a (some (r, f)) (r, a)
  stays r = (f, refl, s, refl)

  -- Every command is answered as specified: a rule is added to those to come if the buffer holds
  -- one and there is room; a swap exchanges both kinds of rules and the log in one step; a buffer
  -- that is too small, a question or an unknown code changes nothing.
  pub devctl-Answers : (m : Devctl) → Answers f a (qxc_rm_devctl f m) (effect f a m)
  unfolding qxc_rm_devctl
  devctl-Answers m = go m.dcmd refl
    where
      go : (c : Command) → m.dcmd ≡ c → Answers f a (qxc_rm_devctl f m) (effect f a m)
      go qxc_add_te e = elim (dec_lt m.nbytes sizeof_exempt) [
        | yes short ↦ rw (e, ltb_of_lt m.nbytes sizeof_exempt short) (stays refused)
        | no fits ↦ rw (e, ltb_of_le m.nbytes sizeof_exempt (omega arith)) (add_te-Answers m.bytes)
      ]
      go qxc_add_nic e = elim (dec_lt m.nbytes sizeof_nics) [
        | yes short ↦ rw (e, ltb_of_lt m.nbytes sizeof_nics short) (stays refused)
        | no fits ↦ rw (e, ltb_of_le m.nbytes sizeof_nics (omega arith)) (add_nic-Answers m.bytes)
      ]
      go qxc_get_info e = elim (dec_lt m.nbytes sizeof_if_info) [
        | yes short ↦ rw (e, ltb_of_lt m.nbytes sizeof_if_info short) (stays refused)
        | no fits ↦
            rw (e, ltb_of_le m.nbytes sizeof_if_info (omega arith))
              (stays (replied (pos 1) sizeof_if_info (info f.interface)))
      ]
      go qxc_swap_get_log e = rw e swap-Answers
      go other e = rw e (stays enosys)
