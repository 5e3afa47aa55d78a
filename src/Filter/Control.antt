-- ===== src/Filter/Control.antt =====
-- QX-billing/qxc_rm.c and qx_rm.h: the commands that the logger sends to the module's device.
pub mod Effects
use qnxstuff.Prelude.{
  ℕ, ◌+◌, Bool, true, false, Option, none, some, List, [], ltb, if◌then◌else◌, take, drop,
}
use qnxstuff.Prelude.Int.{ℤ, pos, negsuc}
use qnxstuff.Prelude.Memory.{load16, load32}
use qnxstuff.Filter.Rules.{Rules, rule_swap_lists}
use qnxstuff.Filter.Rules.Exempts.{RuleExempt, rule_add_exempt}
use qnxstuff.Filter.Rules.Nics.{RuleNics, rule_add_nic}
use qnxstuff.Filter.Log.{log_swap_log}
use qnxstuff.Filter.State.{State, IfInfo}

-- The command codes; `other` is any code that is none of them.
pub data Command : Type 0 where
  qxc_add_te qxc_add_nic qxc_swap_get_log qxc_get_info other : Command

-- `io_devctl_t`: the command, the size of the client's buffer, and the bytes in it.
pub record Devctl : Type 0 where
  pub dcmd : Command
  pub nbytes : ℕ
  pub bytes : List ℕ

-- What is written over the client's bytes.
pub data Payload : Type 0 where
  nothing : Payload
  info : IfInfo → Payload
  log_region : ℕ → Payload

pub data Reply : Type 0 where
  enosys : Reply
  replied : ℤ → ℕ → Payload → Reply

abbrev pub sizeof_exempt : ℕ
sizeof_exempt = 20

abbrev pub sizeof_nics : ℕ
sizeof_nics = 16

abbrev pub sizeof_if_info : ℕ
sizeof_if_info = 40

abbrev pub sizeof_int : ℕ
sizeof_int = 4

-- `(qx_rule_exempt_t*)data`
pub exempt_at : List ℕ → RuleExempt
exempt_at b = record {
  active = load32 b 0;
  ip_mask = load32 b 4;
  ip_addr = load32 b 8;
  ip_proto = load16 b 12;
  ip_port_lo = load16 b 14;
  ip_port_hi = load16 b 16;
  dlc_proto = load16 b 18;
}

-- `(qx_rule_nics_t*)data`
pub nics_at : List ℕ → RuleNics
nics_at b = record { uid = load32 b 0; ip_addr = load32 b 4; mac = take 6 (drop 8 b) }

-- `retval` and `nbytes` as they are before a command changes them.
abbrev pub refused : Reply
refused = replied (negsuc 0) 0 nothing

pub add_te : State → List ℕ → Reply × State
add_te f b =
    let (result, e) = rule_add_exempt f.rules.exempts (exempt_at b) in
    (replied (pos result) 0 nothing, record f { rules = record (f.rules) { exempts = e } })

pub add_nic : State → List ℕ → Option (Reply × State)
add_nic f b = elim (rule_add_nic f.rules.nics (nics_at b)) [
  | none ↦ none
  | some (result, n) ↦
      some (replied (pos result) 0 nothing, record f { rules = record (f.rules) { nics = n } })
]

pub swap_get_log : State → Reply × State
swap_get_log f =
    let (rgn, cnt, q) = log_swap_log f.log in
    (
      replied (pos cnt) sizeof_int (log_region rgn),
      record f { log = q; rules = rule_swap_lists f.rules },
    )

-- `none`: the loop that adds a client did not end.
pub qxc_rm_devctl : State → Devctl → Option (Reply × State)
unfolding add_te add_nic swap_get_log
qxc_rm_devctl f m = elim m.dcmd [
  | qxc_add_te ↦ if ltb m.nbytes sizeof_exempt then some (refused, f) else some (add_te f m.bytes)
  | qxc_add_nic ↦ if ltb m.nbytes sizeof_nics then some (refused, f) else add_nic f m.bytes
  | qxc_get_info ↦
      if ltb m.nbytes sizeof_if_info
      then some (refused, f)
      else some (replied (pos 1) sizeof_if_info (info f.interface), f)
  | qxc_swap_get_log ↦ some (swap_get_log f)
  | other ↦ some (enosys, f)
]
