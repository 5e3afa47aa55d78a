-- ===== src/Filter/State.antt =====
-- The variables of QX-billing's filter module together (QX-billing/qxc_main.c, qxc_common.h).
use qnxstuff.Prelude.{ℕ, ◌≡◌, List}
use qnxstuff.Filter.Packet.{LogRecord}
use qnxstuff.Filter.Rules.{Rules}
use qnxstuff.Filter.Rules.Spec.{Spec}
use qnxstuff.Filter.Rules.Refines.{Refines}
use qnxstuff.Filter.Log.{LogQueue}
use qnxstuff.Filter.Log.Holds.{Holds}

-- `if_counters_t`
pub record IfCounters : Type 0 where
  pub rx_bytes : ℕ
  pub tx_bytes : ℕ
  pub rx_pkts : ℕ
  pub tx_pkts : ℕ
  pub rx_pkt_blk : ℕ
  pub tx_pkt_blk : ℕ
  pub rx_pkt_msd : ℕ
  pub tx_pkt_msd : ℕ

-- `qxc_if_info_t`
pub record IfInfo : Type 0 where
  pub cntrs : IfCounters
  pub cell : ℕ
  pub endpoint : ℕ
  pub iface : ℕ

-- `interface`, `ifname` and the variables of the rules and of the log.
pub record State : Type 0 where
  pub interface : IfInfo
  pub ifname : List ℕ
  pub rules : Rules
  pub log : LogQueue

-- What the state is to a reader of the module's interface: rules in force and to come, records
-- stored since the last swap and those that it handed over.
pub record View : Type 0 where
  pub rules : Spec
  pub current : List LogRecord
  pub handed : List LogRecord
  pub limit : ℕ

pub record Shows (f : State) (a : View) : Type 0 where
  pub rules : Refines f.rules a.rules
  pub log : Holds f.log a.current a.handed
  pub limit : f.log.log_limit ≡ a.limit
