-- ===== src/Filter/Gate.antt =====
-- QX-billing/qxc_main.c: the two functions that see the packets that flow, qxc_rx_up for those from
-- the clients and qxc_rx_down for those to them.
pub mod Verdicts
pub mod Handled
pub mod Billing
use qnxstuff.Prelude.{
  ℕ, ◌+◌, Bool, true, false, not, ◌||◌, Option, none, some, List, [], ◌∷◌, ◌++◌, ◌==◌, min,
  if◌then◌else◌, take, drop,
}
use qnxstuff.Prelude.Strings.{stricmp_eq}
use qnxstuff.Filter.Packet.{LogRecord, Direction, to_cli, from_cli, pkt_log_len, log_parse_pkt}
use qnxstuff.Filter.Rules.Exempts.{rule_match_exempt}
use qnxstuff.Filter.Rules.Nics.{rule_match_client}
use qnxstuff.Filter.Log.{log_store_pkt}
use qnxstuff.Filter.State.{State, IfInfo}

-- What the module reads of an `npkt_t`: whether `flags` has _NPKT_MSG, the frame, the interface that
-- it leaves by, and, of a message that advertises an interface, the name in it.
pub record Npkt : Type 0 where
  pub is_msg : Bool
  pub advertises : Option (List ℕ)
  pub framelen : ℕ
  pub frame : List ℕ
  pub cell : ℕ
  pub endpoint : ℕ
  pub iface : ℕ

-- The numbers by which io-net names an interface.
pub record Ids : Type 0 where
  pub cell : ℕ
  pub endpoint : ℕ
  pub iface : ℕ

-- The labels that both functions jump to.
pub data Verdict : Type 0 where
  pass block : Verdict

-- The calls of io-net that they make of the packet.
pub data IoCall : Type 0 where
  tx_up tx_down tx_done : IoCall

-- RET_RME_*
abbrev pub active_only : ℕ
active_only = 1

abbrev pub everyone : ℕ
everyone = 2

abbrev pub raw_len : Npkt → ℕ
raw_len n = min n.framelen pkt_log_len

-- `pkt_raw` after the frame's head was copied over what the stack held.
abbrev pub raw_bytes : Npkt → List ℕ → List ℕ
raw_bytes n stack = take (raw_len n) n.frame ++ drop (raw_len n) stack

-- `bytes_to_host` or `bytes_to_cli`
abbrev pub with_bytes : Direction → ℕ → LogRecord → LogRecord
with_bytes from_cli n p = record p { bytes_to_host = n }
with_bytes to_cli n p = record p { bytes_to_cli = n }

-- Steps 5 and 6, for a client that may pass.
unfoldable pub charge : State → LogRecord → ℕ → Verdict × State
charge f p exempt =
    let (done, q) = log_store_pkt f.log p in
    if exempt == active_only
    then (pass, f)
    else if done
    then (pass, record f { log = q })
    else (block, record f { log = q })

-- Steps 3 to 6, for a packet that was parsed.
unfoldable pub judge : State → LogRecord → Option (Verdict × State)
unfolding charge
judge f p =
    let exempt = rule_match_exempt f.rules.exempts p in
    if exempt == everyone then some (pass, f) else elim (rule_match_client f.rules.nics p) [
      | none ↦ none
      | some result ↦ if result == 0 then some (block, f) else some (charge f p exempt)
    ]

-- Steps 2 to 6. `none`: the search for the client did not end.
unfoldable pub inspect : State → Direction → Npkt → List ℕ → Option (Verdict × State)
unfolding judge
inspect f dir n stack =
    let (parsed, p) = log_parse_pkt (raw_bytes n stack) (raw_len n) dir in
    if not parsed then some (block, f) else judge f (with_bytes dir n.framelen p)

abbrev pub elsewhere : State → Ids → Bool
elsewhere f ids =
    not (f.interface.cell == ids.cell)
    || not (f.interface.endpoint == ids.endpoint)
    || not (f.interface.iface == ids.iface)

-- An advertised interface of the configured name becomes the one of interest.
pub see_message : State → Npkt → Ids → State
see_message f n ids = elim n.advertises [
  | none ↦ f
  | some name ↦
      if stricmp_eq f.ifname name
      then record f {
        interface = record (f.interface) {
          cell = ids.cell;
          endpoint = ids.endpoint;
          iface = ids.iface;
        };
      }
      else f
]

-- `tx_up` returned `taken`, the number of modules that took the packet; 0 takes it back.
abbrev pub calls_up : Verdict → ℕ → List IoCall
calls_up pass taken = if taken == 0 then tx_up ∷ tx_done ∷ [] else tx_up ∷ []
calls_up block taken = tx_done ∷ []

pub qxc_rx_up : State → Npkt → Ids → List ℕ → ℕ → Option (List IoCall × State)
unfolding inspect see_message
qxc_rx_up f n ids stack taken =
    if n.is_msg
    then some (calls_up pass taken, see_message f n ids)
    else if elsewhere f ids
    then some (calls_up pass taken, f)
    else elim (inspect f from_cli n stack) [
      | none ↦ none
      | some (v, f') ↦ some (calls_up v taken, f')
    ]

abbrev pub calls_down : Verdict → List IoCall
calls_down pass = tx_down ∷ []
calls_down block = tx_done ∷ []

abbrev pub ids_of : Npkt → Ids
ids_of n = record { cell = n.cell; endpoint = n.endpoint; iface = n.iface }

pub qxc_rx_down : State → Npkt → List ℕ → Option (List IoCall × State)
unfolding inspect
qxc_rx_down f n stack =
    if n.is_msg
    then some (calls_down pass, f)
    else if elsewhere f (ids_of n)
    then some (calls_down pass, f)
    else elim (inspect f to_cli n stack) [ none ↦ none | some (v, f') ↦ some (calls_down v, f') ]
