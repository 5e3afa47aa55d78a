-- ===== src/Filter/Tests.antt =====
-- Runs of the filter module on small inputs, and the theorems at these inputs.
use mathlib.Core.Option
use qnxstuff.Prelude.{
  ◌+◌, ℕ, ◌≤◌, ◌≡◌, refl, ◌≢◌, true, false, none, some, List, [], ◌∷◌, ◌++◌, arith, length, ◌↔◌,
}
use qnxstuff.Prelude.Memory.{memcmp}
use qnxstuff.Prelude.Buffers.{first, second, read}
use qnxstuff.Filter.Packet.{LogRecord, to_cli, from_cli, zeroed, log_parse_pkt}
use qnxstuff.Filter.Packet.Parse.{
  parse_iff, parse_of_frame, parse_mirror, no_header_accepted, Readable,
}
use qnxstuff.Filter.Rules.{Rules, Mallocs, Call, loaded, rule_init_lists, run}
use qnxstuff.Filter.Rules.Exempts.{RuleExempt, match_from, rule_hit, rule_match_exempt}
use qnxstuff.Filter.Rules.Exempts.Match.{Decides, match_from-Decides}
use qnxstuff.Filter.Rules.Nics.{RuleNics, NicNode, fresh_node, search_from, rule_match_client}
use qnxstuff.Filter.Rules.Nics.Holds as NicsHolds
use qnxstuff.Filter.Rules.Nics.Tree.{IsTree}
use qnxstuff.Filter.Rules.Nics.Insert.{first-IsTree}
use qnxstuff.Filter.Rules.Spec
use qnxstuff.Filter.Rules.Spec.{Spec}
use qnxstuff.Filter.Rules.Refines.{Allocated, init-run_rules}
use qnxstuff.Filter.Log.{LogQueue, Regions, log_init, log_store_pkt}
use qnxstuff.Filter.Log.Spec as LogSpec
use qnxstuff.Filter.Log.Holds.{Granted}
use qnxstuff.Filter.State.{IfInfo, State, View, Shows}
use qnxstuff.Filter.Gate.{
  Npkt, Ids, Verdict, pass, block, inspect, calls_up, calls_down, qxc_rx_up, qxc_rx_down, ids_of,
}
use qnxstuff.Filter.Gate.Verdicts.{Inspected, inspect-Inspected}
use qnxstuff.Filter.Gate.Handled.{Handled, rx_each-Handled}
use qnxstuff.Filter.Gate.Billing.{Arrival, inspect_all, logged, all_due, inspect_all-logged}
use qnxstuff.Filter.Control.{Devctl, Command, qxc_rm_devctl}
use qnxstuff.Filter.Control.Effects.{effect, Answers, devctl-Answers}

abbrev client_mac : List ℕ
client_mac = 1 ∷ 2 ∷ 3 ∷ 4 ∷ 5 ∷ 6 ∷ []

-- 10.0.0.2, as its bytes lie in memory
abbrev client_ip : ℕ
client_ip = 0x0200000a

abbrev client : RuleNics
client = record { uid = 7; ip_addr = client_ip; mac = client_mac }

-- Anybody may reach 192.168.0.0/16 by TCP at ports 80 to 90.
abbrev local_web : RuleExempt
local_web = record {
  active = 2;
  ip_mask = 0x0000ffff;
  ip_addr = 0x0000a8c0;
  ip_proto = 6;
  ip_port_lo = 80;
  ip_port_hi = 90;
  dlc_proto = 0x0008;
}

abbrev blank_node : NicNode
blank_node = fresh_node (record { uid = 0; ip_addr = 0; mac = [] })

abbrev blank_rule : RuleExempt
blank_rule = record {
  active = 0;
  ip_mask = 0;
  ip_addr = 0;
  ip_proto = 0;
  ip_port_lo = 0;
  ip_port_hi = 0;
  dlc_proto = 0;
}

-- One exemption and one client in force.
abbrev rules : Rules
rules = record {
  exempts = record {
    mem = record {
      in_first = local_web ∷ blank_rule ∷ [];
      in_second = blank_rule ∷ blank_rule ∷ [];
    };
    ex_rul_active = first;
    ex_rul_shadow = second;
    ex_count = 0;
    ex_active_count = 1;
    ex_limit = 2;
  };
  nics = record {
    mem = record {
      in_first = fresh_node client ∷ blank_node ∷ [];
      in_second = blank_node ∷ blank_node ∷ [];
    };
    nc_rul_active = first;
    nc_rul_shadow = second;
    nc_rul_list = some first;
    nc_count = 0;
    nc_limit = 2;
  };
}

abbrev log : LogQueue
log = record {
  mem = record { in_first = zeroed ∷ zeroed ∷ []; in_second = zeroed ∷ zeroed ∷ [] };
  active_log = first;
  shadow_log = second;
  active_count = 0;
  shadow_count = 0;
  log_limit = 2;
  log_fd_num = 0;
}

abbrev no_interface : IfInfo
no_interface = record {
  cntrs = record {
    rx_bytes = 0;
    tx_bytes = 0;
    rx_pkts = 0;
    tx_pkts = 0;
    rx_pkt_blk = 0;
    tx_pkt_blk = 0;
    rx_pkt_msd = 0;
    tx_pkt_msd = 0;
  };
  cell = 0;
  endpoint = 1;
  iface = 2;
}

abbrev state : State
state = record {
  interface = no_interface;
  ifname = b'e' ∷ b'n' ∷ b'0' ∷ [];
  rules = rules;
  log = log;
}

abbrev view : View
view = record {
  rules = record {
    exempts = local_web ∷ [];
    coming_exempts = [];
    max_exempts = 2;
    nics = client ∷ [];
    coming_nics = [];
    max_nics = 2;
  };
  current = [];
  handed = [];
  limit = 2;
}

apart : first ≢ second
apart e = cc

one : IsTree (fresh_node client ∷ blank_node ∷ []) 1
one = (first-IsTree (blank_node ∷ blank_node ∷ []) client (omega arith)).0

state-Shows : Shows state view
state-Shows = record {
  rules = record {
    exempts = record {
      apart = apart;
      room = λ h. elim h as (λ k. 2 ≤ length (read k rules.exempts.mem)) [
        | first ↦ omega arith
        | second ↦ omega arith
      ];
      counted = refl;
      bounded = omega arith;
      in_force = refl;
      to_come = refl;
    };
    max_exempts = refl;
    nics = record {
      apart = apart;
      room = λ h. elim h as (λ k. 2 ≤ length (read k rules.nics.mem)) [
        | first ↦ omega arith
        | second ↦ omega arith
      ];
      counted = refl;
      bounded = omega arith;
      in_force = NicsHolds.tree first apart (omega arith) (omega arith) one refl;
      grown = NicsHolds.empty-IsTree (blank_node ∷ blank_node ∷ []);
      to_come = refl;
    };
    max_nics = refl;
  };
  log = record {
    apart = apart;
    numbered = refl;
    small = omega arith;
    room = λ h. elim h as (λ k. 2 ≤ length (read k log.mem)) [
      | first ↦ omega arith
      | second ↦ omega arith
    ];
    counted = refl;
    bounded = omega arith;
    stored = refl;
    shown = refl;
  };
  limit = refl;
}

-- An ICMP packet from the client to 8.8.8.8.
abbrev ping_frame : List ℕ
ping_frame =
    9 ∷ 9 ∷ 9 ∷ 9 ∷ 9 ∷ 9 ∷ client_mac
    ++ 8 ∷ 0 ∷ 0x45 ∷ 0 ∷ 0 ∷ 20 ∷ 0 ∷ 0 ∷ 0 ∷ 0 ∷ 64 ∷ 1 ∷ 0 ∷ 0 ∷ 10 ∷ 0 ∷ 0 ∷ 2 ∷ 8 ∷ 8 ∷ 8 ∷ 8
      ∷ []

abbrev ping : Npkt
ping = record {
  is_msg = false;
  advertises = none;
  framelen = 34;
  frame = ping_frame;
  cell = 0;
  endpoint = 1;
  iface = 2;
}

abbrev ids : Ids
ids = record { cell = 0; endpoint = 1; iface = 2 }

abbrev arrivals : List Arrival
arrivals =
    record { dir = from_cli; npkt = ping; stack = [] }
    ∷ record { dir = to_cli; npkt = ping; stack = [] }
    ∷ []

inspect-Inspected_example :
    (v : Verdict) × (f' : State) × (b : View) × (inspect state from_cli ping [] ≡ some (v, f'))
    × Shows f' b
    × Inspected view from_cli ping [] v b
inspect-Inspected_example = inspect-Inspected from_cli ping [] state-Shows

inspect_all-logged_example :
    (vs : List Verdict) × (f' : State) × (b : View) × (inspect_all state arrivals ≡ some (vs, f'))
    × Shows f' b
    × (b.rules ≡ view.rules)
    × (logged b.current ≡ logged view.current + all_due view.rules arrivals vs)
inspect_all-logged_example = inspect_all-logged arrivals state-Shows

rx_each-Handled_example :
    ((v : Verdict) × (f' : State) × (qxc_rx_up state ping ids [] 0 ≡ some (calls_up v 0, f'))
      × Handled state view from_cli ping ids [] v f')
    × ((v : Verdict) × (f' : State) × (qxc_rx_down state ping [] ≡ some (calls_down v, f'))
        × Handled state view to_cli ping (ids_of ping) [] v f')
rx_each-Handled_example = rx_each-Handled state-Shows ping [] ids 0

-- The client's packet passes; read the other way it is from a stranger, and is blocked.
ping_passes : Option.map (λ (r : Verdict × State). r.0) (inspect state from_cli ping []) ≡ some pass
unfolding inspect log_parse_pkt rule_match_exempt match_from rule_hit rule_match_client search_from
    memcmp log_store_pkt
ping_passes = refl

stranger_blocked :
    Option.map (λ (r : Verdict × State). r.0) (inspect state to_cli ping []) ≡ some block
unfolding inspect log_parse_pkt rule_match_exempt match_from rule_hit rule_match_client search_from
    memcmp log_store_pkt
stranger_blocked = refl

abbrev mallocs : Mallocs
mallocs = record {
  for_ex_active = some (blank_rule ∷ blank_rule ∷ []);
  for_ex_shadow = some (blank_rule ∷ blank_rule ∷ []);
  for_nc_active = some (blank_node ∷ blank_node ∷ []);
  for_nc_shadow = some (blank_node ∷ blank_node ∷ []);
}

mallocs-Allocated : Allocated mallocs 2 2
mallocs-Allocated = record {
  ex_active = blank_rule ∷ blank_rule ∷ [];
  ex_shadow = blank_rule ∷ blank_rule ∷ [];
  nc_active = blank_node ∷ blank_node ∷ [];
  nc_shadow = blank_node ∷ blank_node ∷ [];
  gave_ex_active = refl;
  gave_ex_shadow = refl;
  gave_nc_active = refl;
  gave_nc_shadow = refl;
  size_ex_active = refl;
  size_ex_shadow = refl;
  size_nc_active = refl;
  size_nc_shadow = refl;
}

abbrev from_client : LogRecord
from_client = record zeroed { mac = client_mac; ip_clnt = client_ip }

abbrev rule_calls : List Call
rule_calls =
    Call.add_nic client
    ∷ Call.match_client from_client
    ∷ Call.swap_lists
    ∷ Call.match_client from_client
    ∷ []

init-run_rules_example :
    ((rule_init_lists loaded mallocs 2 2).0 ≡ 1)
    × (run (rule_init_lists loaded mallocs 2 2).1 rule_calls
        ≡ some (Spec.run (Spec.empty 2 2) rule_calls))
init-run_rules_example = init-run_rules mallocs-Allocated rule_calls

-- A client counts from the swap after it was added.
rule_calls-run : Spec.run (Spec.empty 2 2) rule_calls ≡ 1 ∷ 0 ∷ 0 ∷ 1 ∷ []
unfolding Spec.run Spec.step Spec.add_nic Spec.swap Spec.is_client memcmp
rule_calls-run = refl

abbrev regions : Regions
regions = record {
  opened_first = true;
  opened_second = true;
  truncated_first = true;
  truncated_second = true;
  mapped_first = some (zeroed ∷ zeroed ∷ []);
  mapped_second = some (zeroed ∷ zeroed ∷ []);
}

regions-Granted : Granted regions 2 (zeroed ∷ zeroed ∷ []) (zeroed ∷ zeroed ∷ [])
regions-Granted = record {
  opened = (refl, refl);
  truncated = (refl, refl);
  map_first = refl;
  map_second = refl;
  size_first = refl;
  size_second = refl;
}

abbrev log_calls : List LogSpec.Call
log_calls = LogSpec.store from_client ∷ LogSpec.swap ∷ LogSpec.store zeroed ∷ LogSpec.look ∷ []

init-run_log_example :
    ((log_init log regions 2).0 ≡ 1)
    × (LogSpec.run (LogSpec.start (log_init log regions 2).1) log_calls
        ≡ LogSpec.spec_run (LogSpec.empty 2) log_calls)
init-run_log_example =
    LogSpec.init-run_log log regions 2 (zeroed ∷ zeroed ∷ []) (zeroed ∷ zeroed ∷ []) log_calls
      regions-Granted (omega arith)

abbrev command : Devctl
command = record { dcmd = Command.qxc_swap_get_log; nbytes = 4; bytes = [] }

devctl-Answers_example :
    Answers state view (qxc_rm_devctl state command) (effect state view command)
devctl-Answers_example = devctl-Answers state-Shows command

parse_iff_example : ((log_parse_pkt ping_frame 34 from_cli).0 ≡ true) ↔ Readable ping_frame 34
parse_iff_example = parse_iff ping_frame 34 from_cli

parse_of_frame_example :
    log_parse_pkt (ping_frame ++ 1 ∷ 2 ∷ []) 34 to_cli ≡ log_parse_pkt ping_frame 34 to_cli
parse_of_frame_example =
    parse_of_frame (ping_frame ++ 1 ∷ 2 ∷ []) ping_frame 34 refl (omega arith) (omega arith) to_cli

parse_mirror_example :
    let (ok_to, to) = log_parse_pkt ping_frame 34 to_cli in
    let (ok_from, from) = log_parse_pkt ping_frame 34 from_cli in
    (ok_to ≡ ok_from)
    × (to.dlc_proto ≡ from.dlc_proto)
    × (to.ip_proto ≡ from.ip_proto)
    × (to.ip_clnt ≡ from.ip_host)
    × (to.ip_host ≡ from.ip_clnt)
    × (to.port_clnt ≡ from.port_host)
    × (to.port_host ≡ from.port_clnt)
parse_mirror_example = parse_mirror ping_frame 34

-- 15 bytes of a frame, and what the stack held behind them.
abbrev headless : List ℕ
headless =
    9 ∷ 9 ∷ 9 ∷ 9 ∷ 9 ∷ 9 ∷ 1 ∷ 2 ∷ 3 ∷ 4 ∷ 5 ∷ 6 ∷ 8 ∷ 0 ∷ 0x40 ∷ 0 ∷ 0 ∷ 0 ∷ 0 ∷ 0 ∷ 0 ∷ 0 ∷ 0 ∷ 1
    ∷ 0 ∷ 0 ∷ 7 ∷ 7 ∷ 7 ∷ 7 ∷ 10 ∷ 0 ∷ 0 ∷ 2 ∷ []

headless_accepted :
    let (accepted, p) = log_parse_pkt headless 15 to_cli in
    (accepted ≡ true) × (p.ip_clnt ≡ 0x0200000a) × (p.ip_host ≡ 0x07070707)
headless_accepted = no_header_accepted headless refl refl (omega arith) (omega arith)

match_from-Decides_example :
    Decides from_client (match_from from_client (local_web ∷ [])) (local_web ∷ [])
match_from-Decides_example = match_from-Decides from_client (local_web ∷ [])
