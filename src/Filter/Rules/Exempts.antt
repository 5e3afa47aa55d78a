-- ===== src/Filter/Rules/Exempts.antt =====
-- QX-billing/qxc_rules.c: the destinations that are exempt from taxes.
pub mod Match
pub mod Holds
use qnxstuff.Prelude.{
  ℕ, ◌+◌, bit_and, Bool, true, false, not, ◌||◌, List, [], ◌∷◌, ltb, ◌==◌, if◌then◌else◌, take, set,
}
use qnxstuff.Prelude.Buffers.{Half, Buffers, read, write}
use qnxstuff.Filter.Packet.{LogRecord, proto_dlc_ipv4, proto_ipv4_tcp, proto_ipv4_udp}

-- `qx_rule_exempt_t`
pub record RuleExempt : Type 0 where
  pub active : ℕ
  pub ip_mask : ℕ
  pub ip_addr : ℕ
  pub ip_proto : ℕ
  pub ip_port_lo : ℕ
  pub ip_port_hi : ℕ
  pub dlc_proto : ℕ

-- The variables `ex_*` of the module. `ex_rul_active` and `ex_rul_shadow` point into `mem`.
pub record ExemptLists : Type 0 where
  pub mem : Buffers (List RuleExempt)
  pub ex_rul_active : Half
  pub ex_rul_shadow : Half
  pub ex_count : ℕ
  pub ex_active_count : ℕ
  pub ex_limit : ℕ

-- The body of the loop of `rule_match_exempt`: false where it says `continue`.
unfoldable pub rule_hit : LogRecord → RuleExempt → Bool
rule_hit pkt r =
    if not (r.dlc_proto == pkt.dlc_proto)
    then false
    else if not (pkt.dlc_proto == proto_dlc_ipv4)
    then true
    else if not (bit_and pkt.ip_host r.ip_mask == r.ip_addr)
    then false
    else if r.ip_proto == 0
    then true
    else if not (pkt.ip_proto == r.ip_proto)
    then false
    else if pkt.ip_proto == proto_ipv4_tcp || pkt.ip_proto == proto_ipv4_udp
    then not (ltb pkt.port_host r.ip_port_lo || ltb r.ip_port_hi pkt.port_host)
    else true

-- The loop over the rules of the active list.
unfoldable pub match_from : LogRecord → List RuleExempt → ℕ
match_from pkt [] = 0
match_from pkt (r ∷ rs) = let rest = match_from pkt rs in if rule_hit pkt r then r.active else rest

unfoldable pub rule_match_exempt : ExemptLists → LogRecord → ℕ
rule_match_exempt s pkt = match_from pkt (take s.ex_active_count (read s.ex_rul_active s.mem))

-- The rule copied behind those in the shadow list.
abbrev pub stored : ExemptLists → RuleExempt → ExemptLists
stored s rule = record s {
  mem = write s.ex_rul_shadow (set (read s.ex_rul_shadow s.mem) s.ex_count rule) s.mem;
  ex_count = s.ex_count + 1;
}

-- Returns 0 and adds nothing where the list is full.
pub rule_add_exempt : ExemptLists → RuleExempt → ℕ × ExemptLists
rule_add_exempt s rule = if s.ex_count == s.ex_limit then (0, s) else (1, stored s rule)

-- The first half of `rule_swap_lists`.
pub swap_exempts : ExemptLists → ExemptLists
swap_exempts s = record s {
  ex_rul_active = s.ex_rul_shadow;
  ex_active_count = s.ex_count;
  ex_rul_shadow = s.ex_rul_active;
  ex_count = 0;
}
