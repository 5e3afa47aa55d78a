-- ===== src/Filter/Rules/Exempts/Match.antt =====
-- QX-billing/qxc_rules.c: which packets a tax exemption covers, and which rule decides.
use mathlib.Core.Bool.{false≢true}
use native.Mathlib.Decide.{ℕ_discrete}
use qnxstuff.Prelude.{
  sym, ◌∙◌, ℕ, ◌≤◌, ◌≡◌, refl, inl, inr, ◌≢◌, ◌↔◌, bit_and, true, List, [], ◌∷◌, arith, Bool-cases,
}
use qnxstuff.Filter.Packet.{LogRecord, proto_dlc_ipv4, proto_ipv4_tcp, proto_ipv4_udp}
use qnxstuff.Filter.Rules.Exempts.{RuleExempt, rule_hit, match_from}

-- The ports of a rule are read for TCP and UDP only.
pub data PortsFit (r : RuleExempt) (pkt : LogRecord) : Type 0 where
  no_ports : pkt.ip_proto ≢ proto_ipv4_tcp → pkt.ip_proto ≢ proto_ipv4_udp → PortsFit r pkt
  in_range : r.ip_port_lo ≤ pkt.port_host → pkt.port_host ≤ r.ip_port_hi → PortsFit r pkt

pub data ProtocolFits (r : RuleExempt) (pkt : LogRecord) : Type 0 where
  any_protocol : r.ip_proto ≡ 0 → ProtocolFits r pkt
  this_protocol : r.ip_proto ≢ 0 → pkt.ip_proto ≡ r.ip_proto → PortsFit r pkt → ProtocolFits r pkt

-- What a rule covers: all of another protocol than IPv4, and of IPv4 the packets to a network,
-- perhaps of one protocol, perhaps to a range of ports.
pub data Covers (r : RuleExempt) (pkt : LogRecord) : Type 0 where
  not_ipv4 : r.dlc_proto ≡ pkt.dlc_proto → pkt.dlc_proto ≢ proto_dlc_ipv4 → Covers r pkt
  ipv4 :
      r.dlc_proto ≡ pkt.dlc_proto
      → pkt.dlc_proto ≡ proto_dlc_ipv4
      → bit_and pkt.ip_host r.ip_mask ≡ r.ip_addr
      → ProtocolFits r pkt
      → Covers r pkt

Covers-hit : (r : RuleExempt) (pkt : LogRecord) → Covers r pkt → rule_hit pkt r ≡ true
unfolding rule_hit
Covers-hit r pkt (not_ipv4 d n) = ground arith
Covers-hit r pkt (ipv4 d v a (any_protocol z)) = ground arith
Covers-hit r pkt (ipv4 d v a (this_protocol z p (no_ports t u))) = ground arith
Covers-hit r pkt (ipv4 d v a (this_protocol z p (in_range lo hi))) = ground arith

hit-Covers : (r : RuleExempt) (pkt : LogRecord) → rule_hit pkt r ≡ true → Covers r pkt
unfolding rule_hit
hit-Covers r pkt h = elim (ℕ_discrete pkt.dlc_proto proto_dlc_ipv4) [
  | no other ↦ not_ipv4 (ground arith) other
  | yes is_ip ↦ ipv4 (ground arith) is_ip (ground arith) (elim (ℕ_discrete r.ip_proto 0) [
    | yes z ↦ any_protocol z
    | no nz ↦ this_protocol nz (ground arith) (elim (ℕ_discrete pkt.ip_proto proto_ipv4_tcp) [
      | yes t ↦ in_range (ground arith) (ground arith)
      | no nt ↦ elim (ℕ_discrete pkt.ip_proto proto_ipv4_udp) [
        | yes u ↦ in_range (ground arith) (ground arith)
        | no nu ↦ no_ports nt nu
      ]
    ])
  ])
]

-- The tests of the loop decide exactly what a rule covers.
pub hit_iff : (r : RuleExempt) (pkt : LogRecord) → (rule_hit pkt r ≡ true) ↔ Covers r pkt
hit_iff r pkt = (hit-Covers r pkt, Covers-hit r pkt)

-- The rule that decides: the first that covers the packet. Its `active` is the answer, and 0 if
-- there is none.
pub data Decides (pkt : LogRecord) (answer : ℕ) : List RuleExempt → Type 0 where
  nobody : answer ≡ 0 → Decides pkt answer []
  this_one :
      (r : RuleExempt) {rs : List RuleExempt}
      → Covers r pkt
      → answer ≡ r.active
      → Decides pkt answer (r ∷ rs)
  a_later :
      (r : RuleExempt) {rs : List RuleExempt}
      → ¬ Covers r pkt
      → Decides pkt answer rs
      → Decides pkt answer (r ∷ rs)

pub match_from-Decides :
    (pkt : LogRecord) (rs : List RuleExempt) → Decides pkt (match_from pkt rs) rs
unfolding match_from
match_from-Decides pkt [] = nobody refl
match_from-Decides pkt (r ∷ rs) = elim (Bool-cases (rule_hit pkt r)) [
  | inl hit ↦ this_one r (hit-Covers r pkt hit) (rw hit)
  | inr miss ↦
      a_later r (λ c. false≢true (sym miss ∙ Covers-hit r pkt c))
        (rw miss (match_from-Decides pkt rs))
]
