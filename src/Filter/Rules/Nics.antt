-- ===== src/Filter/Rules/Nics.antt =====
-- QX-billing/qxc_rules.c: the clients that may pass, in a search tree that lives in an array. The
-- links are indices of the same array; a link to NULL is `none`.
pub mod Tree
pub mod Insert
pub mod Holds
use qnxstuff.Prelude.{
  ℕ, zero, suc, ◌+◌, Ordering, Bool, true, false, ◌&&◌, Option, none, some, List, ◌==◌,
  if◌then◌else◌, get_elem?, set,
}
use qnxstuff.Prelude.Memory.{memcmp}
use qnxstuff.Prelude.Buffers.{Half, Buffers, read, write}
use qnxstuff.Filter.Packet.{LogRecord}

-- `qx_rule_nics_t`
pub record RuleNics : Type 0 where
  pub uid : ℕ
  pub ip_addr : ℕ
  pub mac : List ℕ

-- `qxc_rule_nics_t`
pub record NicNode : Type 0 where
  pub rule : RuleNics
  pub left : Option ℕ
  pub right : Option ℕ

-- The variables `nc_*` of the module. `nc_rul_list` is NULL or points at the root, the first
-- element of an array.
pub record NicLists : Type 0 where
  pub mem : Buffers (List NicNode)
  pub nc_rul_active : Half
  pub nc_rul_shadow : Half
  pub nc_rul_list : Option Half
  pub nc_count : ℕ
  pub nc_limit : ℕ

-- `result < 0` and `result == 0` of the sign of a `memcmp`.
abbrev pub is_lt : Ordering → Bool
is_lt Ordering.lt = true
is_lt _ = false

abbrev pub is_eq : Ordering → Bool
is_eq Ordering.eq = true
is_eq _ = false

-- Where both loops go from a node that is not the one wanted.
abbrev pub toward : NicNode → List ℕ → Option ℕ
toward n mac = if is_lt (memcmp 6 n.rule.mac mac) then n.left else n.right

-- The test by which `rule_match_client` answers 1.
abbrev pub client_hit : LogRecord → RuleNics → Bool
client_hit pkt r = is_eq (memcmp 6 r.mac pkt.mac) && r.ip_addr == pkt.ip_clnt

-- The loop of `rule_match_client`, from the node `list`. `none`: the fuel ran out, or a link led
-- outside the array.
unfoldable pub search_from : ℕ → List NicNode → LogRecord → Option ℕ → Option ℕ
search_from fuel buf pkt none = some 0
search_from zero buf pkt (some i) = none
search_from (suc fuel) buf pkt (some i) = elim (get_elem? buf i) [
  | none ↦ none
  | some n ↦ elim (client_hit pkt n.rule) [
    | true ↦ some 1
    | false ↦ search_from fuel buf pkt (toward n pkt.mac)
  ]
]

unfoldable pub rule_match_client : NicLists → LogRecord → Option ℕ
rule_match_client s pkt = elim s.nc_rul_list [
  | none ↦ some 0
  | some h ↦ search_from s.nc_limit (read h s.mem) pkt (some 0)
]

abbrev pub link_left : NicNode → ℕ → NicNode
link_left n k = record n { left = some k }

abbrev pub link_right : NicNode → ℕ → NicNode
link_right n k = record n { right = some k }

-- The node with its link toward `mac` set to `k`.
abbrev pub linked : NicNode → List ℕ → ℕ → NicNode
linked n mac k = if is_lt (memcmp 6 n.rule.mac mac) then link_left n k else link_right n k

-- The loop of `rule_add_nic`: links node `k` in below node `nic`. `none` as in `search_from`.
pub link_in : ℕ → List NicNode → List ℕ → ℕ → ℕ → Option (List NicNode)
link_in zero buf mac k nic = none
link_in (suc fuel) buf mac k nic = elim (get_elem? buf nic) [
  | none ↦ none
  | some n ↦ elim (toward n mac) [
    | none ↦ some (set buf nic (linked n mac k))
    | some j ↦ link_in fuel buf mac k j
  ]
]

-- The copy of the rule into the shadow array, with no links.
abbrev pub fresh_node : RuleNics → NicNode
fresh_node rule = record { rule = rule; left = none; right = none }

abbrev pub with_shadow : NicLists → List NicNode → NicLists
with_shadow s buf = record s { mem = write s.nc_rul_shadow buf s.mem; nc_count = s.nc_count + 1 }

-- Returns 0 and adds nothing where the array is full.
pub rule_add_nic : NicLists → RuleNics → Option (ℕ × NicLists)
rule_add_nic s rule =
    let buf = set (read s.nc_rul_shadow s.mem) s.nc_count (fresh_node rule) in
    if s.nc_count == s.nc_limit
    then some (0, s)
    else if s.nc_count == 0
    then some (s.nc_count + 1, with_shadow s buf)
    else elim (link_in s.nc_count buf rule.mac s.nc_count 0) [
      | none ↦ none
      | some b ↦ some (1, with_shadow s b)
    ]

-- The second half of `rule_swap_lists`.
pub swap_nics : NicLists → NicLists
swap_nics s = record s {
  nc_rul_list = if s.nc_count == 0 then none else some s.nc_rul_shadow;
  nc_count = 0;
  nc_rul_active = s.nc_rul_shadow;
  nc_rul_shadow = s.nc_rul_active;
}
