-- ===== src/Filter/Packet.antt =====
-- QX-billing/qx_logging.h and log_parse_pkt of QX-billing/qxc_logging.c: what is read off a frame.
-- The frame stands in the array `pkt_raw` of PKT_LOG_LEN bytes: the first `pkt_raw_len` of them are
-- the frame's, and what follows is whatever the stack held. Both are in the list `pkt_raw`.
-- The machine is little-endian, as the constants PROTO_DLC_* suppose.
pub mod Parse
use qnxstuff.Prelude.{
  ℕ, ◌+◌, ◌*◌, bit_and, Bool, true, false, not, ◌||◌, List, [], ◌∷◌, ltb, ◌==◌, if◌then◌else◌, take,
  drop,
}
use qnxstuff.Prelude.Memory.{byte_at, load16, load32}

-- `qx_log_t`. The fields are the values of the words in memory.
pub record LogRecord : Type 0 where
  pub mac : List ℕ
  pub dlc_proto : ℕ
  pub ip_clnt : ℕ
  pub ip_host : ℕ
  pub ip_proto : ℕ
  pub port_clnt : ℕ
  pub port_host : ℕ
  pub bytes_to_cli : ℕ
  pub bytes_to_host : ℕ

abbrev pub pkt_log_len : ℕ
pkt_log_len = 80

abbrev pub proto_dlc_ipv4 : ℕ
proto_dlc_ipv4 = 0x0008

abbrev pub proto_ipv4_tcp : ℕ
proto_ipv4_tcp = 6

abbrev pub proto_ipv4_udp : ℕ
proto_ipv4_udp = 17

-- `pkt_dir`: QXC_PKT_TOCLI, QXC_PKT_FROMCLI
pub data Direction : Type 0 where
  to_cli from_cli : Direction

-- `memset(pkt_parsed, 0, sizeof(qx_log_t))`
abbrev pub zeroed : LogRecord
zeroed = record {
  mac = 0 ∷ 0 ∷ 0 ∷ 0 ∷ 0 ∷ 0 ∷ [];
  dlc_proto = 0;
  ip_clnt = 0;
  ip_host = 0;
  ip_proto = 0;
  port_clnt = 0;
  port_host = 0;
  bytes_to_cli = 0;
  bytes_to_host = 0;
}

-- `ENDIAN_BE16` of the word at an offset
abbrev pub load_be16 : List ℕ → ℕ → ℕ
load_be16 bytes i = byte_at bytes i * 256 + byte_at bytes (i + 1)

-- Where the client's MAC address stands in the frame.
abbrev pub mac_offset : Direction → ℕ
mac_offset to_cli = 0
mac_offset from_cli = 6

abbrev pub with_addresses : Direction → ℕ → ℕ → LogRecord → LogRecord
with_addresses to_cli src dst p = record p { ip_host = src; ip_clnt = dst }
with_addresses from_cli src dst p = record p { ip_host = dst; ip_clnt = src }

abbrev pub with_ports : Direction → ℕ → ℕ → LogRecord → LogRecord
with_ports to_cli src dst p = record p { port_host = src; port_clnt = dst }
with_ports from_cli src dst p = record p { port_host = dst; port_clnt = src }

-- The last part: the ports of TCP and UDP.
unfoldable pub parse_ports : List ℕ → ℕ → Direction → ℕ → LogRecord → Bool × LogRecord
parse_ports raw len dir ip_len p =
    if p.ip_proto == proto_ipv4_tcp || p.ip_proto == proto_ipv4_udp
    then if ltb len (ip_len + 18)
      then (false, p)
      else (true, with_ports dir (load_be16 raw (ip_len + 14)) (load_be16 raw (ip_len + 16)) p)
    else (true, p)

-- The addresses and the protocol of the IPv4 header.
abbrev pub with_ip : List ℕ → Direction → LogRecord → LogRecord
with_ip raw dir p = record (with_addresses dir (load32 raw 26) (load32 raw 30) p) {
  ip_proto = byte_at raw 23;
}

-- The IPv4 header, at offset 14.
unfoldable pub parse_ipv4 : List ℕ → ℕ → Direction → LogRecord → Bool × LogRecord
unfolding parse_ports
parse_ipv4 raw len dir p =
    let h_ver = byte_at raw 14 in
    let ip_len = bit_and h_ver 0x0f * 4 in
    if not (bit_and h_ver 0xf0 == 0x40)
    then (false, p)
    else if ltb len (ip_len + 14)
    then (false, p)
    else parse_ports raw len dir ip_len (with_ip raw dir p)

-- The result and what `*pkt_parsed` holds on return.
unfoldable pub log_parse_pkt : List ℕ → ℕ → Direction → Bool × LogRecord
unfolding parse_ipv4
log_parse_pkt raw len dir =
    if ltb len 14
    then (false, zeroed)
    else let p : LogRecord = record zeroed {
      mac = take 6 (drop (mac_offset dir) raw);
      dlc_proto = load16 raw 12;
    } in
      if p.dlc_proto == proto_dlc_ipv4 then parse_ipv4 raw len dir p else (true, p)
