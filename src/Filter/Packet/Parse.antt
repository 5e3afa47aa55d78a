-- ===== src/Filter/Packet/Parse.antt =====
-- QX-billing/qxc_logging.c: what log_parse_pkt reads, and what it accepts.
use native.Mathlib.Decide.{ℕ_discrete, dec_lt}
use qnxstuff.Prelude.{
  ℕ, ◌+◌, ◌*◌, ◌≤◌, ◌<◌, ◌≡◌, refl, sym, ap, ◌∙◌, ◌≢◌, ◌⊎◌, inl, inr, ◌↔◌, bit_and, get_or_of_take,
  take-drop_of_take, ltb_of_lt, true, false, not, List, arith, ltb, ◌==◌, if◌then◌else◌, take,
  Bool-cases,
}
use qnxstuff.Prelude.Memory.{byte_at, load16, load32}
use qnxstuff.Filter.Packet.{
  LogRecord, Direction, to_cli, from_cli, proto_dlc_ipv4, proto_ipv4_tcp, proto_ipv4_udp,
  log_parse_pkt, parse_ipv4, parse_ports, with_ip, mac_offset,
}

-- The byte counters of the record are left at zero for the caller.
pub parse-bytes :
    (raw : List ℕ) (len : ℕ) (dir : Direction)
    → let p = (log_parse_pkt raw len dir).1 in (p.bytes_to_cli ≡ 0) × (p.bytes_to_host ≡ 0)
unfolding log_parse_pkt
parse-bytes raw len to_cli = ground arith
parse-bytes raw len from_cli = ground arith

-- What is accepted: an Ethernet header, and of IPv4 a header of version 4 whose length fits in the
-- frame, and for TCP and UDP the ports behind it.
pub data Readable (raw : List ℕ) (len : ℕ) : Type 0 where
  not_ipv4 : 14 ≤ len → load16 raw 12 ≢ proto_dlc_ipv4 → Readable raw len
  no_ports :
      14 ≤ len
      → load16 raw 12 ≡ proto_dlc_ipv4
      → bit_and (byte_at raw 14) 0xf0 ≡ 0x40
      → bit_and (byte_at raw 14) 0x0f * 4 + 14 ≤ len
      → byte_at raw 23 ≢ proto_ipv4_tcp
      → byte_at raw 23 ≢ proto_ipv4_udp
      → Readable raw len
  ports :
      14 ≤ len
      → load16 raw 12 ≡ proto_dlc_ipv4
      → bit_and (byte_at raw 14) 0xf0 ≡ 0x40
      → bit_and (byte_at raw 14) 0x0f * 4 + 18 ≤ len
      → (byte_at raw 23 ≡ proto_ipv4_tcp) ⊎ (byte_at raw 23 ≡ proto_ipv4_udp)
      → Readable raw len

Readable-parse :
    (raw : List ℕ) (len : ℕ) (dir : Direction)
    → Readable raw len
    → (log_parse_pkt raw len dir).0 ≡ true
unfolding log_parse_pkt
Readable-parse raw len dir (not_ipv4 l n) = ground arith
Readable-parse raw len dir (no_ports l d v h t u) = ground arith
Readable-parse raw len dir (ports l d v h p) = ground arith

parse-Readable :
    (raw : List ℕ) (len : ℕ) (dir : Direction)
    → (log_parse_pkt raw len dir).0 ≡ true
    → Readable raw len
unfolding log_parse_pkt
parse-Readable raw len dir e = elim (ℕ_discrete (load16 raw 12) proto_dlc_ipv4) [
  | no n ↦ not_ipv4 (ground arith) n
  | yes d ↦ elim (ℕ_discrete (byte_at raw 23) proto_ipv4_tcp) [
    | yes t ↦ ports (ground arith) d (ground arith) (ground arith) (inl t)
    | no nt ↦ elim (ℕ_discrete (byte_at raw 23) proto_ipv4_udp) [
      | yes u ↦ ports (ground arith) d (ground arith) (ground arith) (inr u)
      | no nu ↦ no_ports (ground arith) d (ground arith) (ground arith) nt nu
    ]
  ]
]

-- A frame is accepted exactly if it is readable in this sense.
pub parse_iff :
    (raw : List ℕ) (len : ℕ) (dir : Direction)
    → ((log_parse_pkt raw len dir).0 ≡ true) ↔ Readable raw len
parse_iff raw len dir = (parse-Readable raw len dir, Readable-parse raw len dir)

-- An IPv4 header of at least 20 bytes.
abbrev pub FullHeader : List ℕ → Type 0
FullHeader raw = 5 ≤ bit_and (byte_at raw 14) 0x0f

short_ipv4 :
    (raw : List ℕ) (len : ℕ) (dir : Direction) (p : LogRecord)
    → FullHeader raw
    → len < 34
    → parse_ipv4 raw len dir p ≡ (false, p)
unfolding parse_ipv4
short_ipv4 raw len dir p full short = elim (Bool-cases (bit_and (byte_at raw 14) 0xf0 == 0x40)) [
  | inr other ↦ rw other refl
  | inl four ↦ rw (four, ltb_of_lt len (bit_and (byte_at raw 14) 0x0f * 4 + 14) (omega arith)) refl
]

mac_fits : {len : ℕ} (dir : Direction) → ¬ (len < 14) → mac_offset dir + 6 ≤ len
mac_fits to_cli h = omega arith
mac_fits from_cli h = omega arith

module _ (raw raw' : List ℕ) (len : ℕ) (same : take len raw ≡ take len raw') (full : FullHeader raw)
    (full' : FullHeader raw') where
  same_at : (i : ℕ) → i < len → byte_at raw i ≡ byte_at raw' i
  same_at i = get_or_of_take len i raw raw' 0 same

  same_ports :
      (dir : Direction) (ip_len : ℕ) (p : LogRecord)
      → parse_ports raw len dir ip_len p ≡ parse_ports raw' len dir ip_len p
  unfolding parse_ports
  same_ports dir ip_len p = elim (dec_lt len (ip_len + 18)) [
    | yes short ↦ rw (ltb_of_lt len (ip_len + 18) short) refl
    | no fits ↦
        let a = same_at (ip_len + 14) (omega arith) in
        let b = same_at (ip_len + 14 + 1) (omega arith) in
        let c = same_at (ip_len + 16) (omega arith) in
        let d = same_at (ip_len + 16 + 1) (omega arith) in rw (a, b, c, d) refl
  ]

  same_ipv4 :
      (dir : Direction) (p : LogRecord) → parse_ipv4 raw len dir p ≡ parse_ipv4 raw' len dir p
  unfolding parse_ipv4
  same_ipv4 dir p = elim (dec_lt len 34) [
    | yes short ↦ short_ipv4 raw len dir p full short ∙ sym (short_ipv4 raw' len dir p full' short)
    | no fits ↦
        rw
          (
            same_at 14 (omega arith),
            same_at 23 (omega arith),
            same_at 26 (omega arith),
            same_at 27 (omega arith),
            same_at 28 (omega arith),
            same_at 29 (omega arith),
            same_at 30 (omega arith),
            same_at 31 (omega arith),
            same_at 32 (omega arith),
            same_at 33 (omega arith),
          )
          (ap
            (λ r.
              if not (bit_and (byte_at raw' 14) 0xf0 == 0x40)
              then (false, p)
              else if ltb len (bit_and (byte_at raw' 14) 0x0f * 4 + 14)
              then (false, p)
              else r)
            (same_ports dir (bit_and (byte_at raw' 14) 0x0f * 4) (with_ip raw' dir p)))
  ]

  -- With a full header, what is parsed depends on the bytes of the frame alone, and not on what the
  -- stack held behind them.
  pub parse_of_frame : (dir : Direction) → log_parse_pkt raw len dir ≡ log_parse_pkt raw' len dir
  unfolding log_parse_pkt
  parse_of_frame dir = elim (dec_lt len 14) [
    | yes short ↦ rw (ltb_of_lt len 14 short) refl
    | no fits ↦
        rw
          (
            same_at 12 (omega arith),
            same_at 13 (omega arith),
            take-drop_of_take len (mac_offset dir) 6 raw raw' same (mac_fits dir fits),
            same_ipv4 dir _,
          )
          refl
  ]

-- A frame of 15 bytes that claims IPv4 with no header at all is accepted, and its addresses are
-- read behind it, off the stack.
pub no_header_accepted :
    (raw : List ℕ)
    → load16 raw 12 ≡ proto_dlc_ipv4
    → byte_at raw 14 ≡ 0x40
    → byte_at raw 23 ≢ proto_ipv4_tcp
    → byte_at raw 23 ≢ proto_ipv4_udp
    → let (accepted, p) = log_parse_pkt raw 15 to_cli in
      (accepted ≡ true) × (p.ip_clnt ≡ load32 raw 30) × (p.ip_host ≡ load32 raw 26)
unfolding log_parse_pkt
no_header_accepted raw d v t u = rw (v, d) (ground arith)

-- The same frame, seen on its way to the client or from it: both are accepted or neither, and
-- what one calls the client's address and port, the other calls the host's.
pub parse_mirror :
    (raw : List ℕ) (len : ℕ)
    → let (ok_to, to) = log_parse_pkt raw len to_cli in
      let (ok_from, from) = log_parse_pkt raw len from_cli in
      (ok_to ≡ ok_from)
      × (to.dlc_proto ≡ from.dlc_proto)
      × (to.ip_proto ≡ from.ip_proto)
      × (to.ip_clnt ≡ from.ip_host)
      × (to.ip_host ≡ from.ip_clnt)
      × (to.port_clnt ≡ from.port_host)
      × (to.port_host ≡ from.port_clnt)
unfolding log_parse_pkt
parse_mirror raw len = ground arith
