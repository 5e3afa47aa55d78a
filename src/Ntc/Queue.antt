-- ===== src/Ntc/Queue.antt =====
-- nfm-ntc/main.c and ntc_rm.c: the array `pktq` of captured packets, filled and read at its end.
pub mod Holds
pub mod Runs
use qnxstuff.Prelude.{
  ℕ, ◌+◌, ◌-◌, ◌*◌, ◌/◌, ◌%◌, ◌^◌, min, Bool, ◌||◌, not, Option, none, some, List, [], ◌∷◌, ◌++◌,
  ltb, ◌==◌, if◌then◌else◌, get_elem?, set, take, drop, bit_and,
}

-- PKT_LOG_SIZE, MAX_PKT_READ, MAX_PACKETS_LOGGED
abbrev pub pkt_log_size : ℕ
pkt_log_size = 42

abbrev pub max_pkt_read : ℕ
max_pkt_read = 50

abbrev pub max_packets_logged : ℕ
max_packets_logged = 500

-- PKT_DIR_IN and PKT_DIR_OUT
abbrev pub pkt_dir_in : ℕ
pkt_dir_in = 0

abbrev pub pkt_dir_out : ℕ
pkt_dir_out = 1

-- `pkt_info_t`; `headers` are its bytes from the field DLC to the field app.
pub record PktInfo : Type 0 where
  pub len : ℕ
  pub headers : List ℕ
  pub dir : ℕ

abbrev pub sizeof_pkt_info : ℕ
sizeof_pkt_info = 48

-- `pktq`, `num_packets` and the bits of the int `num_pkt_missed`
pub record Queue : Type 0 where
  pub pktq : List PktInfo
  pub num_packets : ℕ
  pub num_pkt_missed : ℕ

-- The head of a frame copied over what the element held.
abbrev pub captured : ℕ → List ℕ → ℕ → PktInfo → PktInfo
captured framelen frame dir old =
    let bufsize = min framelen pkt_log_size in
    record { len = framelen; headers = take bufsize frame ++ drop bufsize old.headers; dir = dir }

abbrev pub missed : Queue → Queue
missed q = record q { num_pkt_missed = (q.num_pkt_missed + 1) % 2 ^ 32 }

-- Step 3 of ntc_rx_up and ntc_rx_down; `limit` is `pkt_log_limit`. `none`: a write out of the array.
unfoldable pub log_packet : ℕ → ℕ → List ℕ → ℕ → Queue → Option Queue
log_packet limit framelen frame dir q =
    if ltb limit (q.num_packets + 1)
    then some (missed q)
    else elim (get_elem? q.pktq q.num_packets) [
      | none ↦ none
      | some old ↦ some (record q {
        pktq = set q.pktq q.num_packets (captured framelen frame dir old);
        num_packets = q.num_packets + 1;
      })
    ]

-- How many elements a client's buffer of `nbytes` takes.
abbrev pub npkts : ℕ → ℕ → ℕ
npkts nbytes num_packets = min (min max_pkt_read (nbytes / sizeof_pkt_info)) num_packets

-- The body of ntc_rm_read: the elements handed to the client, and the queue.
unfoldable pub take_packets : ℕ → Queue → List PktInfo × Queue
take_packets nbytes q =
    if ltb nbytes sizeof_pkt_info || q.num_packets == 0
    then ([], q)
    else let n = npkts nbytes q.num_packets in
      (take n (drop (q.num_packets - n) q.pktq), record q { num_packets = q.num_packets - n })

-- ntc_rm_read: `none` is ENOSYS. The test of `xtype` takes its bits by the outcome of the
-- comparison of the two constants, `mask != xtype_none`.
unfoldable pub ntc_rm_read :
    (mask xtype_none xtype nbytes : ℕ) → Queue → Option (List PktInfo × Queue)
unfolding take_packets
ntc_rm_read mask xtype_none xtype nbytes q =
    if bit_and xtype (if mask == xtype_none then 0 else 1) == 0
    then some (take_packets nbytes q)
    else none

-- NTC_FLUSH
abbrev pub flushed : Queue → Queue
flushed q = record q { num_packets = 0 }
