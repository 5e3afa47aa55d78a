-- ===== src/Ntc/Gate.antt =====
-- nfm-ntc/main.c: what the two functions of the filter do with a packet.
pub mod Handled
pub mod Arp
use qnxstuff.Prelude.{
  ℕ, ◌+◌, ◌*◌, ◌%◌, ◌^◌, Bool, true, false, not, Option, none, some, List, [], ◌∷◌, ◌==◌,
  if◌then◌else◌,
}
use qnxstuff.Prelude.Int.{ℤ, pos, negsuc}
use qnxstuff.Prelude.Memory.{load16}
use qnxstuff.Ntc.Blocks.{MacCmp, Blocks, no_blocks, mac_at, lookup}
use qnxstuff.Ntc.Ifaces.{IfInfo, Ids, of_interest, dying, advert}
use qnxstuff.Ntc.Queue.{PktInfo, Queue, pkt_dir_in, pkt_dir_out, max_packets_logged, log_packet}

-- `blkinfo_t`
pub record BlkInfo : Type 0 where
  pub in_pkt : ℕ
  pub out_pkt : ℕ

-- The variables of the module.
pub record State : Type 0 where
  pub blocks : Blocks
  pub ifs : List IfInfo
  pub queue : Queue
  pub num_pkt_blocked : BlkInfo

-- The variables at start, with the array that `pktq` points to.
abbrev pub variables : List PktInfo → State
variables pktq = record {
  blocks = no_blocks;
  ifs = [];
  queue = record { pktq = pktq; num_packets = 0; num_pkt_missed = 0 };
  num_pkt_blocked = record { in_pkt = 0; out_pkt = 0 };
}

-- ntc_init: whether io-net registered the module and its pattern, the array that it allocated for the
-- queue, and whether the thread of the resource manager was created.
pub ntc_init : (registered pattern : Bool) → List PktInfo → (thread : Bool) → ℤ × State
ntc_init registered pattern pktq thread =
    if not registered
    then (negsuc 0, variables [])
    else if not pattern
    then (negsuc 0, variables [])
    else if thread
    then (pos 0, variables pktq)
    else (negsuc 0, variables pktq)

-- What `flags` and the head of an `npkt_t` say of a message: _NPKT_MSG_DYING, the advertisement of
-- an interface with its name, or any other.
pub data Message : Type 0 where
  is_dying : Message
  is_advert : List ℕ → Message
  is_other : Message

-- `npkt_t`: a message or a packet, its bytes and the interface that it leaves by.
pub record Npkt : Type 0 where
  pub message : Option Message
  pub framelen : ℕ
  pub frame : List ℕ
  pub ids : Ids

pub data Direction : Type 0 where
  inbound outbound : Direction

-- The calls of io-net made of the packet.
pub data IoCall : Type 0 where
  tx_up tx_down tx_done : IoCall

pub data Verdict : Type 0 where
  pass block : Verdict

abbrev pub arp_frame : ℕ
arp_frame = 0x0806

-- MAC_ADDR_LENGTH
abbrev pub mac_addr_length : ℕ
mac_addr_length = 6

-- `*TOP == ARP_FRAME`
pub is_arp : List ℕ → Bool
is_arp frame = load16 frame (2 * mac_addr_length) == arp_frame

-- The address compared: the source of a packet that comes in, the destination of one that leaves.
unfoldable pub frame_mac : Direction → List ℕ → MacCmp
frame_mac inbound frame = mac_at frame mac_addr_length
frame_mac outbound frame = mac_at frame 0

abbrev pub dir_mark : Direction → ℕ
dir_mark inbound = pkt_dir_in
dir_mark outbound = pkt_dir_out

-- `atomic_add` to the counter of the direction
abbrev pub count_blocked : Direction → BlkInfo → BlkInfo
count_blocked inbound b = record b { in_pkt = (b.in_pkt + 1) % 2 ^ 32 }
count_blocked outbound b = record b { out_pkt = (b.out_pkt + 1) % 2 ^ 32 }

-- Step 3. `none`: a write out of the queue.
unfoldable pub log_step : State → Direction → Npkt → Option (Verdict × State)
log_step s dir n = elim (log_packet max_packets_logged n.framelen n.frame (dir_mark dir) s.queue) [
  | none ↦ none
  | some q ↦ some (pass, record s { queue = q })
]

-- Steps 2 and 3. `none`: the search did not end.
unfoldable pub block_step : State → Direction → Npkt → Option (Verdict × State)
unfolding log_step is_arp frame_mac
block_step s dir n =
    if is_arp n.frame then some (pass, s) else elim (lookup s.blocks (frame_mac dir n.frame)) [
      | none ↦ none
      | some none ↦ some (block, record s { num_pkt_blocked = count_blocked dir s.num_pkt_blocked })
      | some (some i) ↦ log_step s dir n
    ]

-- Steps 1 to 3, which both functions take.
unfoldable pub filter_packet : State → Direction → Ids → Npkt → Option (Verdict × State)
unfolding block_step
filter_packet s dir ids n = if of_interest ids s.ifs then block_step s dir n else some (pass, s)

unfoldable pub see_message : ℕ → State → Ids → Message → State
see_message ifnamsiz s ids is_dying = record s { ifs = dying ids s.ifs }
see_message ifnamsiz s ids (is_advert name) = record s { ifs = advert ifnamsiz name ids s.ifs }
see_message ifnamsiz s ids is_other = s

-- `tx_up` returned `taken`.
abbrev pub calls_up : Verdict → ℕ → List IoCall
calls_up pass taken = if taken == 0 then tx_up ∷ tx_done ∷ [] else tx_up ∷ []
calls_up block taken = tx_done ∷ []

unfoldable pub ntc_rx_up : ℕ → State → Npkt → Ids → ℕ → Option (List IoCall × State)
unfolding see_message filter_packet
ntc_rx_up ifnamsiz s n ids taken = elim n.message [
  | some m ↦ some (calls_up pass taken, see_message ifnamsiz s ids m)
  | none ↦ elim (filter_packet s inbound ids n) [
    | none ↦ none
    | some (v, s') ↦ some (calls_up v taken, s')
  ]
]

abbrev pub calls_down : Verdict → List IoCall
calls_down pass = tx_down ∷ []
calls_down block = tx_done ∷ []

unfoldable pub ntc_rx_down : State → Npkt → Option (List IoCall × State)
unfolding filter_packet
ntc_rx_down s n = elim n.message [
  | some m ↦ some (calls_down pass, s)
  | none ↦ elim (filter_packet s outbound n.ids n) [
    | none ↦ none
    | some (v, s') ↦ some (calls_down v, s')
  ]
]
