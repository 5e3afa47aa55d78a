-- ===== src/Ntc/Gate/Handled.antt =====
-- nfm-ntc/main.c: what becomes of a packet, for any lists of addresses and interfaces.
use native.Mathlib.Decide.{dec_lt}
use qnxstuff.Prelude.{
  ℕ, ◌<◌, ◌≤◌, ◌≡◌, refl, ◌∙◌, true, false, Option, none, some, List, [], ◌∷◌, ◌++◌, arith, length,
  Bool-cases, Option-cases, inl, inr, sym,
}
use qnxstuff.Ntc.Blocks.{MacCmp, lookup}
use qnxstuff.Ntc.Blocks.Spec.{listed, is_found}
use qnxstuff.Ntc.Blocks.Holds as Blocks
use qnxstuff.Ntc.Blocks.Refines.{lookup-Holds}
use qnxstuff.Ntc.Ifaces.{Ids, of_interest}
use qnxstuff.Ntc.Queue.{Queue, missed, max_packets_logged}
use qnxstuff.Ntc.Queue.Holds as Queue
use qnxstuff.Ntc.Queue.Holds.{Capture, capture, log_room, log_full, missed-Holds}
use qnxstuff.Ntc.Gate.{
  State, Npkt, Message, is_dying, is_advert, is_other, Direction, inbound, outbound, Verdict, pass,
  block, is_arp, frame_mac, dir_mark, count_blocked, log_step, block_step, filter_packet,
  see_message, calls_up, calls_down, ntc_rx_up, ntc_rx_down,
}

-- The addresses that may pass and the packets captured, as the state holds them.
pub record Shows (s : State) (macs : List MacCmp) (held : List Capture) : Type 0 where
  pub blocks : Blocks.Holds s.blocks macs
  pub queue : Queue.Holds max_packets_logged s.queue held

-- What becomes of a packet, of the captures, and of the state.
pub data Filtered (s : State) (macs : List MacCmp) (held : List Capture) (dir : Direction)
    (ids : Ids) (n : Npkt) (v : Verdict) (s' : State) (held' : List Capture) : Type 0 where
  unwatched :
      of_interest ids s.ifs ≡ false
      → v ≡ pass
      → s' ≡ s
      → held' ≡ held
      → Filtered s macs held dir ids n v s' held'
  arp :
      of_interest ids s.ifs ≡ true
      → is_arp n.frame ≡ true
      → v ≡ pass
      → s' ≡ s
      → held' ≡ held
      → Filtered s macs held dir ids n v s' held'
  unlisted :
      of_interest ids s.ifs ≡ true
      → is_arp n.frame ≡ false
      → listed (frame_mac dir n.frame) macs ≡ false
      → v ≡ block
      → s' ≡ record s { num_pkt_blocked = count_blocked dir s.num_pkt_blocked }
      → held' ≡ held
      → Filtered s macs held dir ids n v s' held'
  no_room :
      of_interest ids s.ifs ≡ true
      → is_arp n.frame ≡ false
      → listed (frame_mac dir n.frame) macs ≡ true
      → max_packets_logged ≤ length held
      → v ≡ pass
      → s' ≡ record s { queue = missed s.queue }
      → held' ≡ held
      → Filtered s macs held dir ids n v s' held'
  logged :
      of_interest ids s.ifs ≡ true
      → is_arp n.frame ≡ false
      → listed (frame_mac dir n.frame) macs ≡ true
      → length held < max_packets_logged
      → v ≡ pass
      → (q : Queue) → s' ≡ record s { queue = q }
      → q.num_pkt_missed ≡ s.queue.num_pkt_missed
      → held' ≡ held ++ (capture n.framelen n.frame (dir_mark dir) ∷ [])
      → Filtered s macs held dir ids n v s' held'

module _ {s : State} {macs : List MacCmp} {held : List Capture} (h : Shows s macs held)
    (dir : Direction) (ids : Ids) (n : Npkt) where
  abbrev Ends : Type 0
  Ends =
      (v : Verdict) × (s' : State) × (held' : List Capture) × (filter_packet s dir ids n
        ≡ some (v, s'))
      × Shows s' macs held'
      × Filtered s macs held dir ids n v s' held'

  -- An address is found: the packet is logged if there is room, and passes.
  filter_listed :
      n.framelen ≤ length n.frame
      → of_interest ids s.ifs ≡ true
      → is_arp n.frame ≡ false
      → listed (frame_mac dir n.frame) macs ≡ true
      → filter_packet s dir ids n ≡ log_step s dir n
      → Ends
  unfolding log_step
  filter_listed whole seen ip known step =
      let count = Queue.length_held h.queue in
      elim (dec_lt s.queue.num_packets max_packets_logged) [
        | yes room ↦
            let (q, done, same, held') =
              log_room n.framelen n.frame (dir_mark dir) h.queue room whole in
            (
              pass,
              record s { queue = q },
              _,
              step ∙ rw (done, log_step) refl,
              record { blocks = h.blocks; queue = held' },
              logged seen ip known (omega arith) refl q refl same refl,
            )
        | no full ↦ (
          pass,
          record s { queue = missed s.queue },
          held,
          step
              ∙ rw (log_full n.framelen n.frame (dir_mark dir) h.queue (omega arith), log_step)
                  refl,
          record { blocks = h.blocks; queue = missed-Holds h.queue },
          no_room seen ip known (omega arith) refl refl refl,
        )
      ]

  filter_watched :
      n.framelen ≤ length n.frame → of_interest ids s.ifs ≡ true → is_arp n.frame ≡ false → Ends
  unfolding filter_packet block_step is_found
  filter_watched whole seen ip =
      let (q, done, found) = lookup-Holds (frame_mac dir n.frame) h.blocks in go q done found
    where
      go :
          (q : Option ℕ)
          → lookup s.blocks (frame_mac dir n.frame) ≡ some q
          → is_found q ≡ listed (frame_mac dir n.frame) macs
          → Ends
      go none done found = (
        block,
        record s { num_pkt_blocked = count_blocked dir s.num_pkt_blocked },
        held,
        rw (seen, ip, done, filter_packet) refl,
        record { blocks = h.blocks; queue = h.queue },
        unlisted seen ip (sym found) refl refl refl,
      )
      go (some i) done found =
          filter_listed whole seen ip (sym found) (rw (seen, ip, done, filter_packet) refl)

  -- In a state that holds a list of addresses and a stack of captures, the filtering of a packet whose
  -- frame is not shorter than its length ends, leaves the addresses, and goes by one of five cases.
  pub filter-Filtered : n.framelen ≤ length n.frame → Ends
  unfolding filter_packet block_step
  filter-Filtered whole = elim (Bool-cases (of_interest ids s.ifs)) [
    | inl seen ↦ elim (Bool-cases (is_arp n.frame)) [
      | inl yes_arp ↦ (
        pass,
        s,
        held,
        rw (seen, yes_arp, filter_packet) refl,
        h,
        arp seen yes_arp refl refl refl,
      )
      | inr ip ↦ filter_watched whole seen ip
    ]
    | inr unseen ↦
        (pass, s, held, rw (unseen, filter_packet) refl, h, unwatched unseen refl refl refl)
  ]

-- What becomes of anything that io-net passes on: a message is seen, a packet is filtered.
pub data Handled (ifnamsiz : ℕ) (s : State) (macs : List MacCmp) (held : List Capture)
    (dir : Direction) (ids : Ids) (n : Npkt) (v : Verdict) (s' : State) (held' : List Capture)
    : Type 0 where
  message :
      (m : Message)
      → n.message ≡ some m
      → v ≡ pass
      → (dir ≡ inbound → s' ≡ see_message ifnamsiz s ids m)
      → (dir ≡ outbound → s' ≡ s)
      → held' ≡ held
      → Handled ifnamsiz s macs held dir ids n v s' held'
  packet :
      n.message ≡ none
      → Filtered s macs held dir ids n v s' held'
      → Handled ifnamsiz s macs held dir ids n v s' held'

see-Shows :
    {s : State} {macs : List MacCmp} {held : List Capture} (ifnamsiz : ℕ) (ids : Ids) (m : Message)
    → Shows s macs held
    → Shows (see_message ifnamsiz s ids m) macs held
unfolding see_message
see-Shows ifnamsiz ids is_dying h = record { blocks = h.blocks; queue = h.queue }
see-Shows ifnamsiz ids (is_advert name) h = record { blocks = h.blocks; queue = h.queue }
see-Shows ifnamsiz ids is_other h = h

rx_up_packet :
    (s : State) {s' : State} {v : Verdict} (ifnamsiz : ℕ) (n : Npkt) (ids : Ids) (taken : ℕ)
    → n.message ≡ none
    → filter_packet s inbound ids n ≡ some (v, s')
    → ntc_rx_up ifnamsiz s n ids taken ≡ some (calls_up v taken, s')
unfolding ntc_rx_up
rx_up_packet s ifnamsiz n ids taken pkt ran = simp (pkt, ran, ntc_rx_up) refl

pub rx_down_packet :
    (s : State) {s' : State} {v : Verdict} (n : Npkt)
    → n.message ≡ none
    → filter_packet s outbound n.ids n ≡ some (v, s')
    → ntc_rx_down s n ≡ some (calls_down v, s')
unfolding ntc_rx_down
rx_down_packet s n pkt ran = simp (pkt, ran, ntc_rx_down) refl

-- In a state that holds a list of addresses and a stack of captures, ntc_rx_up ends on a packet whose
-- frame is not shorter than its length, and ntc_rx_down does, with the io-net calls of a verdict; the
-- addresses stay. A message passes, and only an inbound one is looked at. A packet of an interface that
-- is known and not of interest passes, and so does one whose type is taken for ARP; of the rest, one
-- whose address is not listed is blocked and counted, and one whose address is listed passes: it is
-- put on the stack, or counted as missed if that is full.
pub rx-Handled :
    {s : State} {macs : List MacCmp} {held : List Capture} (ifnamsiz : ℕ) (ids : Ids) (n : Npkt)
    (taken : ℕ)
    → Shows s macs held
    → n.framelen ≤ length n.frame
    → ((v : Verdict) × (s' : State) × (held' : List Capture) × (ntc_rx_up ifnamsiz s n ids taken
          ≡ some (calls_up v taken, s'))
        × Shows s' macs held'
        × Handled ifnamsiz s macs held inbound ids n v s' held')
      × ((v : Verdict) × (s' : State) × (held' : List Capture) × (ntc_rx_down s n
            ≡ some (calls_down v, s'))
          × Shows s' macs held'
          × Handled ifnamsiz s macs held outbound n.ids n v s' held')
unfolding ntc_rx_up ntc_rx_down
rx-Handled {s} {macs} {held} ifnamsiz ids n taken h whole = elim (Option-cases n.message) [
  | inr (m, msg) ↦ (
    (
      pass,
      see_message ifnamsiz s ids m,
      held,
      rw msg refl,
      see-Shows ifnamsiz ids m h,
      message m msg refl (λ e. refl) (λ e. absurd (cc)) refl,
    ),
    (pass, s, held, rw msg refl, h, message m msg refl (λ e. absurd (cc)) (λ e. refl) refl),
  )
  | inl pkt ↦
      let (v, s', held', done, shows, how) = filter-Filtered h inbound ids n whole in
      let (w, t', kept, ran, shown, why) = filter-Filtered h outbound n.ids n whole in
      (
        (v, s', held', rx_up_packet s ifnamsiz n ids taken pkt done, shows, packet pkt how),
        (w, t', kept, rx_down_packet s n pkt ran, shown, packet pkt why),
      )
]
