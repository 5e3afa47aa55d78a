-- ===== src/Ntc/Tests.antt =====
-- Runs of nfm-ntc on small inputs, and the theorems at these inputs.
use qnxstuff.Prelude.{
  ℕ, zero, suc, ◌≡◌, refl, ap, true, false, Option, none, some, List, [], ◌∷◌, map, arith, length,
}
use qnxstuff.Ntc.Blocks.{MacCmp, Blocks, no_blocks, lookup, add_block, del_block}
use qnxstuff.Ntc.Blocks.Spec as Addresses
use qnxstuff.Ntc.Blocks.Spec.{listed, adds, deletes, asks, is_found, add_all}
use qnxstuff.Ntc.Blocks.Holds as Blocks
use qnxstuff.Ntc.Blocks.Refines.{none-Holds, run_of_none, del_loses}
use qnxstuff.Prelude.Strings.{stricmp_eq}
use qnxstuff.Ntc.Ifaces.{IfInfo, Ids, advert, of_interest}
use qnxstuff.Ntc.Ifaces.Laws.{Distinct, Announced, advert-Distinct}
use qnxstuff.Ntc.Queue.{PktInfo, Queue, max_packets_logged}
use qnxstuff.Ntc.Queue.Holds.{Capture, view}
use qnxstuff.Ntc.Queue.Runs as Reads
use qnxstuff.Ntc.Queue.Runs.{Step, captures, reads, flushes, promised, run_of_empty}
use qnxstuff.Ntc.Gate.{
  State, variables, Npkt, inbound, outbound, Verdict, tx_done, count_blocked, frame_mac, calls_up,
  calls_down, ntc_rx_up, ntc_rx_down,
}
use qnxstuff.Ntc.Gate.Handled.{Shows, Handled, rx-Handled}
use qnxstuff.Ntc.Gate.Arp.{arp_refused}
use qnxstuff.Ntc.Control.{ntc_delblock, Reply, ntc_rm_devctl}
use qnxstuff.Ntc.Control.Effects.{Answer, macs_after, held_after, devctl-Answer}

-- 01:00:00:00:00:00 and 02:00:00:00:00:00
abbrev one : MacCmp
one = record { nid = 1; vid = 0 }

abbrev two : MacCmp
two = record { nid = 2; vid = 0 }

abbrev uses : List Addresses.Use
uses = adds one ∷ adds two ∷ asks two ∷ deletes one ∷ asks two ∷ []

-- The deletion of the older address loses the newer.
run_of_none_example : Addresses.run no_blocks uses ≡ some (Addresses.answers [] uses)
run_of_none_example = run_of_none uses

uses-answers : Addresses.answers [] uses ≡ true ∷ false ∷ []
unfolding Addresses.answers Addresses.deleted Addresses.behind listed
uses-answers = refl

one_unlisted : listed one (two ∷ []) ≡ false
unfolding listed
one_unlisted = refl

del_loses_example :
    (b' : Blocks) × (del_block (add_all (two ∷ []) (add_block no_blocks one)) one ≡ some b')
    × ((other : MacCmp)
        → (q : Option ℕ) × (lookup b' other ≡ some q) × (is_found q ≡ listed other []))
del_loses_example = del_loses one (two ∷ []) none-Holds one_unlisted

abbrev blank : PktInfo
blank = record { len = 0; headers = []; dir = 0 }

abbrev small_queue : Queue
small_queue = record { pktq = blank ∷ blank ∷ []; num_packets = 0; num_pkt_missed = 0 }

abbrev steps : List Step
steps =
    captures 1 (7 ∷ []) 0
    ∷ captures 1 (8 ∷ []) 1
    ∷ captures 1 (9 ∷ []) 0
    ∷ reads 50
    ∷ reads 1000
    ∷ []

steps-Whole : Reads.Whole steps
unfolding Reads.Whole
steps-Whole = (omega arith, (omega arith, (omega arith, tt)))

run_of_empty_example :
    (outs : List (List PktInfo)) × (Reads.run 2 small_queue steps ≡ some outs)
    × (map (map view) outs ≡ promised 2 [] steps)
run_of_empty_example = run_of_empty 2 small_queue steps refl refl steps-Whole

-- The third packet is missed; the second is read first.
steps-promised :
    promised 2 [] steps
    ≡ (record { len = 1; head = 8 ∷ []; dir = 1 } ∷ [])
      ∷ (record { len = 1; head = 7 ∷ []; dir = 0 } ∷ [])
      ∷ []
unfolding promised Reads.pushed
steps-promised = refl

blanks : ℕ → List PktInfo
blanks zero = []
blanks (suc n) = blank ∷ blanks n

length-blanks : (n : ℕ) → length (blanks n) ≡ n
unfolding blanks
length-blanks zero = refl
length-blanks (suc n) = ap suc (length-blanks n)

abbrev ids : Ids
ids = record { cell = 0; endpoint = 1; iface = 0 }

-- After start, and after the first address.
abbrev state : State
state =
    let s = variables (blanks max_packets_logged) in record s { blocks = add_block no_blocks one }

state-Shows : Shows state (one ∷ []) []
state-Shows = record {
  blocks = Blocks.add-Holds one none-Holds;
  queue = record { size = length-blanks max_packets_logged; inside = omega arith; content = refl };
}

-- To all hosts, of type ARP.
abbrev arp_request : Npkt
arp_request = record {
  message = none;
  framelen = 14;
  frame = 255 ∷ 255 ∷ 255 ∷ 255 ∷ 255 ∷ 255 ∷ 1 ∷ 0 ∷ 0 ∷ 0 ∷ 0 ∷ 0 ∷ 8 ∷ 6 ∷ [];
  ids = ids;
}

rx-Handled_example :
    ((v : Verdict) × (s' : State) × (held' : List Capture) × (ntc_rx_up 16 state arp_request ids 1
        ≡ some (calls_up v 1, s'))
      × Shows s' (one ∷ []) held'
      × Handled 16 state (one ∷ []) [] inbound ids arp_request v s' held')
    × ((v : Verdict) × (s' : State) × (held' : List Capture) × (ntc_rx_down state arp_request
          ≡ some (calls_down v, s'))
        × Shows s' (one ∷ []) held'
        × Handled 16 state (one ∷ []) [] outbound ids arp_request v s' held')
rx-Handled_example = rx-Handled 16 ids arp_request 1 state-Shows (omega arith)

seen : of_interest ids [] ≡ true
unfolding of_interest
seen = refl

unlisted : listed (frame_mac outbound arp_request.frame) (one ∷ []) ≡ false
unfolding listed frame_mac
unlisted = refl

arp_request_refused :
    ntc_rx_down state arp_request
    ≡ some (
      tx_done ∷ [],
      record state { num_pkt_blocked = count_blocked outbound state.num_pkt_blocked },
    )
arp_request_refused = arp_refused arp_request state-Shows refl seen refl refl unlisted

devctl-Answer_example :
    (r : Reply) × (s' : State) × (ntc_rm_devctl 16 state ntc_delblock 8 (1 ∷ []) ≡ some (r, s'))
    × Shows s' (macs_after ntc_delblock (1 ∷ []) (one ∷ [])) (held_after ntc_delblock [])
    × Answer ntc_delblock 16 8 (1 ∷ []) state [] r s'.ifs
devctl-Answer_example = devctl-Answer state-Shows 16 ntc_delblock 8 (1 ∷ [])

abbrev en : ℕ → IfInfo
en k = record {
  ifname = b'e' ∷ b'n' ∷ k ∷ [];
  cell = 0;
  endpoint = k;
  iface = 0;
  ofinterest = 0;
  dead = 1;
}

apart : Distinct (map IfInfo.ifname (en b'0' ∷ en b'1' ∷ []))
unfolding Distinct stricmp_eq
apart = (refl, (refl, tt))

advert-Distinct_example :
    Distinct (map IfInfo.ifname (advert 16 (b'E' ∷ b'N' ∷ b'1' ∷ []) ids (en b'0' ∷ en b'1' ∷ [])))
    × Announced
        (b'E' ∷ b'N' ∷ b'1' ∷ [])
        ids
        (advert 16 (b'E' ∷ b'N' ∷ b'1' ∷ []) ids (en b'0' ∷ en b'1' ∷ []))
advert-Distinct_example =
    advert-Distinct 16 (b'E' ∷ b'N' ∷ b'1' ∷ []) ids (en b'0' ∷ en b'1' ∷ []) (omega arith) apart
