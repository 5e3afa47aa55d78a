-- ===== src/Ntc/Gate/Arp.antt =====
-- nfm-ntc/main.c: the test for ARP, which reads the type in the order of an x86 machine.
use qnxstuff.Prelude.{ℕ, ◌≡◌, refl, ap, ◌∙◌, true, false, Option, none, some, List, [], ◌∷◌, arith}
use qnxstuff.Prelude.Memory.{byte_at}
use qnxstuff.Ntc.Blocks.{MacCmp, lookup}
use qnxstuff.Ntc.Blocks.Spec.{listed, is_found}
use qnxstuff.Ntc.Blocks.Refines.{lookup-Holds}
use qnxstuff.Ntc.Ifaces.{of_interest}
use qnxstuff.Ntc.Queue.Holds.{Capture}
use qnxstuff.Ntc.Gate.{
  State, Npkt, outbound, block, tx_done, is_arp, frame_mac, count_blocked, filter_packet,
  block_step, ntc_rx_down,
}
use qnxstuff.Ntc.Gate.Handled.{Shows, rx_down_packet}

-- The bytes 8 and 6 are the type of ARP in a frame.
arp_unseen : (frame : List ℕ) → byte_at frame 12 ≡ 8 → byte_at frame 13 ≡ 6 → is_arp frame ≡ false
unfolding is_arp
arp_unseen frame hi lo = ground arith

filter_unlisted :
    (s : State) (n : Npkt)
    → of_interest n.ids s.ifs ≡ true
    → is_arp n.frame ≡ false
    → lookup s.blocks (frame_mac outbound n.frame) ≡ some none
    → filter_packet s outbound n.ids n
      ≡ some (block, record s { num_pkt_blocked = count_blocked outbound s.num_pkt_blocked })
unfolding filter_packet block_step
filter_unlisted s n seen ip gone = rw (seen, ip, gone, filter_packet) refl

nothing_found : (q : Option ℕ) → is_found q ≡ false → q ≡ none
unfolding is_found
nothing_found none e = refl
nothing_found (some i) e = absurd (cc)

-- In a state that holds a list of addresses, an ARP frame that leaves by an interface of interest to
-- an address not listed, such as that of all hosts, is blocked and counted.
pub arp_refused :
    {s : State} {macs : List MacCmp} {held : List Capture} (n : Npkt)
    → Shows s macs held
    → n.message ≡ none
    → of_interest n.ids s.ifs ≡ true
    → byte_at n.frame 12 ≡ 8
    → byte_at n.frame 13 ≡ 6
    → listed (frame_mac outbound n.frame) macs ≡ false
    → ntc_rx_down s n
      ≡ some (tx_done ∷ [], record s { num_pkt_blocked = count_blocked outbound s.num_pkt_blocked })
arp_refused {s} n h pkt seen hi lo out =
    let (q, done, found) = lookup-Holds (frame_mac outbound n.frame) h.blocks in
    let gone = done ∙ ap some (nothing_found q (found ∙ out)) in
    rx_down_packet s n pkt (filter_unlisted s n seen (arp_unseen n.frame hi lo) gone)
