-- ===== src/Ntc/Control/Effects.antt =====
-- nfm-ntc/ntc_rm.c: what each command answers, and what it changes.
use qnxstuff.Prelude.{ℕ, ◌*◌, ◌/◌, ◌≡◌, refl, sym, ap, some, List, [], ◌∷◌, arith, length, take}
use qnxstuff.Ntc.Blocks.{MacCmp, mac_at}
use qnxstuff.Ntc.Blocks.Spec.{deleted}
use qnxstuff.Ntc.Blocks.Holds.{add-Holds, del-Holds}
use qnxstuff.Ntc.Ifaces.{IfInfo, sizeof_if_info}
use qnxstuff.Ntc.Ifaces.Laws.{Marked, set_interest-Marked, descriptors_lem}
use qnxstuff.Ntc.Queue.Holds.{Capture, length_held, flushed-Holds}
use qnxstuff.Ntc.Gate.{State}
use qnxstuff.Ntc.Gate.Handled.{Shows}
use qnxstuff.Ntc.Control.{
  Command, ntc_flush, ntc_nummissed, ntc_numblocked, ntc_queuelen, ntc_addblock, ntc_delblock,
  ntc_ifpresent, ntc_addif, ntc_delif, other, Reply, enosys, replied, nothing, number, blocked,
  interfaces, done, interest, if_present, ntc_rm_devctl,
}

-- The addresses and the captures after a command with these bytes.
abbrev pub macs_after : Command → List ℕ → List MacCmp → List MacCmp
macs_after ntc_addblock bytes macs = mac_at bytes 0 ∷ macs
macs_after ntc_delblock bytes macs = deleted (mac_at bytes 0) macs
macs_after _ bytes macs = macs

abbrev pub held_after : Command → List Capture → List Capture
held_after ntc_flush held = []
held_after _ held = held

-- As many interfaces as fit whole into the client's buffer.
abbrev pub fitting : ℕ → ℕ → List IfInfo → List IfInfo
fitting ifnamsiz nbytes ifs = take (nbytes / sizeof_if_info ifnamsiz) ifs

-- The answer, and what becomes of the interfaces.
pub Answer : Command → ℕ → ℕ → List ℕ → State → List Capture → Reply → List IfInfo → Type 0
Answer ntc_queuelen ifnamsiz nbytes bytes s held r ifs =
    (r ≡ replied 0 4 (number (length held))) × (ifs ≡ s.ifs)
Answer ntc_nummissed ifnamsiz nbytes bytes s held r ifs =
    (r ≡ replied 0 4 (number s.queue.num_pkt_missed)) × (ifs ≡ s.ifs)
Answer ntc_numblocked ifnamsiz nbytes bytes s held r ifs =
    (r ≡ replied 0 8 (blocked s.num_pkt_blocked)) × (ifs ≡ s.ifs)
Answer ntc_ifpresent ifnamsiz nbytes bytes s held r ifs =
    let ds = fitting ifnamsiz nbytes s.ifs in
    (r ≡ replied (length s.ifs) (length ds * sizeof_if_info ifnamsiz) (interfaces ds))
    × (ifs ≡ s.ifs)
Answer ntc_addif ifnamsiz nbytes bytes s held r ifs =
    (ret : ℕ) × (r ≡ replied ret 0 nothing) × Marked 1 bytes s.ifs ifs ret
Answer ntc_delif ifnamsiz nbytes bytes s held r ifs =
    (ret : ℕ) × (r ≡ replied ret 0 nothing) × Marked 0 bytes s.ifs ifs ret
Answer other ifnamsiz nbytes bytes s held r ifs = (r ≡ enosys) × (ifs ≡ s.ifs)
Answer _ ifnamsiz nbytes bytes s held r ifs = (r ≡ replied 0 0 nothing) × (ifs ≡ s.ifs)

module _ {s : State} {macs : List MacCmp} {held : List Capture} (h : Shows s macs held) where
  -- In a state that holds a list of addresses and a stack of captures, every command of the device ends
  -- and leaves a state that holds a list and a stack: an address is put in front of the list, or its
  -- first occurrence is cut off with all in front of it; a flush empties the stack. The counts, the
  -- length of the stack and the interfaces that fit into the buffer are answered as they are, the
  -- interest in the first interface of a name is set, with the answer 1 if there is one and 0 if not,
  -- and every other command is refused.
  pub devctl-Answer :
      (ifnamsiz : ℕ) (c : Command) (nbytes : ℕ) (bytes : List ℕ)
      → (r : Reply) × (s' : State) × (ntc_rm_devctl ifnamsiz s c nbytes bytes ≡ some (r, s'))
        × Shows s' (macs_after c bytes macs) (held_after c held)
        × Answer c ifnamsiz nbytes bytes s held r s'.ifs
  unfolding ntc_rm_devctl Answer interest if_present
  devctl-Answer ifnamsiz ntc_flush nbytes bytes =
      (_, _, refl, record { blocks = h.blocks; queue = flushed-Holds h.queue }, (refl, refl))
  devctl-Answer ifnamsiz ntc_nummissed nbytes bytes = (_, s, refl, h, (refl, refl))
  devctl-Answer ifnamsiz ntc_numblocked nbytes bytes = (_, s, refl, h, (refl, refl))
  devctl-Answer ifnamsiz ntc_queuelen nbytes bytes =
      (_, s, refl, h, (ap (λ n. replied 0 4 (number n)) (sym (length_held h.queue)), refl))
  devctl-Answer ifnamsiz ntc_addblock nbytes bytes = (
    _,
    _,
    refl,
    record { blocks = add-Holds (mac_at bytes 0) h.blocks; queue = h.queue },
    (refl, refl),
  )
  devctl-Answer ifnamsiz ntc_delblock nbytes bytes =
      let (b, ran, held') = del-Holds (mac_at bytes 0) h.blocks in
      (
        done,
        record s { blocks = b },
        rw (ran, ntc_rm_devctl) refl,
        record { blocks = held'; queue = h.queue },
        (refl, refl),
      )
  devctl-Answer ifnamsiz ntc_ifpresent nbytes bytes =
      let size = sizeof_if_info ifnamsiz in
      (
        _,
        s,
        refl,
        h,
        (
          ap (λ ds. replied (length s.ifs) (length ds * size) (interfaces ds))
              (descriptors_lem size nbytes s.ifs (omega arith)),
          refl,
        ),
      )
  devctl-Answer ifnamsiz ntc_addif nbytes bytes =
      let (ifs, ret, ran, m) = set_interest-Marked 1 bytes s.ifs in
      (
        replied ret 0 nothing,
        record s { ifs = ifs },
        rw (ran, interest) refl,
        record { blocks = h.blocks; queue = h.queue },
        (ret, refl, m),
      )
  devctl-Answer ifnamsiz ntc_delif nbytes bytes =
      let (ifs, ret, ran, m) = set_interest-Marked 0 bytes s.ifs in
      (
        replied ret 0 nothing,
        record s { ifs = ifs },
        rw (ran, interest) refl,
        record { blocks = h.blocks; queue = h.queue },
        (ret, refl, m),
      )
  devctl-Answer ifnamsiz other nbytes bytes = (enosys, s, refl, h, (refl, refl))
