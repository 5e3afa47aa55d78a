-- ===== src/Ntc/Queue/Holds.antt =====
-- nfm-ntc/main.c and ntc_rm.c: the array as a stack of captured packets.
use qnxstuff.Prelude.{
  ℕ, suc, subst, ◌+◌, ◌-◌, ◌<◌, ◌≤◌, ◌≡◌, refl, sym, ◌∙◌, ap, min, ◌||◌, some, List, [], ◌∷◌, ◌++◌,
  map, arith, ltb, ◌==◌, length, set, take, drop, ltb_of_lt, ltb_of_le, Bool-cases, inl, inr,
  length-set, length-map, length-take, get_elem?-lt, take-suc-set, map-take, map-drop, take-take,
  take-take-append, take-drop_of_take,
}
use qnxstuff.Ntc.Queue.{
  PktInfo, Queue, pkt_log_size, sizeof_pkt_info, captured, missed, log_packet, npkts, take_packets,
  flushed,
}

-- What of an element came out of its frame.
pub record Capture : Type 0 where
  pub len : ℕ
  pub head : List ℕ
  pub dir : ℕ

abbrev pub view : PktInfo → Capture
view p = record { len = p.len; head = take (min p.len pkt_log_size) p.headers; dir = p.dir }

abbrev pub capture : ℕ → List ℕ → ℕ → Capture
capture framelen frame dir = record {
  len = framelen;
  head = take (min framelen pkt_log_size) frame;
  dir = dir;
}

pub record Holds (limit : ℕ) (q : Queue) (held : List Capture) : Type 0 where
  pub size : length q.pktq ≡ limit
  pub inside : q.num_packets ≤ limit
  pub content : map view (take q.num_packets q.pktq) ≡ held

map-snoc :
    {A B : Type 0} (f : A → B) (xs : List A) (x : A)
    → map f (xs ++ (x ∷ [])) ≡ map f xs ++ (f x ∷ [])
map-snoc f [] x = refl
map-snoc f (y ∷ xs) x = ap (λ l. f y ∷ l) (map-snoc f xs x)

pub length_held :
    {limit : ℕ} {q : Queue} {held : List Capture} → Holds limit q held → length held ≡ q.num_packets
length_held {limit} {q} {held} h =
    let l = length-map view (take q.num_packets q.pktq) in
    omega (arith, ap length h.content, l, length-take q.num_packets q.pktq, h.size, h.inside)

view-captured :
    (framelen : ℕ) (frame : List ℕ) (dir : ℕ) (old : PktInfo)
    → framelen ≤ length frame
    → view (captured framelen frame dir old) ≡ capture framelen frame dir
view-captured framelen frame dir old whole =
    let k = min framelen pkt_log_size in
    ap (λ l. record { len = framelen; head = l; dir = dir })
      (take-take-append k frame (drop k old.headers) (omega arith))

pub log_room :
    {limit : ℕ} {q : Queue} {held : List Capture} (framelen : ℕ) (frame : List ℕ) (dir : ℕ)
    → Holds limit q held
    → q.num_packets < limit
    → framelen ≤ length frame
    → (q' : Queue) × (log_packet limit framelen frame dir q ≡ some q')
      × (q'.num_pkt_missed ≡ q.num_pkt_missed)
      × Holds limit q' (held ++ (capture framelen frame dir ∷ []))
unfolding log_packet
log_room {limit} {q} {held} framelen frame dir h room whole =
    let (old, at) = get_elem?-lt q.pktq q.num_packets (omega (arith, h.size)) in
    let new = captured framelen frame dir old in
    let more = set q.pktq q.num_packets new in
    let next : suc q.num_packets ≡ q.num_packets + 1 = omega arith in
    let grown =
      ap (λ m. take m more) (sym next)
      ∙ take-suc-set q.pktq q.num_packets new (omega (arith, h.size)) in
    (
      record q { pktq = more; num_packets = q.num_packets + 1 },
      rw (ltb_of_le limit (q.num_packets + 1) (omega arith), at) refl,
      refl,
      record {
        size = length-set q.pktq q.num_packets new ∙ h.size;
        inside = omega arith;
        content =
            ap (map view) grown
            ∙ map-snoc view (take q.num_packets q.pktq) new
            ∙ (ap (λ l. l ++ (view new ∷ [])) h.content
                ∙ ap (λ c. held ++ (c ∷ [])) (view-captured framelen frame dir old whole));
      },
    )

pub log_full :
    {limit : ℕ} {q : Queue} {held : List Capture} (framelen : ℕ) (frame : List ℕ) (dir : ℕ)
    → Holds limit q held
    → limit ≤ q.num_packets
    → log_packet limit framelen frame dir q ≡ some (missed q)
unfolding log_packet
log_full {limit} {q} framelen frame dir h full =
    rw (ltb_of_lt limit (q.num_packets + 1) (omega arith)) refl

pub missed-Holds :
    {limit : ℕ} {q : Queue} {held : List Capture} → Holds limit q held → Holds limit (missed q) held
missed-Holds h = record { size = h.size; inside = h.inside; content = h.content }

pub flushed-Holds :
    {limit : ℕ} {q : Queue} {held : List Capture} → Holds limit q held → Holds limit (flushed q) []
flushed-Holds h = record { size = h.size; inside = omega arith; content = refl }

-- The newest captures that a client's buffer takes, and those that stay.
abbrev pub newest : ℕ → List Capture → List Capture
newest nbytes held = let n = npkts nbytes (length held) in take n (drop (length held - n) held)

abbrev pub older : ℕ → List Capture → List Capture
older nbytes held = take (length held - npkts nbytes (length held)) held

taken_lem :
    {limit : ℕ} {q : Queue} {held : List Capture} (n : ℕ)
    → Holds limit q held
    → n ≤ q.num_packets
    → map view (take n (drop (q.num_packets - n) q.pktq)) ≡ take n (drop (q.num_packets - n) held)
taken_lem {limit} {q} {held} n h le =
    let k = q.num_packets in
    let same =
      take-drop_of_take k (k - n) n (take k q.pktq) q.pktq (take-take k k q.pktq (omega arith))
        (omega arith) in
    ap (map view) (sym same)
    ∙ (map-take view n (drop (k - n) (take k q.pktq))
        ∙ (ap (take n) (map-drop view (k - n) (take k q.pktq))
            ∙ ap (λ l. take n (drop (k - n) l)) h.content))

left_lem :
    {limit : ℕ} {q : Queue} {held : List Capture} (n : ℕ)
    → Holds limit q held
    → Holds limit (record q { num_packets = q.num_packets - n }) (take (q.num_packets - n) held)
left_lem {limit} {q} {held} n h =
    let k = q.num_packets in
    record {
      size = h.size;
      inside = omega (arith, h.inside);
      content =
          ap (map view) (sym (take-take (k - n) k q.pktq (omega arith)))
          ∙ (map-take view (k - n) (take k q.pktq) ∙ ap (take (k - n)) h.content);
    }

take_all : {A : Type 0} (xs : List A) → take (length xs) xs ≡ xs
take_all [] = refl
take_all (x ∷ xs) = ap (λ l. x ∷ l) (take_all xs)

pub take-Holds :
    {limit : ℕ} {q : Queue} {held : List Capture} (nbytes : ℕ)
    → Holds limit q held
    → (ps : List PktInfo) × (q' : Queue) × (take_packets nbytes q ≡ (ps, q'))
      × (map view ps ≡ newest nbytes held)
      × (q'.num_pkt_missed ≡ q.num_pkt_missed)
      × Holds limit q' (older nbytes held)
unfolding take_packets
take-Holds {limit} {q} {held} nbytes h =
    let n = npkts nbytes q.num_packets in
    let count = length_held h in
    elim (Bool-cases (ltb nbytes sizeof_pkt_info || q.num_packets == 0)) [
      | inl idle ↦
          let none_fits : npkts nbytes (length held) ≡ 0 = ground (arith, count) in
          let all : older nbytes held ≡ held =
            ap (λ m. take m held) (omega (arith, none_fits)) ∙ take_all held in
          ([], q, rw idle refl, rw none_fits refl, refl, subst (Holds limit q) (sym all) h)
      | inr busy ↦ (
        take n (drop (q.num_packets - n) q.pktq),
        record q { num_packets = q.num_packets - n },
        rw busy refl,
        rw count (taken_lem n h (omega arith)),
        refl,
        rw count (left_lem n h),
      )
    ]
