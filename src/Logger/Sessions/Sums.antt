-- ===== src/Logger/Sessions/Sums.antt =====
-- QX-billing/qxl_main.c: the sessions of a log hold the bytes of its packets.
use qnxstuff.Prelude.{
  ℕ, suc, ◌+◌, ◌≤◌, ◌%◌, ◌^◌, ◌≡◌, refl, ap, Ordering, Bool, true, false, List, [], ◌∷◌, arith,
  length, All, Bool-cases, inl, inr, if◌then◌else◌,
}
use qnxstuff.Prelude.Memory.{memcmp, memcmp_congr}
use qnxstuff.Filter.Packet.{LogRecord, Direction, to_cli, from_cli}
use qnxstuff.Logger.Sessions.{equal_mac, same_session, summed, add_packet, form_sessions}

abbrev pub bytes_of : Direction → LogRecord → ℕ
bytes_of to_cli r = r.bytes_to_cli
bytes_of from_cli r = r.bytes_to_host

-- The bytes in one direction of all that belong together with a record.
unfoldable pub total : Direction → LogRecord → List LogRecord → ℕ
total d q [] = 0
total d q (r ∷ rs) = (if same_session q r then bytes_of d r else 0) + total d q rs

-- No later session belongs together with an earlier one.
unfoldable pub Distinct : List LogRecord → Type 0
Distinct [] = Unit
Distinct (s ∷ ss) = All (λ r. same_session r s ≡ false) ss × Distinct ss

equal_mac_congr : (c a b : List ℕ) → equal_mac a b ≡ true → equal_mac c a ≡ equal_mac c b
equal_mac_congr c a b h = ap sign (memcmp_congr 6 c a b (is_equal (memcmp 6 a b) h))
  where
    sign : Ordering → Bool
    sign o = elim o [ Ordering.lt ↦ false | Ordering.eq ↦ true | Ordering.gt ↦ false ]

    is_equal : (o : Ordering) → sign o ≡ true → o ≡ Ordering.eq
    is_equal Ordering.lt e = absurd (cc)
    is_equal Ordering.eq e = refl
    is_equal Ordering.gt e = absurd (cc)

-- What belongs together with a packet belongs together with its session.
same_session_congr :
    (q p s : LogRecord) → same_session p s ≡ true → same_session q p ≡ same_session q s
unfolding same_session
same_session_congr q p s h =
    let mac = equal_mac_congr q.mac p.mac s.mac (ground arith) in ground (arith, mac, h)

bytes-summed :
    (d : Direction) (s p : LogRecord)
    → bytes_of d (summed s p) ≡ (bytes_of d s + bytes_of d p) % 2 ^ 32
bytes-summed to_cli s p = refl
bytes-summed from_cli s p = refl

-- A packet adds its bytes, up to the size of a counter.
total-add_packet :
    (d : Direction) (q p : LogRecord) (ss : List LogRecord)
    → total d q (add_packet p ss) % 2 ^ 32 ≡ (total d q (p ∷ []) + total d q ss) % 2 ^ 32
unfolding total add_packet
total-add_packet d q p [] = ap (λ n. n % 2 ^ 32) (omega arith)
total-add_packet d q p (s ∷ ss) = elim (Bool-cases (same_session p s)) [
  | inl same ↦
      let joined = same_session_congr q p s same in
      let sum = bytes-summed d s p in
      elim (Bool-cases (same_session q s)) [
        | inl mine ↦ rw (same, joined, mine, sum) (omega arith)
        | inr other ↦ rw (same, joined, other) (omega arith)
      ]
  | inr apart ↦ let rest = total-add_packet d q p ss in rw apart (omega (arith, rest))
]

keeps_apart :
    (s p : LogRecord) (ss : List LogRecord)
    → same_session p s ≡ false
    → All (λ r. same_session r s ≡ false) ss
    → All (λ r. same_session r s ≡ false) (add_packet p ss)
unfolding add_packet same_session
keeps_apart s p [] n all = (n, tt)
keeps_apart s p (r ∷ ss) n (m, all) = elim (Bool-cases (same_session p r)) [
  | inl same ↦ rw same (m, all)
  | inr apart ↦ rw apart (m, keeps_apart s p ss n all)
]

add_packet-Distinct :
    (p : LogRecord) (ss : List LogRecord) → Distinct ss → Distinct (add_packet p ss)
unfolding add_packet Distinct same_session
add_packet-Distinct p [] d = (tt, tt)
add_packet-Distinct p (s ∷ ss) (a, d) = elim (Bool-cases (same_session p s)) [
  | inl same ↦ rw same (a, d)
  | inr apart ↦ rw apart (keeps_apart s p ss apart a, add_packet-Distinct p ss d)
]

length-add_packet :
    (p : LogRecord) (ss : List LogRecord) → length (add_packet p ss) ≤ suc (length ss)
unfolding add_packet
length-add_packet p [] = omega arith
length-add_packet p (s ∷ ss) = elim (Bool-cases (same_session p s)) [
  | inl same ↦ rw same (omega arith)
  | inr apart ↦ rw apart (omega (arith, length-add_packet p ss))
]

form_lem :
    (d : Direction) (q : LogRecord) (ps ss : List LogRecord)
    → Distinct ss
    → (total d q (form_sessions ps ss) % 2 ^ 32 ≡ (total d q ps + total d q ss) % 2 ^ 32)
      × Distinct (form_sessions ps ss)
      × (length (form_sessions ps ss) ≤ length ps + length ss)
unfolding form_sessions total
form_lem d q [] ss apart = (ap (λ n. n % 2 ^ 32) (omega arith), apart, omega arith)
form_lem d q (p ∷ ps) ss apart =
    let (sum, distinct, size) =
      form_lem d q ps (add_packet p ss) (add_packet-Distinct p ss apart) in
    let one = total-add_packet d q p ss in
    (omega (arith, sum, one), distinct, omega (arith, size, length-add_packet p ss))

-- The sessions made of the packets of a log are no more than the packets, no later one belongs together
-- with an earlier one, and whatever record is taken, the sessions that it belongs together with hold, in
-- each direction, the bytes of the packets that it belongs together with, modulo 2 ^ 32.
pub sessions_hold :
    (d : Direction) (q : LogRecord) (ps : List LogRecord)
    → (total d q (form_sessions ps []) % 2 ^ 32 ≡ total d q ps % 2 ^ 32)
      × Distinct (form_sessions ps [])
      × (length (form_sessions ps []) ≤ length ps)
unfolding Distinct total
sessions_hold d q ps =
    let (sum, distinct, size) = form_lem d q ps [] tt in
    (omega (arith, sum), distinct, omega (arith, size))
