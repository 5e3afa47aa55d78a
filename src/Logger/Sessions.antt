-- ===== src/Logger/Sessions.antt =====
-- QX-billing/qxl_main.c: the packets of a log that belong together are summed up as sessions.
pub mod Sums
mod Tests
use qnxstuff.Prelude.{
  ℕ, ◌+◌, ◌%◌, ◌^◌, Ordering, Bool, true, false, ◌&&◌, List, [], ◌∷◌, ◌==◌, if◌then◌else◌,
}
use qnxstuff.Prelude.Memory.{memcmp}
use qnxstuff.Filter.Packet.{LogRecord}

-- `memcmp(a, b, 6) == 0`
abbrev pub equal_mac : List ℕ → List ℕ → Bool
equal_mac a b = elim (memcmp 6 a b) [
  | Ordering.lt ↦ false
  | Ordering.eq ↦ true
  | Ordering.gt ↦ false
]

-- The packet is of the session: the tests of the inner loop.
unfoldable pub same_session : LogRecord → LogRecord → Bool
same_session p s =
    equal_mac p.mac s.mac
    && p.ip_host == s.ip_host
    && p.ip_clnt == s.ip_clnt
    && p.port_host == s.port_host
    && p.ip_proto == s.ip_proto
    && p.dlc_proto == s.dlc_proto

abbrev pub summed : LogRecord → LogRecord → LogRecord
summed s p = record s {
  bytes_to_cli = (s.bytes_to_cli + p.bytes_to_cli) % 2 ^ 32;
  bytes_to_host = (s.bytes_to_host + p.bytes_to_host) % 2 ^ 32;
}

-- The inner loop, and the new session if it found none.
unfoldable pub add_packet : LogRecord → List LogRecord → List LogRecord
unfolding same_session
add_packet p [] = p ∷ []
add_packet p (s ∷ ss) =
    let rest = add_packet p ss in if same_session p s then summed s p ∷ ss else s ∷ rest

-- The outer loop: the packets that are left, and the sessions so far.
unfoldable pub form_sessions : List LogRecord → List LogRecord → List LogRecord
unfolding add_packet
form_sessions [] ss = ss
form_sessions (p ∷ ps) ss = form_sessions ps (add_packet p ss)
