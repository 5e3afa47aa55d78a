-- ===== src/Logger/Sessions/Tests.antt =====
-- Runs of the sessions on a small log, and the theorem at it.
use qnxstuff.Prelude.{ℕ, ◌≤◌, ◌≡◌, refl, ◌%◌, ◌^◌, List, [], ◌∷◌, length}
use qnxstuff.Prelude.Memory.{memcmp}
use qnxstuff.Filter.Packet.{LogRecord, from_cli}
use qnxstuff.Logger.Sessions.{add_packet, form_sessions, same_session}
use qnxstuff.Logger.Sessions.Sums.{total, Distinct, sessions_hold}

abbrev packet : ℕ → ℕ → LogRecord
packet port bytes = record {
  mac = 1 ∷ 2 ∷ 3 ∷ 4 ∷ 5 ∷ 6 ∷ [];
  dlc_proto = 8;
  ip_clnt = 10;
  ip_host = 20;
  ip_proto = 6;
  port_clnt = 0;
  port_host = port;
  bytes_to_cli = 0;
  bytes_to_host = bytes;
}

abbrev packets : List LogRecord
packets = packet 80 100 ∷ packet 25 40 ∷ packet 80 7 ∷ []

sessions_hold_example :
    (total from_cli (packet 80 0) (form_sessions packets []) % 2 ^ 32
      ≡ total from_cli (packet 80 0) packets % 2 ^ 32)
    × Distinct (form_sessions packets [])
    × (length (form_sessions packets []) ≤ 3)
sessions_hold_example = sessions_hold from_cli (packet 80 0) packets

two_sessions : form_sessions packets [] ≡ packet 80 107 ∷ packet 25 40 ∷ []
unfolding form_sessions add_packet same_session memcmp
two_sessions = refl
