-- ===== src/Dns/Requests.antt =====
-- QX-dns/main.c: the buffers of the queries that wait for another server, and thread_handler.
pub mod Chain
pub mod Queue
pub mod Growth
pub mod Retry
mod Tests
use Prim.Native.Nat.{bit_or}
use qnxstuff.Prelude.{
  ℕ, zero, suc, ◌+◌, ◌%◌, ◌^◌, ltb, ◌==◌, bit_and, Bool, true, false, not, ◌&&◌, ◌||◌, Option, none,
  some, List, [], ◌∷◌, get_elem?, if◌then◌else◌,
}

-- `dns_buffer_t`, with the header fields of its packet. A pointer to a buffer or a server is its
-- place in the array or in the list.
pub record DnsBuffer : Type 0 where
  pub qclient : ℕ
  pub qserver : ℕ
  pub ref_id : ℕ
  pub src_id : ℕ
  pub next : Option ℕ
  pub prev : Option ℕ
  pub id : ℕ
  pub opt : ℕ
  pub qdcount : ℕ

-- The buffers, allocated once, and the variables of the module; `servers` is the length of the list
-- `srvr_connectors`.
pub record Server : Type 0 where
  pub bufs : List DnsBuffer
  pub queue_head : Option ℕ
  pub queue_tail : Option ℕ
  pub free_buf : Option ℕ
  pub int_req_num : ℕ
  pub servers : ℕ

-- A write through a pointer; every pointer is to a buffer of the array.
abbrev pub modify : List DnsBuffer → ℕ → (DnsBuffer → DnsBuffer) → List DnsBuffer
modify [] i f = []
modify (b ∷ bufs) zero f = f b ∷ bufs
modify (b ∷ bufs) (suc i) f = b ∷ modify bufs i f

abbrev pub with_next : Option ℕ → DnsBuffer → DnsBuffer
with_next p b = record b { next = p }

abbrev pub with_prev : Option ℕ → DnsBuffer → DnsBuffer
with_prev p b = record b { prev = p }

-- The search for the query of a reference. `none`: the fuel ran out, or a pointer left the array.
unfoldable pub find : ℕ → ℕ → List DnsBuffer → Option ℕ → Option (Option ℕ)
find fuel ref bufs none = some none
find zero ref bufs (some i) = none
find (suc fuel) ref bufs (some i) = elim (get_elem? bufs i) [
  | none ↦ none
  | some b ↦ let rest = find fuel ref bufs b.next in if b.ref_id == ref then some (some i) else rest
]

-- `tmp_q->prev->next = tmp_q->next`, or a new head
unfoldable pub pass_next : Server → Option ℕ → Option ℕ → Server
pass_next s none next = record s { queue_head = next }
pass_next s (some k) next = record s { bufs = modify s.bufs k (with_next next) }

-- `tmp_q->next->prev = tmp_q->prev`, or a new tail
unfoldable pub pass_prev : Server → Option ℕ → Option ℕ → Server
pass_prev s none prev = record s { queue_tail = prev }
pass_prev s (some k) prev = record s { bufs = modify s.bufs k (with_prev prev) }

-- The query found is taken out of the queue; its own pointers stay.
unfoldable pub take_out : Server → DnsBuffer → Server
unfolding pass_next pass_prev
take_out s b = pass_prev (pass_next s b.prev b.next) b.next b.prev

-- The query that a response is to, taken out.
unfoldable pub take_query : ℕ → Server → ℕ → Option (Option ℕ × Server)
unfolding find take_out
take_query fuel s ref = elim (find fuel ref s.bufs s.queue_head) [
  | none ↦ none
  | some none ↦ some (none, s)
  | some (some i) ↦ elim (get_elem? s.bufs i) [ none ↦ none | some b ↦ some (some i, take_out s b) ]
]

-- The buffer goes back to the list of free ones.
abbrev pub release : Server → ℕ → Server
release s i = record s { bufs = modify s.bufs i (with_next s.free_buf); free_buf = some i }

-- The old tail, or the head of an empty queue, leads to the buffer.
unfoldable pub lead_to : Server → Option ℕ → ℕ → Server
lead_to s none i = record s { queue_head = some i }
lead_to s (some k) i = record s { bufs = modify s.bufs k (with_next (some i)) }

-- The request is added to the queue, if it is to be saved.
unfoldable pub enqueue : Server → ℕ → Server
unfolding lead_to
enqueue s i =
    let linked = record s { bufs = modify s.bufs i (with_prev s.queue_tail) } in
    let led = lead_to linked s.queue_tail i in record led { queue_tail = some i }

-- Where a buffer is sent, and whether an answer is kept in the cache.
pub data Sent : Type 0 where
  nowhere : Sent
  to_server : (server buffer : ℕ) → Sent
  to_client : (client buffer : ℕ) (cached : Bool) → Sent

-- DNS_OPT_QR, DNS_OPT_RCODE_MASK, _FE, _SF, _NE
abbrev pub opt_qr : ℕ
opt_qr = 0x0080

abbrev pub opt_rcode_mask : ℕ
opt_rcode_mask = 0x0f00

abbrev pub rcode_fe : ℕ
rcode_fe = 0x0100

abbrev pub rcode_sf : ℕ
rcode_sf = 0x0200

abbrev pub rcode_ne : ℕ
rcode_ne = 0x0300

-- A query goes to the next server: it is sent, the response freed, the query queued again.
unfoldable pub retry : Server → (query response : ℕ) → DnsBuffer → Sent × Server
unfolding enqueue
retry s query response q =
    let moved = record s {
      bufs = modify s.bufs query (λ b. record b { qserver = b.qserver + 1 });
    } in
    (to_server (q.qserver + 1) query, enqueue (release moved response) query)

-- The client of a query gets the response; both buffers are freed.
unfoldable pub answer : Server → (query response : ℕ) → DnsBuffer → DnsBuffer → Sent × Server
answer s query response q r =
    let opts = bit_and r.opt opt_rcode_mask in
    let addressed = record s { bufs = modify s.bufs response (λ b. record b { id = q.src_id }) } in
    (
      to_client q.qclient response (opts == 0 || opts == rcode_ne),
      release (release addressed query) response,
    )

-- Whether a response makes the next server be asked.
abbrev pub is_refusal : DnsBuffer → Bool
is_refusal r = let opts = bit_and r.opt opt_rcode_mask in opts == rcode_sf || ltb rcode_ne opts

-- thread_handler for a response of another server.
unfoldable pub handle_response : ℕ → Server → ℕ → Option (Sent × Server)
unfolding take_query retry answer
handle_response fuel s i = elim (get_elem? s.bufs i) [
  | none ↦ none
  | some r ↦ elim (take_query fuel s r.id) [
    | none ↦ none
    | some (none, s') ↦ some (nowhere, release s' i)
    | some (some j, s') ↦ elim (get_elem? s'.bufs j) [
      | none ↦ none
      | some q ↦
          if is_refusal r && ltb (q.qserver + 1) s'.servers
          then some (retry s' j i q)
          else some (answer s' j i q r)
    ]
  ]
]

-- The fields of a query that is sent on.
abbrev pub sent_on : ℕ → DnsBuffer → DnsBuffer
sent_on ref b = record b { src_id = b.id; qserver = 0; next = none; ref_id = ref; id = ref }

-- A query that neither the master zones nor the cache answered goes to the first server.
unfoldable pub send_on : Server → ℕ → Sent × Server
unfolding enqueue
send_on s i =
    let filled = record s {
      bufs = modify s.bufs i (sent_on s.int_req_num);
      int_req_num = (s.int_req_num + 1) % 2 ^ 16;
    } in
    (to_server 0 i, enqueue filled i)

-- The client gets its own buffer back, with more bits set in the options.
unfoldable pub send_back : Server → ℕ → DnsBuffer → ℕ → Sent × Server
send_back s i b bits =
    let marked = record s { bufs = modify s.bufs i (λ x. record x { opt = bit_or x.opt bits }) } in
    (to_client b.qclient i false, release marked i)

-- thread_handler for a query; whether a master zone or the cache answered it into its buffer.
unfoldable pub handle_query : Server → ℕ → Bool → Option (Sent × Server)
unfolding send_on send_back
handle_query s i found = elim (get_elem? s.bufs i) [
  | none ↦ none
  | some b ↦
      if not (b.qdcount == 0x0100)
      then some (send_back s i b rcode_fe)
      else if not found && ltb 0 s.servers
      then some (send_on s i)
      else some (send_back s i b (if found then 0 else rcode_ne))
]

-- thread_handler
unfoldable pub thread_handler : ℕ → Server → ℕ → Bool → Option (Sent × Server)
unfolding handle_response handle_query
thread_handler fuel s i found = elim (get_elem? s.bufs i) [
  | none ↦ none
  | some b ↦ if bit_and b.opt opt_qr == 0 then handle_query s i found else handle_response fuel s i
]
