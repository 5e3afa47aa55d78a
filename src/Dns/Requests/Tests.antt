-- ===== src/Dns/Requests/Tests.antt =====
-- Runs of the queue of QX-dns on small inputs, and the theorems at these inputs.
use qnxstuff.Prelude.{ℕ, ◌≡◌, refl, ◌≢◌, false, Option, none, some, [], ◌∷◌, arith}
use qnxstuff.Dns.Requests.{DnsBuffer, Server, find, take_query, to_server, thread_handler}
use qnxstuff.Dns.Requests.Chain.{Seg, Unique}
use qnxstuff.Dns.Requests.Queue.{Waits, Taken, take-Taken}
use qnxstuff.Dns.Requests.Growth.{handler-Waits}
use qnxstuff.Dns.Requests.Retry.{TwoWait, retry_loops}

abbrev waiting : ℕ → Option ℕ → Option ℕ → DnsBuffer
waiting ref next prev = record {
  qclient = 0;
  qserver = 0;
  ref_id = ref;
  src_id = 0;
  next = next;
  prev = prev;
  id = ref;
  opt = 0;
  qdcount = 0x0100;
}

-- Buffers 0 and 1 wait for the references 7 and 8; 2 holds a refusal of 7, and 3 a new query.
abbrev server : Server
server = record {
  bufs =
      waiting 7 (some 1) none
      ∷ waiting 8 none (some 0)
      ∷ record (waiting 7 none none) { opt = 0x0580 }
      ∷ waiting 0 none none
      ∷ [];
  queue_head = some 0;
  queue_tail = some 1;
  free_buf = none;
  int_req_num = 9;
  servers = 2;
}

zero_ne_one : ◌≢◌ {A = ℕ} 0 1
zero_ne_one e = absurd (cc)

server-Waits : Waits server (0 ∷ 1 ∷ [])
unfolding Seg Unique
server-Waits = record {
  unique = ((zero_ne_one, tt), (tt, tt));
  chain = (_, refl, refl, refl, (_, refl, refl, refl, (refl, refl)));
}

take-Taken_example :
    (o : Option ℕ) × (s' : Server) × (take_query 2 server 8 ≡ some (o, s'))
    × Taken server (0 ∷ 1 ∷ []) 8 o s'
take-Taken_example = take-Taken 2 server (0 ∷ 1 ∷ []) 8 server-Waits (omega arith)

handler-Waits_example :
    (s' : Server) × (thread_handler 2 server 3 false ≡ some (to_server 0 3, s'))
    × Waits s' (0 ∷ 1 ∷ 3 ∷ [])
handler-Waits_example =
    handler-Waits 2 server (0 ∷ 1 ∷ []) 3 (waiting 0 none none) server-Waits
      (λ e. absurd (cc), (λ e. absurd (cc), tt)) refl refl refl (omega arith)

server-TwoWait :
    TwoWait server 0 1 2
      (waiting 7 (some 1) none)
      (waiting 8 none (some 0))
      (record (waiting 7 none none) { opt = 0x0580 })
server-TwoWait = record {
  head = refl;
  tail = refl;
  first = refl;
  second = refl;
  response = refl;
  first_prev = refl;
  first_next = refl;
  second_prev = refl;
  second_next = refl;
  distinct = (zero_ne_one, (λ e. absurd (cc)), (λ e. absurd (cc)));
}

retry_loops_example :
    (s' : Server) × (thread_handler 2 server 2 false ≡ some (to_server 1 0, s'))
    × ((ref : ℕ) → ref ≢ 7 → ref ≢ 8 → (steps : ℕ) → find steps ref s'.bufs s'.queue_head ≡ none)
retry_loops_example =
    retry_loops server 0 1 2 (waiting 7 (some 1) none) (waiting 8 none (some 0))
      (record (waiting 7 none none) { opt = 0x0580 }) server-TwoWait 1 (λ e. absurd (cc)) refl refl
      (omega arith)
