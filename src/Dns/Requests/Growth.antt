-- ===== src/Dns/Requests/Growth.antt =====
-- QX-dns/main.c: a query that nobody answered joins the queue.
use qnxstuff.Prelude.{
  ℕ, ◌+◌, ◌<◌, ◌%◌, ◌^◌, ◌≡◌, refl, sym, subst, ◌∙◌, ◌≢◌, inl, inr, false, Option, none, some, List,
  [], ◌∷◌, ◌++◌, get_elem?, ltb_of_lt, bit_and, eqb_of_eq,
}
use qnxstuff.Dns.Requests.{
  DnsBuffer, Server, modify, with_next, with_prev, lead_to, enqueue, to_server, sent_on, send_on,
  handle_query, opt_qr, thread_handler,
}
use qnxstuff.Dns.Requests.Chain.{
  Seg, Apart, Unique, modify_self, modify_ne, Seg-modify, Seg-join, Seg-lead, last_cases,
  Unique-middle, Apart-append,
}
use qnxstuff.Dns.Requests.Queue.{Waits}

Unique-snoc : (is : List ℕ) (i : ℕ) → Apart i is → Unique is → Unique (is ++ (i ∷ []))
unfolding Unique
Unique-snoc [] i a u = (tt, tt)
Unique-snoc (j ∷ is) i (n, a) (b, u) = (add j is b (λ e. n (sym e)), Unique-snoc is i a u)
  where
    add : (j : ℕ) (is : List ℕ) → Apart j is → j ≢ i → Apart j (is ++ (i ∷ []))
    add j [] b n = (n, tt)
    add j (k ∷ is) (m, b) n = (m, add j is b n)

-- What the queue is after the old tail, or the head, leads to the buffer.
Joined : Server → List ℕ → Option ℕ → ℕ → Type 0
Joined s is tail i =
    Seg (lead_to s tail i).bufs (lead_to s tail i).queue_head none (is ++ (i ∷ [])) none (some i)

lead-Joined :
    (s : Server) (is : List ℕ) (tail : Option ℕ) (i : ℕ) (b : DnsBuffer)
    → Unique is
    → Apart i is
    → get_elem? s.bufs i ≡ some b
    → b.prev ≡ tail
    → b.next ≡ none
    → Seg s.bufs s.queue_head none is none tail
    → Joined s is tail i
unfolding Joined lead_to Seg
lead-Joined s is tail i b unique apart at back end chain = elim (last_cases is) [
  | inl e ↦
      let (_, first) = subst (λ l. Seg s.bufs s.queue_head none l none tail) e chain in
      subst (λ l. Joined s l tail i) (sym e)
        (subst (λ t. Joined s [] t i) (sym first) (b, refl, at, back ∙ first, (end, refl)))
  | inr (ws, k, e) ↦
      let chain' = subst (λ l. Seg s.bufs s.queue_head none l none tail) e chain in
      let unique' = subst Unique e unique in
      let (left, _) = Unique-middle ws k [] unique' in
      let (last, led) = Seg-lead ws s.bufs s.queue_head none none (some i) tail k left chain' in
      let (_, (other, _)) = Apart-append i ws (k ∷ []) (subst (Apart i) e apart) in
      let at' = modify_ne s.bufs k i (with_next (some i)) (λ x. other (sym x)) ∙ at in
      subst (λ l. Joined s l tail i) (sym e)
        (subst (λ t. Joined s (ws ++ (k ∷ [])) t i) (sym last)
          (Seg-join (ws ++ (k ∷ [])) (i ∷ []) (modify s.bufs k (with_next (some i))) s.queue_head
            none (some i) (some k) none (some i) led (b, refl, at', back ∙ last, (end, refl))))
]

enqueue-Waits :
    (s : Server) (is : List ℕ) (i : ℕ) (b : DnsBuffer)
    → Waits s is
    → Apart i is
    → get_elem? s.bufs i ≡ some b
    → b.next ≡ none
    → Waits (enqueue s i) (is ++ (i ∷ []))
unfolding enqueue Joined
enqueue-Waits s is i b w apart at end = record {
  unique = Unique-snoc is i apart w.unique;
  chain =
      let f = with_prev s.queue_tail in
      let linked = record s { bufs = modify s.bufs i f } in
      lead-Joined linked is s.queue_tail i (f b) w.unique apart (modify_self s.bufs i f b at) refl
        end (Seg-modify is s.bufs s.queue_head none none s.queue_tail i f apart w.chain);
}

-- A query with one question that is not in the queue, that neither a master zone nor the cache answered,
-- and for which there is a server: thread_handler sends it to the first server, and puts it at the end
-- of the queue, which stays linked in both directions and in order.
pub handler-Waits :
    (fuel : ℕ) (s : Server) (is : List ℕ) (i : ℕ) (b : DnsBuffer)
    → Waits s is
    → Apart i is
    → get_elem? s.bufs i ≡ some b
    → bit_and b.opt opt_qr ≡ 0
    → b.qdcount ≡ 0x0100
    → 0 < s.servers
    → (s' : Server) × (thread_handler fuel s i false ≡ some (to_server 0 i, s'))
      × Waits s' (is ++ (i ∷ []))
unfolding thread_handler handle_query send_on
handler-Waits fuel s is i b w apart at query one some_server =
    let f = sent_on s.int_req_num in
    let filled = record s {
      bufs = modify s.bufs i f;
      int_req_num = (s.int_req_num + 1) % 2 ^ 16;
    } in
    (
      enqueue filled i,
      rw (at, eqb_of_eq (bit_and b.opt opt_qr) 0 query, thread_handler)
          (rw (at, eqb_of_eq b.qdcount 0x0100 one, ltb_of_lt 0 s.servers some_server, handle_query)
            refl),
      enqueue-Waits filled is i (f b)
          (record {
            unique = w.unique;
            chain = Seg-modify is s.bufs s.queue_head none none s.queue_tail i f apart w.chain;
          })
          apart (modify_self s.bufs i f b at) refl,
    )
