-- ===== src/Dns/Requests/Retry.antt =====
-- QX-dns/main.c: a query that is tried at the next server joins the queue with its old link.
use qnxstuff.Prelude.{
  ℕ, zero, suc, ◌+◌, ◌<◌, ◌≡◌, refl, sym, ap, ap₂, subst, ◌∙◌, ◌≢◌, true, false, none, some, List,
  get_elem?, ltb_of_lt, eqb_of_eq, eqb_of_ne, bit_and,
}
use qnxstuff.Dns.Requests.{
  DnsBuffer, Server, modify, with_next, with_prev, find, pass_next, pass_prev, take_out, take_query,
  lead_to, enqueue, to_server, retry, release, is_refusal, handle_response, thread_handler, opt_qr,
}
use qnxstuff.Dns.Requests.Chain.{modify_self, modify_ne}

-- Two buffers that lead to each other hold a search for ever.
cycle_lem :
    (bufs : List DnsBuffer) (ref i k : ℕ) (bi bk : DnsBuffer)
    → get_elem? bufs i ≡ some bi
    → get_elem? bufs k ≡ some bk
    → bi.next ≡ some k
    → bk.next ≡ some i
    → bi.ref_id ≢ ref
    → bk.ref_id ≢ ref
    → (fuel : ℕ) → (find fuel ref bufs (some i) ≡ none) × (find fuel ref bufs (some k) ≡ none)
unfolding find
cycle_lem bufs ref i k bi bk at at' to_k to_i ne ne' zero = (refl, refl)
cycle_lem bufs ref i k bi bk at at' to_k to_i ne ne' (suc fuel) =
    let (from_i, from_k) = cycle_lem bufs ref i k bi bk at at' to_k to_i ne ne' fuel in
    (
      rw (at, eqb_of_ne bi.ref_id ref ne, find)
          (subst (λ p. find fuel ref bufs p ≡ none) (sym to_k) from_k),
      rw (at', eqb_of_ne bk.ref_id ref ne', find)
          (subst (λ p. find fuel ref bufs p ≡ none) (sym to_i) from_i),
    )

-- The buffer at the head of a queue of one leads on to i, and i back to it.
enqueue_cycle :
    (s : Server) (ref i k : ℕ) (bi bk : DnsBuffer)
    → s.queue_head ≡ some k
    → s.queue_tail ≡ some k
    → i ≢ k
    → get_elem? s.bufs i ≡ some bi
    → get_elem? s.bufs k ≡ some bk
    → bi.next ≡ some k
    → bi.ref_id ≢ ref
    → bk.ref_id ≢ ref
    → (fuel : ℕ) → find fuel ref (enqueue s i).bufs (enqueue s i).queue_head ≡ none
unfolding enqueue lead_to
enqueue_cycle s ref i k bi bk head tail apart at at' to_k ne ne' fuel =
    let f = with_prev s.queue_tail in
    let g = with_next (some i) in
    let bufs = modify s.bufs i f in
    let linked = record s { bufs = bufs } in
    let in_i = modify_ne bufs k i g (λ e. apart (sym e)) ∙ modify_self s.bufs i f bi at in
    let in_k = modify_self bufs k g bk (modify_ne s.bufs i k f apart ∙ at') in
    let (_, loops) =
      cycle_lem (modify bufs k g) ref i k (f bi) (g bk) in_i in_k to_k refl ne ne' fuel in
    subst (λ t. find fuel ref (lead_to linked t i).bufs (lead_to linked t i).queue_head ≡ none)
      (sym tail) (subst (λ h. find fuel ref (modify bufs k g) h ≡ none) (sym head) loops)

-- The first of two waiting queries is tried again.
module _ (s : Server) (i k r : ℕ) (bi bk br : DnsBuffer) where
  -- i and k wait, in this order, and r is in neither place.
  pub record TwoWait : Type 0 where
    pub head : s.queue_head ≡ some i
    pub tail : s.queue_tail ≡ some k
    pub first : get_elem? s.bufs i ≡ some bi
    pub second : get_elem? s.bufs k ≡ some bk
    pub response : get_elem? s.bufs r ≡ some br
    pub first_prev : bi.prev ≡ none
    pub first_next : bi.next ≡ some k
    pub second_prev : bk.prev ≡ some i
    pub second_next : bk.next ≡ none
    pub distinct : (i ≢ k) × (r ≢ i) × (r ≢ k)

  -- The state after the first was taken out.
  abbrev taken : Server
  taken = record s { bufs = modify s.bufs k (with_prev none); queue_head = some k }

  module _ (t : TwoWait) where
    take_first :
        (fuel : ℕ) → br.id ≡ bi.ref_id → take_query (suc fuel) s br.id ≡ some (some i, taken)
    unfolding take_query find take_out pass_next pass_prev
    take_first fuel same =
        let search =
          subst (λ p. find (suc fuel) br.id s.bufs p ≡ some (some i)) (sym t.head)
            (rw (t.first, eqb_of_eq bi.ref_id br.id (sym same), find) refl) in
        let out = ap₂ (λ p n. pass_prev (pass_next s p n) n p) t.first_prev t.first_next in
        rw (search, t.first, take_query) (ap (λ x. some (some i, x)) out)

    -- Of two queries that wait, the first gets a refusal, and there is another server: thread_handler asks
    -- that server, and from then on the search for any reference but those two never ends, whatever
    -- number of steps it is given.
    pub retry_loops :
        (fuel : ℕ)
        → bit_and br.opt opt_qr ≢ 0
        → is_refusal br ≡ true
        → br.id ≡ bi.ref_id
        → bi.qserver + 1 < s.servers
        → (s' : Server) × (thread_handler (suc fuel) s r false
            ≡ some (to_server (bi.qserver + 1) i, s'))
          × ((ref : ℕ)
              → ref ≢ bi.ref_id
              → ref ≢ bk.ref_id
              → (steps : ℕ) → find steps ref s'.bufs s'.queue_head ≡ none)
    unfolding thread_handler handle_response retry
    retry_loops fuel response refusal same more =
        let (i_k, r_i, r_k) = t.distinct in
        let at_i = modify_ne s.bufs k i (with_prev none) (λ e. i_k (sym e)) ∙ t.first in
        let at_k = modify_self s.bufs k (with_prev none) bk t.second in
        let next_server = λ (b : DnsBuffer). record b { qserver = b.qserver + 1 } in
        let moved = record taken { bufs = modify taken.bufs i next_server } in
        let x = release moved r in
        let f = with_next s.free_buf in
        (
          enqueue x i,
          rw (t.response, eqb_of_ne (bit_and br.opt opt_qr) 0 response, thread_handler)
              (rw
                (
                  t.response,
                  take_first fuel same,
                  at_i,
                  refusal,
                  ltb_of_lt (bi.qserver + 1) s.servers more,
                  handle_response,
                )
                refl),
          λ ref ne ne' steps.
              enqueue_cycle x ref i k (next_server bi) (with_prev none bk) refl t.tail i_k
                (modify_ne moved.bufs r i f r_i ∙ modify_self taken.bufs i next_server bi at_i)
                (modify_ne moved.bufs r k f r_k ∙ (modify_ne taken.bufs i k next_server i_k ∙ at_k))
                t.first_next (λ e. ne (sym e)) (λ e. ne' (sym e)) steps,
        )
