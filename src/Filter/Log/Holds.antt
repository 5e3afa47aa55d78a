-- ===== src/Filter/Log/Holds.antt =====
-- QX-billing/qxc_logging.c: the queue as two sequences, the records stored since the last swap and
-- those that the last swap handed over.
use qnxstuff.Prelude.{
  ltb_of_lt, ℕ, suc, ◌+◌, ◌%◌, ◌^◌, ◌≤◌, ◌<◌, ◌≡◌, refl, sym, ap, ◌∙◌, ◌≢◌, true, false, some, List,
  [], ◌∷◌, ◌++◌, arith, take, set, length, length-set, length-append, take-suc-set, if◌then◌else◌,
  ◌==◌,
}
use qnxstuff.Prelude.Buffers.{
  Half, first, second, read, read-write_self, read-write_ne, length-read-write,
}
use qnxstuff.Filter.Packet.{LogRecord}
use qnxstuff.Filter.Log.{
  LogQueue, Regions, log_init, counted_up, with_record, log_store_pkt, log_swap_log, region,
  collect,
}

abbrev pub number : Half → ℕ
number first = 0
number second = 1

pub record Holds (q : LogQueue) (current handed : List LogRecord) : Type 0 where
  pub apart : q.active_log ≢ q.shadow_log
  pub numbered : q.log_fd_num ≡ number q.active_log
  pub small : q.log_limit < 2 ^ 32
  pub room : (h : Half) → q.log_limit ≤ length (read h q.mem)
  pub counted : q.active_count ≡ length current
  pub bounded : q.active_count ≤ q.log_limit
  pub stored : take q.active_count (read q.active_log q.mem) ≡ current
  pub shown : take q.shadow_count (read q.shadow_log q.mem) ≡ handed

other : (h k : Half) → h ≢ k → (if number h == 1 then 0 else 1) ≡ number k
other first first n = absurd (n refl)
other first second n = refl
other second first n = refl
other second second n = absurd (n refl)

region-number : (h : Half) → region (number h) ≡ h
region-number first = refl
region-number second = refl

abbrev pub stored_queue : LogQueue → LogRecord → LogQueue
stored_queue q pkt = with_record (counted_up q) q.active_count pkt

module _ {q : LogQueue} {current handed : List LogRecord} (v : Holds q current handed) where
  -- A full queue refuses, and is as before.
  pub store_full :
      (pkt : LogRecord) → q.log_limit ≤ length current → log_store_pkt q pkt ≡ (false, q)
  unfolding log_store_pkt
  store_full pkt full = let c = v.counted in let b = v.bounded in let s = v.small in ground arith

  pub store_room :
      (pkt : LogRecord)
      → length current < q.log_limit
      → log_store_pkt q pkt ≡ (true, stored_queue q pkt)
  unfolding log_store_pkt
  store_room pkt space =
      let c = v.counted in rw (ltb_of_lt q.active_count q.log_limit (omega arith))

  pub store-Holds :
      (pkt : LogRecord)
      → length current < q.log_limit
      → Holds (stored_queue q pkt) (current ++ (pkt ∷ [])) handed
  store-Holds pkt space =
      let c = v.counted in
      let s = v.small in
      let place = v.room q.active_log in
      let buf = read q.active_log q.mem in
      let new = set buf q.active_count pkt in
      let up : (q.active_count + 1) % 2 ^ 32 ≡ suc q.active_count = omega arith in
      record {
        apart = v.apart;
        numbered = v.numbered;
        small = v.small;
        room = λ h.
            let e =
              length-read-write q.active_log h new q.mem (length-set buf q.active_count pkt) in
            let l = v.room h in omega arith;
        counted = omega (arith, length-append current (pkt ∷ []));
        bounded = omega arith;
        stored =
            rw (up, read-write_self q.active_log new q.mem)
              (take-suc-set buf q.active_count pkt (omega arith)
                ∙ ap (λ l. l ++ (pkt ∷ [])) v.stored);
        shown = rw (read-write_ne q.active_log q.shadow_log new q.mem v.apart) v.shown;
      }

  pub swap-Holds : Holds (log_swap_log q).2 [] current
  unfolding log_swap_log
  swap-Holds = record {
    apart = λ e. v.apart (sym e);
    numbered =
        ap (λ (n : ℕ). if n == 1 then 0 else 1) v.numbered
        ∙ other q.active_log q.shadow_log v.apart;
    small = v.small;
    room = v.room;
    counted = refl;
    bounded = omega arith;
    stored = refl;
    shown = v.stored;
  }

  pub swap_count : (log_swap_log q).1 ≡ length current
  unfolding log_swap_log
  swap_count = v.counted

  pub swap_results :
      ◌≡◌ {A = ℕ × ℕ} ((log_swap_log q).0, (log_swap_log q).1) (q.log_fd_num, length current)
  unfolding log_swap_log
  swap_results = ap (λ k. (q.log_fd_num, k)) v.counted

  -- The region that `log_swap_log` returns is the one that it takes from the filter.
  pub swap_names : (log_swap_log q).0 ≡ number (log_swap_log q).2.shadow_log
  unfolding log_swap_log
  swap_names = v.numbered

  pub collect-Holds :
      (rgn cnt : ℕ) → rgn ≡ number q.shadow_log → cnt ≡ q.shadow_count → collect q rgn cnt ≡ handed
  unfolding collect
  collect-Holds rgn cnt e f = rw (e, f, region-number q.shadow_log) v.shown

pub swap_limit : (q : LogQueue) → (log_swap_log q).2.log_limit ≡ q.log_limit
unfolding log_swap_log
swap_limit q = refl

pub swap_sized : (q : LogQueue) → (log_swap_log q).1 ≡ (log_swap_log q).2.shadow_count
unfolding log_swap_log
swap_sized q = refl

-- The system gave two regions of `num_slots` records.
pub record Granted (r : Regions) (num_slots : ℕ) (a b : List LogRecord) : Type 0 where
  pub opened : (r.opened_first ≡ true) × (r.opened_second ≡ true)
  pub truncated : (r.truncated_first ≡ true) × (r.truncated_second ≡ true)
  pub map_first : r.mapped_first ≡ some a
  pub map_second : r.mapped_second ≡ some b
  pub size_first : length a ≡ num_slots
  pub size_second : length b ≡ num_slots

abbrev pub fresh : LogQueue → ℕ → List LogRecord → List LogRecord → LogQueue
fresh q num_slots a b = record {
  mem = record { in_first = a; in_second = b };
  active_log = first;
  shadow_log = second;
  active_count = 0;
  shadow_count = 0;
  log_limit = num_slots;
  log_fd_num = 0;
}

pub init_lem :
    (q : LogQueue) (r : Regions) (num_slots : ℕ) (a b : List LogRecord)
    → Granted r num_slots a b
    → log_init q r num_slots ≡ (1, fresh q num_slots a b)
unfolding log_init
init_lem q r num_slots a b got =
    rw (got.opened.0, got.opened.1, got.truncated.0, got.truncated.1, got.map_first, got.map_second)
      refl

first-ne-second : first ≢ second
first-ne-second e = cc

pub init-Holds :
    (q : LogQueue) (num_slots : ℕ) (a b : List LogRecord)
    → length a ≡ num_slots
    → length b ≡ num_slots
    → num_slots < 2 ^ 32
    → Holds (fresh q num_slots a b) [] []
init-Holds q num_slots a b size_a size_b small = record {
  apart = first-ne-second;
  numbered = refl;
  small = small;
  room = λ h. elim h as (λ k. num_slots ≤ length (read k (fresh q num_slots a b).mem)) [
    | first ↦ omega arith
    | second ↦ omega arith
  ];
  counted = refl;
  bounded = omega arith;
  stored = refl;
  shown = refl;
}
