-- ===== src/Filter/Log/Spec.antt =====
-- What QX-billing/qxc_logging.c promises the logger: at a swap it is handed the records stored
-- since the swap before, and it reads them until the next, whatever is stored meanwhile.
use native.Mathlib.Decide.{dec_lt}
use qnxstuff.Prelude.{
  ltb_of_lt, ltb_of_le, ℕ, ◌^◌, ◌≤◌, ◌<◌, ◌≡◌, refl, ap, ◌∙◌, Bool, true, false, List, [], ◌∷◌,
  ◌++◌, ltb, arith, length, if◌then◌else◌, ap₂,
}
use qnxstuff.Filter.Packet.{LogRecord}
use qnxstuff.Filter.Log.{LogQueue, Regions, log_init, log_store_pkt, log_swap_log, collect}
use qnxstuff.Filter.Log.Holds.{
  Holds, number, store_full, store_room, store-Holds, swap-Holds, swap_count, swap_limit,
  swap_names, swap_sized, collect-Holds, Granted, init_lem, init-Holds,
}

pub data Call : Type 0 where
  store : LogRecord → Call
  swap : Call
  look : Call

pub data Reply : Type 0 where
  stored : Bool → Reply
  handed_over : ℕ → Reply
  seen : List LogRecord → Reply

-- The filter's queue, and the region and the count that the logger was told last.
pub record Session : Type 0 where
  pub queue : LogQueue
  pub rgn : ℕ
  pub cnt : ℕ

pub step : Session → Call → Reply × Session
step s (store pkt) =
    let (done, q) = log_store_pkt s.queue pkt in (stored done, record s { queue = q })
step s swap =
    let (rgn, cnt, q) = log_swap_log s.queue in
    (handed_over cnt, record { queue = q; rgn = rgn; cnt = cnt })
step s look = (seen (collect s.queue s.rgn s.cnt), s)

pub run : Session → List Call → List Reply
run s [] = []
run s (c ∷ cs) = let (r, s') = step s c in r ∷ run s' cs

pub record Spec : Type 0 where
  pub current : List LogRecord
  pub handed : List LogRecord
  pub limit : ℕ

pub spec_step : Spec → Call → Reply × Spec
spec_step a (store pkt) =
    if ltb (length a.current) a.limit
    then (stored true, record a { current = a.current ++ (pkt ∷ []) })
    else (stored false, a)
spec_step a swap = (handed_over (length a.current), record a { current = []; handed = a.current })
spec_step a look = (seen a.handed, a)

pub spec_run : Spec → List Call → List Reply
spec_run a [] = []
spec_run a (c ∷ cs) = let (r, a') = spec_step a c in r ∷ spec_run a' cs

pub record Refines (s : Session) (a : Spec) : Type 0 where
  pub holds : Holds s.queue a.current a.handed
  pub limit : s.queue.log_limit ≡ a.limit
  pub named : s.rgn ≡ number s.queue.shadow_log
  pub sized : s.cnt ≡ s.queue.shadow_count

abbrev pub Simulates : Session → Spec → Call → Type 0
Simulates s a c = ((step s c).0 ≡ (spec_step a c).0) × Refines (step s c).1 (spec_step a c).1

module _ {s : Session} {a : Spec} (v : Refines s a) where
  store-Simulates : (pkt : LogRecord) → Simulates s a (store pkt)
  unfolding step spec_step
  store-Simulates pkt = elim (dec_lt (length a.current) a.limit) [
    | yes space ↦
        let l = v.limit in
        let room : length a.current < s.queue.log_limit = omega arith in
        rw (store_room v.holds pkt room, ltb_of_lt (length a.current) a.limit space)
          (
            refl,
            record {
              holds = store-Holds v.holds pkt room;
              limit = v.limit;
              named = v.named;
              sized = v.sized;
            },
          )
    | no full ↦
        let l = v.limit in
        let none_left : a.limit ≤ length a.current = omega arith in
        rw (store_full v.holds pkt (omega arith), ltb_of_le (length a.current) a.limit none_left)
          (refl, v)
  ]

  swap-Simulates : Simulates s a swap
  unfolding step spec_step
  swap-Simulates = (
    ap handed_over (swap_count v.holds),
    record {
      holds = swap-Holds v.holds;
      limit = swap_limit s.queue ∙ v.limit;
      named = swap_names v.holds;
      sized = swap_sized s.queue;
    },
  )

  look-Simulates : Simulates s a look
  unfolding step spec_step
  look-Simulates = (ap seen (collect-Holds v.holds s.rgn s.cnt v.named v.sized), v)

  pub step-Simulates : (c : Call) → Simulates s a c
  step-Simulates (store pkt) = store-Simulates pkt
  step-Simulates swap = swap-Simulates
  step-Simulates look = look-Simulates

run-Refines : (cs : List Call) {s : Session} {a : Spec} → Refines s a → run s cs ≡ spec_run a cs
unfolding run spec_run
run-Refines [] v = refl
run-Refines (c ∷ cs) v =
    let (same, holds) = step-Simulates v c in ap₂ ◌∷◌ same (run-Refines cs holds)

abbrev pub empty : ℕ → Spec
empty num_slots = record { current = []; handed = []; limit = num_slots }

-- A logger that has been told nothing yet reads nothing.
abbrev pub start : LogQueue → Session
start q = record { queue = q; rgn = 1; cnt = 0 }

-- From `log_init` on, if it is given two regions of `num_slots` records, any stores, swaps and
-- reads of the logger in a row have the results that the specification gives.
pub init-run_log :
    (q : LogQueue) (r : Regions) (num_slots : ℕ) (a b : List LogRecord) (cs : List Call)
    → Granted r num_slots a b
    → num_slots < 2 ^ 32
    → ((log_init q r num_slots).0 ≡ 1)
      × (run (start (log_init q r num_slots).1) cs ≡ spec_run (empty num_slots) cs)
init-run_log q r num_slots a b cs got small =
    let e = init_lem q r num_slots a b got in
    rw e (
      refl,
      run-Refines cs (record {
        holds = init-Holds q num_slots a b got.size_first got.size_second small;
        limit = refl;
        named = refl;
        sized = refl;
      }),
    )
