-- ===== src/Ntc/Queue/Runs.antt =====
-- nfm-ntc/main.c and ntc_rm.c: captures, reads and flushes in any order.
use native.Mathlib.Decide.{dec_lt}
use qnxstuff.Prelude.{
  ℕ, ◌≤◌, ◌≡◌, refl, ◌∙◌, ap, ap₂, Option, none, some, List, [], ◌∷◌, ◌++◌, map, arith, ltb,
  ltb_of_lt, ltb_of_le, if◌then◌else◌, length,
}
use qnxstuff.Ntc.Queue.{PktInfo, Queue, missed, log_packet, take_packets, flushed}
use qnxstuff.Ntc.Queue.Holds.{
  Capture, view, capture, Holds, length_held, log_room, log_full, missed-Holds, flushed-Holds,
  newest, older, take-Holds,
}

-- A packet of a length, with its bytes and its direction; a read into a buffer of a size; a flush.
pub data Step : Type 0 where
  captures : (framelen : ℕ) (frame : List ℕ) (dir : ℕ) → Step
  reads : (nbytes : ℕ) → Step
  flushes : Step

-- No frame is shorter than its length says.
unfoldable pub Whole : List Step → Type 0
Whole [] = Unit
Whole (captures framelen frame dir ∷ ss) = (framelen ≤ length frame) × Whole ss
Whole (reads nbytes ∷ ss) = Whole ss
Whole (flushes ∷ ss) = Whole ss

-- What the reads return.
unfoldable pub run : ℕ → Queue → List Step → Option (List (List PktInfo))
run limit q [] = some []
run limit q (captures framelen frame dir ∷ ss) = elim (log_packet limit framelen frame dir q) [
  | none ↦ none
  | some q' ↦ run limit q' ss
]
run limit q (reads nbytes ∷ ss) =
    let (ps, q') = take_packets nbytes q in
    let rest = run limit q' ss in elim rest [ none ↦ none | some outs ↦ some (ps ∷ outs) ]
run limit q (flushes ∷ ss) = run limit (flushed q) ss

-- A stack: a capture is put on top if there is room.
unfoldable pub pushed : ℕ → Capture → List Capture → List Capture
pushed limit c held = if ltb (length held) limit then held ++ (c ∷ []) else held

unfoldable pub promised : ℕ → List Capture → List Step → List (List Capture)
unfolding pushed
promised limit held [] = []
promised limit held (captures framelen frame dir ∷ ss) =
    promised limit (pushed limit (capture framelen frame dir) held) ss
promised limit held (reads nbytes ∷ ss) = newest nbytes held ∷ promised limit (older nbytes held) ss
promised limit held (flushes ∷ ss) = promised limit [] ss

log-Holds :
    {limit : ℕ} {q : Queue} {held : List Capture} (framelen : ℕ) (frame : List ℕ) (dir : ℕ)
    → Holds limit q held
    → framelen ≤ length frame
    → (q' : Queue) × (log_packet limit framelen frame dir q ≡ some q')
      × Holds limit q' (pushed limit (capture framelen frame dir) held)
unfolding pushed
log-Holds {limit} {q} {held} framelen frame dir h whole =
    let count = length_held h in
    elim (dec_lt q.num_packets limit) [
      | yes room ↦
          let (q', done, _, held') = log_room framelen frame dir h room whole in
          (q', done, rw (ltb_of_lt (length held) limit (omega arith)) held')
      | no full ↦ (
        missed q,
        log_full framelen frame dir h (omega arith),
        rw (ltb_of_le (length held) limit (omega arith)) (missed-Holds h),
      )
    ]

run-reads :
    (limit : ℕ) (q : Queue) (ss : List Step) (nbytes : ℕ) {ps : List PktInfo} {q' : Queue}
    (outs : List (List PktInfo))
    → take_packets nbytes q ≡ (ps, q')
    → run limit q' ss ≡ some outs
    → run limit q (reads nbytes ∷ ss) ≡ some (ps ∷ outs)
unfolding run
run-reads limit q ss nbytes outs done ran =
    rw (ap (λ r. run limit (r.1) ss) done ∙ ran, run) (ap (λ r. some (r.0 ∷ outs)) done)

run-Holds :
    (limit : ℕ) (ss : List Step) (q : Queue) (held : List Capture)
    → Holds limit q held
    → Whole ss
    → (outs : List (List PktInfo)) × (run limit q ss ≡ some outs)
      × (map (map view) outs ≡ promised limit held ss)
unfolding run promised Whole
run-Holds limit [] q held h whole = ([], refl, refl)
run-Holds limit (captures framelen frame dir ∷ ss) q held h (long, whole) =
    let (q', done, h') = log-Holds framelen frame dir h long in
    let (outs, ran, same) = run-Holds limit ss q' _ h' whole in (outs, rw (done, run) ran, same)
run-Holds limit (reads nbytes ∷ ss) q held h whole =
    let (ps, q', done, taken, _, h') = take-Holds nbytes h in
    let (outs, ran, same) = run-Holds limit ss q' _ h' whole in
    (ps ∷ outs, run-reads limit q ss nbytes outs done ran, ap₂ (λ x y. x ∷ y) taken same)
run-Holds limit (flushes ∷ ss) q held h whole =
    run-Holds limit ss (flushed q) [] (flushed-Holds h) whole

-- From an array of the limit's length with no packets on, if no frame is shorter than its length
-- says, any captures, reads and flushes write inside the array, and the reads return what a stack
-- returns: a read takes from its top the 50 newest captures at most, as many as there are and as fit
-- into the client's buffer, oldest first; a capture is pushed with its length, its direction and the
-- first 42 bytes at most of its frame, unless the stack has reached the limit.
pub run_of_empty :
    (limit : ℕ) (q : Queue) (ss : List Step)
    → length q.pktq ≡ limit
    → q.num_packets ≡ 0
    → Whole ss
    → (outs : List (List PktInfo)) × (run limit q ss ≡ some outs)
      × (map (map view) outs ≡ promised limit [] ss)
run_of_empty limit q ss size empty whole =
    run-Holds limit ss q [] (record { size = size; inside = omega arith; content = rw empty refl })
      whole
