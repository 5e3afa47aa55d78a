-- ===== src/Filter/Gate/Verdicts.antt =====
-- QX-billing/qxc_main.c: which packets pass, and which are charged.
use native.Mathlib.Decide.{dec_lt, ℕ_discrete}
use qnxstuff.Prelude.{
  ℕ, ◌≡◌, refl, ◌∙◌, ap, ◌≢◌, ◌≤◌, ◌<◌, inl, inr, true, false, some, List, [], ◌∷◌, ◌++◌, arith,
  length, Bool-cases, eqb_of_eq, eqb_of_ne,
}
use qnxstuff.Filter.Packet.{LogRecord, Direction, log_parse_pkt}
use qnxstuff.Filter.Rules.Exempts.{match_from}
use qnxstuff.Filter.Rules.Exempts.Holds as ExemptsHolds
use qnxstuff.Filter.Rules.Nics.Holds as NicsHolds
use qnxstuff.Filter.Rules.Spec.{is_client}
use qnxstuff.Filter.Log.Holds.{store_full, store_room, store-Holds, stored_queue}
use qnxstuff.Filter.State.{State, View, Shows}
use qnxstuff.Filter.Gate.{
  Npkt, Verdict, pass, block, active_only, everyone, raw_len, raw_bytes, with_bytes, charge, judge,
  inspect,
}

abbrev stored : View → LogRecord → View
stored a p = record a { current = a.current ++ (p ∷ []) }

-- What becomes of a packet with the record `p`, and of the view.
pub data Judged (a : View) (p : LogRecord) (v : Verdict) (b : View) : Type 0 where
  free_for_all : match_from p a.rules.exempts ≡ everyone → v ≡ pass → b ≡ a → Judged a p v b
  stranger :
      match_from p a.rules.exempts ≢ everyone
      → is_client a.rules p ≡ false
      → v ≡ block
      → b ≡ a
      → Judged a p v b
  free_for_clients :
      match_from p a.rules.exempts ≡ active_only
      → is_client a.rules p ≡ true
      → v ≡ pass
      → b ≡ a
      → Judged a p v b
  charged :
      match_from p a.rules.exempts ≢ everyone
      → match_from p a.rules.exempts ≢ active_only
      → is_client a.rules p ≡ true
      → length a.current < a.limit
      → v ≡ pass
      → b ≡ stored a p
      → Judged a p v b
  no_room :
      match_from p a.rules.exempts ≢ everyone
      → match_from p a.rules.exempts ≢ active_only
      → is_client a.rules p ≡ true
      → a.limit ≤ length a.current
      → v ≡ block
      → b ≡ a
      → Judged a p v b

-- Steps 5 and 6 for a client, in a state whose queue has room or has none.
module _ {f : State} {a : View} (s : Shows f a) (p : LogRecord) where
  charge_room :
      (exempt : ℕ)
      → exempt ≢ active_only
      → length a.current < a.limit
      → (f' : State) × (charge f p exempt ≡ (pass, f')) × Shows f' (stored a p)
  unfolding charge
  charge_room exempt paid room =
      let l = s.limit in
      let done = store_room s.log p (omega arith) in
      (
        record f { log = stored_queue f.log p },
        rw (done, eqb_of_ne exempt active_only paid) refl,
        record { rules = s.rules; log = store-Holds s.log p (omega arith); limit = s.limit },
      )

  charge_full :
      (exempt : ℕ)
      → exempt ≢ active_only
      → a.limit ≤ length a.current
      → charge f p exempt ≡ (block, f)
  unfolding charge
  charge_full exempt paid full =
      let l = s.limit in
      rw (store_full s.log p (omega arith), eqb_of_ne exempt active_only paid) refl

  charge_free : charge f p active_only ≡ (pass, f)
  unfolding charge
  charge_free = refl

abbrev Judges : State → View → LogRecord → Type 0
Judges f a p =
    (v : Verdict) × (f' : State) × (b : View) × (judge f p ≡ some (v, f'))
    × Shows f' b
    × Judged a p v b

module _ {f : State} {a : View} (s : Shows f a) (p : LogRecord) where
  judge_client :
      match_from p a.rules.exempts ≢ everyone
      → is_client a.rules p ≡ true
      → judge f p ≡ some (charge f p (match_from p a.rules.exempts))
  unfolding judge is_client
  judge_client paid known =
      rw
        (
          ExemptsHolds.match-Holds s.rules.exempts p,
          NicsHolds.match-Holds s.rules.nics p,
          known,
          eqb_of_ne (match_from p a.rules.exempts) everyone paid,
          judge,
        )
        (ap (λ k. some (charge f p k)) (ExemptsHolds.match-Holds s.rules.exempts p))

  judge_free : match_from p a.rules.exempts ≡ everyone → judge f p ≡ some (pass, f)
  unfolding judge
  judge_free free = rw (ExemptsHolds.match-Holds s.rules.exempts p, eqb_of_eq _ everyone free) refl

  judge_stranger :
      match_from p a.rules.exempts ≢ everyone
      → is_client a.rules p ≡ false
      → judge f p ≡ some (block, f)
  unfolding judge is_client
  judge_stranger paid out =
      rw
        (
          ExemptsHolds.match-Holds s.rules.exempts p,
          NicsHolds.match-Holds s.rules.nics p,
          out,
          eqb_of_ne (match_from p a.rules.exempts) everyone paid,
          judge,
        )
        refl

  judge_charged :
      match_from p a.rules.exempts ≢ everyone
      → is_client a.rules p ≡ true
      → match_from p a.rules.exempts ≢ active_only
      → Judges f a p
  judge_charged paid known paid' = elim (dec_lt (length a.current) a.limit) [
    | yes room ↦
        let (f', done, shows) = charge_room s p (match_from p a.rules.exempts) paid' room in
        (
          pass,
          f',
          stored a p,
          judge_client paid known ∙ ap some done,
          shows,
          charged paid paid' known room refl refl,
        )
    | no full ↦
        let none_left : a.limit ≤ length a.current = omega arith in
        (
          block,
          f,
          a,
          judge_client paid known
              ∙ ap some (charge_full s p (match_from p a.rules.exempts) paid' none_left),
          s,
          no_room paid paid' known none_left refl refl,
        )
  ]

  judge-Judges : Judges f a p
  judge-Judges = elim (ℕ_discrete (match_from p a.rules.exempts) everyone) [
    | yes free ↦ (pass, f, a, judge_free free, s, free_for_all free refl refl)
    | no paid ↦ elim (Bool-cases (is_client a.rules p)) [
      | inr out ↦ (block, f, a, judge_stranger paid out, s, stranger paid out refl refl)
      | inl known ↦ elim (ℕ_discrete (match_from p a.rules.exempts) active_only) [
        | yes free ↦ (
          pass,
          f,
          a,
          judge_client paid known ∙ ap some (ap (charge f p) free ∙ charge_free s p),
          s,
          free_for_clients free known refl refl,
        )
        | no paid' ↦ judge_charged paid known paid'
      ]
    ]
  ]

-- What becomes of a packet: one that cannot be read is blocked, any other is judged by its record.
pub data Inspected (a : View) (dir : Direction) (n : Npkt) (stack : List ℕ) (v : Verdict) (b : View)
    : Type 0 where
  unreadable :
      (log_parse_pkt (raw_bytes n stack) (raw_len n) dir).0 ≡ false
      → v ≡ block
      → b ≡ a
      → Inspected a dir n stack v b
  readable :
      (log_parse_pkt (raw_bytes n stack) (raw_len n) dir).0 ≡ true
      → Judged a
          (with_bytes dir n.framelen (log_parse_pkt (raw_bytes n stack) (raw_len n) dir).1)
          v
          b
      → Inspected a dir n stack v b

-- The gate decides every packet, by the rules in force and the room in the log alone: it passes
-- what is exempt for everyone, and of the clients' packets what is exempt for clients and what
-- there is room to log; it blocks all else. A charged packet that passes is logged with its
-- length, and nothing else changes the lists or the log.
pub inspect-Inspected :
    {f : State} {a : View} (dir : Direction) (n : Npkt) (stack : List ℕ)
    → Shows f a
    → (v : Verdict) × (f' : State) × (b : View) × (inspect f dir n stack ≡ some (v, f'))
      × Shows f' b
      × Inspected a dir n stack v b
unfolding inspect
inspect-Inspected {f} {a} dir n stack s =
    let parsed = log_parse_pkt (raw_bytes n stack) (raw_len n) dir in
    elim (Bool-cases parsed.0) [
      | inr bad ↦ (block, f, a, rw bad refl, s, unreadable bad refl refl)
      | inl good ↦
          let (v, f', b, done, shows, judged) =
            judge-Judges s (with_bytes dir n.framelen parsed.1) in
          (v, f', b, rw good done, shows, readable good judged)
    ]
