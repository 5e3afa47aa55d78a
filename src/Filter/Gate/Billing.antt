-- ===== src/Filter/Gate/Billing.antt =====
-- QX-billing/qxc_main.c: the log holds every byte that is to be paid for, and no other.
use qnxstuff.Prelude.{
  ℕ, ◌+◌, ◌≡◌, refl, ◌∙◌, ap, ◌||◌, Option, none, some, List, [], ◌∷◌, ◌++◌, arith, ◌==◌,
  if◌then◌else◌, eqb_of_eq, eqb_of_ne,
}
use qnxstuff.Filter.Packet.{LogRecord, Direction, log_parse_pkt}
use qnxstuff.Filter.Packet.Parse.{parse-bytes}
use qnxstuff.Filter.Rules.Exempts.{match_from}
use qnxstuff.Filter.Rules.Spec.{Spec}
use qnxstuff.Filter.State.{State, View, Shows}
use qnxstuff.Filter.Gate.{
  Npkt, Verdict, pass, block, active_only, everyone, raw_len, raw_bytes, with_bytes, inspect,
}
use qnxstuff.Filter.Gate.Verdicts.{
  Judged, free_for_all, stranger, free_for_clients, charged, no_room, Inspected, unreadable,
  readable, inspect-Inspected,
}

-- A packet of the interface of interest, and what the stack held when it came.
pub record Arrival : Type 0 where
  pub dir : Direction
  pub npkt : Npkt
  pub stack : List ℕ

-- The packets of a period, one after another.
pub inspect_all : State → List Arrival → Option (List Verdict × State)
inspect_all f [] = some ([], f)
inspect_all f (x ∷ xs) = elim (inspect f x.dir x.npkt x.stack) [
  | none ↦ none
  | some (v, f') ↦ elim (inspect_all f' xs) [ none ↦ none | some (vs, f'') ↦ some (v ∷ vs, f'') ]
]

-- The record that the packet is judged by.
abbrev pub record_of : Arrival → LogRecord
record_of x =
    with_bytes x.dir x.npkt.framelen
      (log_parse_pkt (raw_bytes x.npkt x.stack) (raw_len x.npkt) x.dir).1

-- What a packet is to pay for: its length, unless it is blocked or exempt.
abbrev pub due : Spec → Arrival → Verdict → ℕ
due r x block = 0
due r x pass =
    let exempt = match_from (record_of x) r.exempts in
    if exempt == everyone || exempt == active_only then 0 else x.npkt.framelen

abbrev pub all_due : Spec → List Arrival → List Verdict → ℕ
all_due r (x ∷ xs) (v ∷ vs) = due r x v + all_due r xs vs
all_due r [] vs = 0
all_due r (x ∷ xs) [] = 0

abbrev pub logged : List LogRecord → ℕ
logged [] = 0
logged (p ∷ ps) = p.bytes_to_cli + p.bytes_to_host + logged ps

logged-append : (ps qs : List LogRecord) → logged (ps ++ qs) ≡ logged ps + logged qs
logged-append [] qs = omega arith
logged-append (p ∷ ps) qs = omega (arith, logged-append ps qs)

bytes_of :
    (x : Arrival) → (record_of x).bytes_to_cli + (record_of x).bytes_to_host ≡ x.npkt.framelen
bytes_of x = go x.dir refl
  where
    go :
        (d : Direction)
        → x.dir ≡ d
        → (record_of x).bytes_to_cli + (record_of x).bytes_to_host ≡ x.npkt.framelen
    go d e = ground (arith, parse-bytes (raw_bytes x.npkt x.stack) (raw_len x.npkt) x.dir)

Judged-due :
    {a b : View} {v : Verdict} (x : Arrival)
    → Judged a (record_of x) v b
    → (b.rules ≡ a.rules) × (logged b.current ≡ logged a.current + due a.rules x v)
Judged-due x (free_for_all free p e) = rw (e, p, eqb_of_eq _ everyone free) (refl, omega arith)
Judged-due x (stranger paid out p e) = rw (e, p) (refl, omega arith)
Judged-due x (free_for_clients free known p e) = rw (e, p, free) (refl, omega arith)
Judged-due {a = a} x (charged paid paid' known room p e) =
    rw (e, p, eqb_of_ne _ everyone paid, eqb_of_ne _ active_only paid')
      (refl, omega (arith, logged-append a.current (record_of x ∷ []), bytes_of x))
Judged-due x (no_room paid paid' known full p e) = rw (e, p) (refl, omega arith)

Inspected-due :
    {a b : View} {v : Verdict} (x : Arrival)
    → Inspected a x.dir x.npkt x.stack v b
    → (b.rules ≡ a.rules) × (logged b.current ≡ logged a.current + due a.rules x v)
Inspected-due x (unreadable bad p e) = rw (e, p) (refl, omega arith)
Inspected-due x (readable good j) = Judged-due x j

-- Whatever packets come in a period, each is decided, and the log has grown at its end by exactly
-- the bytes that are to be paid for: those of the packets that passed and were not exempt.
pub inspect_all-logged :
    (xs : List Arrival) {f : State} {a : View}
    → Shows f a
    → (vs : List Verdict) × (f' : State) × (b : View) × (inspect_all f xs ≡ some (vs, f'))
      × Shows f' b
      × (b.rules ≡ a.rules)
      × (logged b.current ≡ logged a.current + all_due a.rules xs vs)
unfolding inspect_all
inspect_all-logged [] {f} {a} s = ([], f, a, refl, s, refl, omega arith)
inspect_all-logged (x ∷ xs) {f} {a} s =
    let (v, f', b, done, shows, how) = inspect-Inspected x.dir x.npkt x.stack s in
    let (same, paid) = Inspected-due x how in
    let (vs, f'', c, done', shows', same', paid') = inspect_all-logged xs shows in
    (
      v ∷ vs,
      f'',
      c,
      rw (done, inspect_all) (rw done' refl),
      shows',
      same' ∙ same,
      omega (arith, paid, paid', ap (λ r. all_due r xs vs) same),
    )
