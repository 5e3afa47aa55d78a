-- ===== src/Mail/Pop/Locks.antt =====
-- The mutex of a mailbox over a connection of thread_handler_pop.
use qnxstuff.Prelude.{
  ℕ, zero, suc, ◌<◌, ◌≡◌, refl, ap, ◌≢◌, Option, none, some, List, [], ◌∷◌, length, get_elem?, set,
  arith, get_elem?-set_self,
}
use qnxstuff.Mail.Mailboxes.{Locks, unlock}
use qnxstuff.Mail.Pop.Connection.{PopState, mbx_none, mbx_auth, mbx_tran, Pop}

-- The mutexes while a connection is in a state, where they were `l` when it began: it holds that of
-- the mailbox entered, and else none.
abbrev pub View : ℕ → Locks → PopState → Option ℕ → Locks → Type 0
View me l mbx_tran (some i) now = (get_elem? l i ≡ some none) × (now ≡ set l i (some me))
View me l mbx_tran none now = ⊥
View me l _ m now = now ≡ l

abbrev pub Holds : ℕ → Locks → Pop → Type 0
Holds me l s = View me l s.pstate s.mbox s.locks

-- A thread holds none of the mutexes.
abbrev pub HoldsNone : ℕ → Locks → Type 0
HoldsNone me l = (i : ℕ) → get_elem? l i ≢ some (some me)

set-set_back :
    (l : Locks) (i : ℕ) (o : Option ℕ) → get_elem? l i ≡ some none → set (set l i o) i none ≡ l
set-set_back [] i o h = refl
set-set_back (x ∷ l) zero o h = ground arith
set-set_back (x ∷ l) (suc i) o h = ap (λ t. x ∷ t) (set-set_back l i o h)

get_elem?-lt_length {ℓ} :
    {A : Type ℓ} (l : List A) (i : ℕ) {x : A} → get_elem? l i ≡ some x → i < length l
get_elem?-lt_length [] i h = cc
get_elem?-lt_length (x ∷ l) zero h = omega arith
get_elem?-lt_length (x ∷ l) (suc i) h = omega (arith, get_elem?-lt_length l i h)

unlock-held :
    (me i : ℕ) (l : Locks) → get_elem? l i ≡ some none → unlock me (some i) (set l i (some me)) ≡ l
unfolding unlock
unlock-held me i l h =
    rw (get_elem?-set_self l i (some me) (get_elem?-lt_length l i h))
      (ground (arith, set-set_back l i (some me) h))

unlock-not_held : (me : ℕ) (m : Option ℕ) (l : Locks) → HoldsNone me l → unlock me m l ≡ l
unfolding unlock
unlock-not_held me none l h = refl
unlock-not_held me (some i) l h = ground (arith, h i)

pub unlock-View :
    (me : ℕ) (l : Locks) (p : PopState) (m : Option ℕ) (now : Locks)
    → HoldsNone me l
    → View me l p m now
    → unlock me m now ≡ l
unlock-View me l mbx_tran none now n v = elim v [ ]
unlock-View me l mbx_tran (some i) now n v = rw v.1 (unlock-held me i l v.0)
unlock-View me l mbx_none m now n v = rw v (unlock-not_held me m l n)
unlock-View me l mbx_auth m now n v = rw v (unlock-not_held me m l n)
