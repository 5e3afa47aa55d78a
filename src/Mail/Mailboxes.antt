-- ===== src/Mail/Mailboxes.antt =====
-- QX-mail: the list of mailboxes, and the locks on them.
use qnxstuff.Prelude.{
  ℕ, suc, Option, none, some, List, [], ◌∷◌, ◌==◌, if◌then◌else◌, get_elem?, set,
}
use qnxstuff.Prelude.Strings.{stricmp_eq}

-- mailbox_t without its mutex
pub record Mailbox : Type 0 where
  pub user : List ℕ
  pub password : List ℕ

abbrev later : Option (ℕ × Mailbox) → Option (ℕ × Mailbox)
later none = none
later (some (i, m)) = some (suc i, m)

-- The loop over MBX that ends at the first mailbox of a name, letters' case aside.
unfoldable pub find_mailbox : List ℕ → List Mailbox → Option (ℕ × Mailbox)
find_mailbox name [] = none
find_mailbox name (m ∷ ms) =
    let rest = later (find_mailbox name ms) in if stricmp_eq m.user name then some (0, m) else rest

-- The mutexes of the mailboxes: who holds each.
abbrev pub Locks : Type 0
Locks = List (Option ℕ)

abbrev owner_unlocks : ℕ → ℕ → Option (Option ℕ) → Locks → Locks
owner_unlocks me i (some (some who)) l = if who == me then set l i none else l
owner_unlocks me i _ l = l

-- `pthread_mutex_unlock`, which refuses who does not hold the mutex.
unfoldable pub unlock : ℕ → Option ℕ → Locks → Locks
unlock me none l = l
unlock me (some i) l = owner_unlocks me i (get_elem? l i) l
