-- ===== src/Mail/Spooler/Targets.antt =====
-- QX-mail/spooler.c: when the loop over the mail servers of a domain ends, and with which.
use qnxstuff.Prelude.{
  ℕ, suc, ◌+◌, ◌<◌, Bool, true, false, List, [], ◌∷◌, ◌++◌, length, any, ◌≡◌, refl, ap, sym, ◌∙◌,
  arith, length-append, any-append,
}
use qnxstuff.Mail.Spooler.Connect.{
  Try, unresolved, connrefused, timedout, failing, connected, Connection, made, given_up, waiting,
  rotated, connect,
}

-- How many targets some attempts cross out, and whether one makes a connection.
abbrev pub crossed_out : List Try → ℕ
crossed_out [] = 0
crossed_out (unresolved ∷ tries) = suc (crossed_out tries)
crossed_out (connrefused ∷ tries) = suc (crossed_out tries)
crossed_out (_ ∷ tries) = crossed_out tries

abbrev pub connects : List Try → Bool
connects [] = false
connects (connected net ∷ tries) = true
connects (_ ∷ tries) = connects tries

-- The targets after some attempts: one crosses out the first, and a timeout puts it behind the others.
abbrev pub queue_after : List Try → List (List ℕ) → List (List ℕ)
queue_after tries [] = []
queue_after [] (t ∷ ts) = t ∷ ts
queue_after (unresolved ∷ tries) (t ∷ ts) = queue_after tries ts
queue_after (connrefused ∷ tries) (t ∷ ts) = queue_after tries ts
queue_after (timedout ∷ tries) (t ∷ ts) = queue_after tries (ts ++ (t ∷ []))
queue_after (_ ∷ tries) (t ∷ ts) = queue_after tries (t ∷ ts)

abbrev pub Tried : List Try → List (List ℕ) → Connection → Type 0
Tried tries targets (made host net rest) =
    (used : List Try) × (tries ≡ used ++ (connected net ∷ rest))
    × (connects used ≡ false)
    × (crossed_out used < length targets)
    × ((left : List (List ℕ)) × (queue_after used targets ≡ host ∷ left))
    × ((p : List ℕ → Bool) → p host ≡ true → any p targets ≡ true)
Tried tries targets (given_up rest) =
    (used : List Try) × (tries ≡ used ++ rest)
    × (connects used ≡ false)
    × (crossed_out used ≡ length targets)
    × (queue_after used targets ≡ [])
Tried tries targets waiting = (connects tries ≡ false) × (crossed_out tries < length targets)

-- An attempt that makes no connection, in front of others.
later :
    (a : Try) (tries : List Try) (before after : List (List ℕ)) (c : Connection)
    → connects (a ∷ tries) ≡ connects tries
    → ((used : List Try) → connects (a ∷ used) ≡ connects used)
    → ((used : List Try) → crossed_out (a ∷ used) + length after ≡ crossed_out used + length before)
    → ((p : List ℕ → Bool) → any p after ≡ true → any p before ≡ true)
    → ((used : List Try) → queue_after (a ∷ used) before ≡ queue_after used after)
    → Tried tries after c
    → Tried (a ∷ tries) before c
later a tries before after (made host net rest) e none_yet n m q
      (used, eq, c, lt, (left, at), mem) =
    (
      a ∷ used,
      ap (λ x. a ∷ x) eq,
      none_yet used ∙ c,
      omega (arith, n used),
      (left, q used ∙ at),
      λ p h. m p (mem p h),
    )
later a tries before after (given_up rest) e none_yet n m q (used, eq, c, all, none_left) =
    (a ∷ used, ap (λ x. a ∷ x) eq, none_yet used ∙ c, omega (arith, n used), q used ∙ none_left)
later a tries before after waiting e none_yet n m q (c, lt) = (e ∙ c, omega (arith, n tries))

rotated_lem : (t : List ℕ) (ts : List (List ℕ)) → ts ++ (t ∷ []) ≡ rotated t ts
rotated_lem t [] = refl
rotated_lem t (u ∷ ts) = refl

any-rotated :
    (p : List ℕ → Bool) (t : List ℕ) (ts : List (List ℕ)) → any p (rotated t ts) ≡ any p (t ∷ ts)
any-rotated p t [] = refl
any-rotated p t (u ∷ ts) = ground (arith, any-append p ts (t ∷ []))

length-rotated : (t : List ℕ) (ts : List (List ℕ)) → length (rotated t ts) ≡ suc (length ts)
length-rotated t [] = refl
length-rotated t (u ∷ ts) = omega (arith, length-append ts (t ∷ []))

-- Whatever comes of the attempts, the loop comes to the first connection that they make, if the
-- attempts in front of it that found a name unresolved or were refused are fewer than the targets: with
-- the target that is then first, where each of these crosses out the first target, and each timeout puts
-- it behind the others. It gives up where these are as many as the targets, none of which is left, and
-- before a connection; and it waits for more while they are fewer and none connects.
pub connect-Tried :
    (tries : List Try) (targets : List (List ℕ)) → Tried tries targets (connect tries targets)
unfolding connect
connect-Tried tries [] = ([], refl, refl, refl, refl)
connect-Tried [] (t ∷ ts) = (refl, omega arith)
connect-Tried (unresolved ∷ tries) (t ∷ ts) =
    later unresolved tries (t ∷ ts) ts (connect tries ts) refl (λ u. refl) (λ u. omega arith)
      (λ p h. ground (arith, h)) (λ u. refl) (connect-Tried tries ts)
connect-Tried (connrefused ∷ tries) (t ∷ ts) =
    later connrefused tries (t ∷ ts) ts (connect tries ts) refl (λ u. refl) (λ u. omega arith)
      (λ p h. ground (arith, h)) (λ u. refl) (connect-Tried tries ts)
connect-Tried (timedout ∷ tries) (t ∷ ts) =
    later timedout tries (t ∷ ts) (rotated t ts) (connect tries (rotated t ts)) refl (λ u. refl)
      (λ u. omega (arith, length-rotated t ts)) (λ p h. sym (any-rotated p t ts) ∙ h)
      (λ u. ap (queue_after u) (rotated_lem t ts)) (connect-Tried tries (rotated t ts))
connect-Tried (failing ∷ tries) (t ∷ ts) =
    later failing tries (t ∷ ts) (t ∷ ts) (connect tries (t ∷ ts)) refl (λ u. refl) (λ u. refl)
      (λ p h. h) (λ u. refl) (connect-Tried tries (t ∷ ts))
connect-Tried (connected net ∷ tries) (t ∷ ts) =
    ([], refl, refl, omega arith, (ts, refl), λ p h. ground (arith, h))
