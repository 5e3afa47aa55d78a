-- ===== src/Dns/Cache/Victim.antt =====
-- QX-dns/cache.c: the record that the scan of qxdns_cache_add chooses.
use qnxstuff.Prelude.{
  ℕ, suc, ◌+◌, ◌<◌, ◌≤◌, ◌≡◌, refl, ◌⊎◌, inl, inr, true, false, Option, some, List, [], ◌∷◌, arith,
  get_elem?, take, any, All, Bool-cases,
}
use qnxstuff.Dns.Cache.{CacheRecord, Scan, expired, candidate, is_expired, is_rarer, scan}

-- One goes before another if it is hit more rarely, or as rarely and expires no later.
abbrev pub Before : ℕ → ℕ → ℕ → ℕ → Type 0
Before h e h' e' = (h < h') ⊎ ((h ≡ h') × (e ≤ e'))

abbrev pub Rarest : CacheRecord → List CacheRecord → Type 0
Rarest v rs = All (λ r. Before v.hits v.expires r.hits r.expires) rs

Before-trans :
    (h e h' e' h'' e'' : ℕ) → Before h e h' e' → Before h' e' h'' e'' → Before h e h'' e''
Before-trans h e h' e' h'' e'' (inl a) (inl b) = inl (omega arith)
Before-trans h e h' e' h'' e'' (inl a) (inr (b, c)) = inl (omega arith)
Before-trans h e h' e' h'' e'' (inr (a, d)) (inl b) = inl (omega arith)
Before-trans h e h' e' h'' e'' (inr (a, d)) (inr (b, c)) = inr (omega arith, omega arith)

-- What the test finds.
rarer-Before : (m e : ℕ) (r : CacheRecord) → is_rarer m e r ≡ true → Before r.hits r.expires m e
rarer-Before m e r t = ground arith

not_rarer-Before :
    (m e : ℕ) (r : CacheRecord) → is_rarer m e r ≡ false → Before m e r.hits r.expires
not_rarer-Before m e r t = ground arith

-- A scan without expired records, of the records from the i-th on: either none is rarer than the
-- candidate, or the rarest of them takes its place.
pub data Chosen (m e : ℕ) (index : Option ℕ) (i : ℕ) (rs : List CacheRecord)
    : Option ℕ → Type 0 where
  kept : All (λ r. is_rarer m e r ≡ false) rs → Chosen m e index i rs index
  took :
      (k : ℕ) (v : CacheRecord)
      → get_elem? rs k ≡ some v
      → Before v.hits v.expires m e
      → Rarest v rs
      → (j : ℕ) → j ≡ i + k
      → Chosen m e index i rs (some j)

-- How the scan ends.
pub data Scanned (now m e : ℕ) (index : Option ℕ) (i : ℕ) (rs : List CacheRecord)
    : Scan → Type 0 where
  found_expired :
      (k : ℕ) (v : CacheRecord)
      → get_elem? rs k ≡ some v
      → is_expired now v ≡ true
      → any (is_expired now) (take k rs) ≡ false
      → (j : ℕ) → j ≡ i + k
      → Scanned now m e index i rs (expired j)
  none_expired :
      any (is_expired now) rs ≡ false
      → (c : Option ℕ) → Chosen m e index i rs c
      → Scanned now m e index i rs (candidate c)

-- No record precedes r, and r precedes the old candidate: r is the rarest, or what takes its place.
module _ (m e : ℕ) (index : Option ℕ) (i : ℕ) (r : CacheRecord) (rs : List CacheRecord) where
  Rarest-kept :
      (xs : List CacheRecord) → All (λ x. is_rarer r.hits r.expires x ≡ false) xs → Rarest r xs
  Rarest-kept [] all = tt
  Rarest-kept (x ∷ xs) (a, all) = (not_rarer-Before r.hits r.expires x a, Rarest-kept xs all)

  take_over :
      (c : Option ℕ)
      → is_rarer m e r ≡ true
      → Chosen r.hits r.expires (some i) (suc i) rs c
      → Chosen m e index i (r ∷ rs) c
  take_over c t (kept all) =
      took 0 r refl (rarer-Before m e r t) (inr (refl, omega arith), Rarest-kept rs all) i
        (omega arith)
  take_over c t (took k v at before rarest j eq) =
      took (suc k) v at
        (Before-trans v.hits v.expires r.hits r.expires m e before (rarer-Before m e r t))
        (before, rarest) j (omega arith)

  pass_over :
      (c : Option ℕ)
      → is_rarer m e r ≡ false
      → Chosen m e index (suc i) rs c
      → Chosen m e index i (r ∷ rs) c
  pass_over c t (kept all) = kept (t, all)
  pass_over c t (took k v at before rarest j eq) =
      took (suc k) v at before
        (
          Before-trans v.hits v.expires m e r.hits r.expires before (not_rarer-Before m e r t),
          rarest,
        )
        j (omega arith)

pub scan-Scanned :
    (now m e : ℕ) (index : Option ℕ) (i : ℕ) (rs : List CacheRecord)
    → Scanned now m e index i rs (scan now m e index i rs)
unfolding scan
scan-Scanned now m e index i [] = none_expired refl index (kept tt)
scan-Scanned now m e index i (r ∷ rs) = elim (Bool-cases (is_expired now r)) [
  | inl old ↦ rw old (found_expired 0 r refl old refl i (omega arith))
  | inr fresh ↦ elim (Bool-cases (is_rarer m e r)) [
    | inl t ↦
        rw (fresh, t) (go_rarer fresh t _ (scan-Scanned now r.hits r.expires (some i) (suc i) rs))
    | inr t ↦ rw (fresh, t) (go_other fresh t _ (scan-Scanned now m e index (suc i) rs))
  ]
]
  where
    go_rarer :
        is_expired now r ≡ false
        → is_rarer m e r ≡ true
        → (s : Scan) → Scanned now r.hits r.expires (some i) (suc i) rs s
        → Scanned now m e index i (r ∷ rs) s
    go_rarer fresh t s (found_expired k v at old before j eq) =
        found_expired (suc k) v at old (rw fresh before) j (omega arith)
    go_rarer fresh t s (none_expired live c chosen) =
        none_expired (rw fresh live) c (take_over m e index i r rs c t chosen)

    go_other :
        is_expired now r ≡ false
        → is_rarer m e r ≡ false
        → (s : Scan) → Scanned now m e index (suc i) rs s
        → Scanned now m e index i (r ∷ rs) s
    go_other fresh t s (found_expired k v at old before j eq) =
        found_expired (suc k) v at old (rw fresh before) j (omega arith)
    go_other fresh t s (none_expired live c chosen) =
        none_expired (rw fresh live) c (pass_over m e index i r rs c t chosen)
