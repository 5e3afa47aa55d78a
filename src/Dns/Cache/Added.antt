-- ===== src/Dns/Cache/Added.antt =====
-- QX-dns/cache.c: what qxdns_cache_add does to the cache.
use qnxstuff.Prelude.{
  ℕ, zero, suc, ◌+◌, ◌<◌, ◌≤◌, ◌≡◌, refl, true, false, Option, none, some, List, [], ◌∷◌, ◌++◌,
  arith, length, get_elem?, set, take, any, All, ltb_of_lt, ltb_of_le, length-set, length-append,
  ap, ◌∙◌, ◌%◌, ◌^◌,
}
use native.Mathlib.Decide.{dec_lt}
use qnxstuff.Dns.Cache.{
  CacheRecord, DnsBuffer, Cache, Scan, expired, candidate, is_expired, is_rarer, int_max, two_days,
  fresh_entry, scan_cache, qxdns_cache_add,
}
use qnxstuff.Dns.Cache.Victim.{
  Rarest, Chosen, kept, took, Scanned, found_expired, none_expired, scan-Scanned,
}

-- The array is large enough for one record and for those in it, and no record was hit 2 ^ 31 - 1 times.
pub record WellFormed (c : Cache) : Type 0 where
  pub room : 0 < c.cache_max
  pub size : length c.root ≤ c.cache_max
  pub hits : All (λ r. r.hits < int_max) c.root

-- Where the fresh entry goes.
pub data Placed (c : Cache) (now : ℕ) (entry : CacheRecord) : List CacheRecord → Type 0 where
  for_expired :
      (k : ℕ) (v : CacheRecord)
      → get_elem? c.root k ≡ some v
      → is_expired now v ≡ true
      → any (is_expired now) (take k c.root) ≡ false
      → Placed c now entry (set c.root k entry)
  at_end :
      any (is_expired now) c.root ≡ false
      → length c.root < c.cache_max
      → Placed c now entry (c.root ++ (entry ∷ []))
  for_rarest :
      any (is_expired now) c.root ≡ false
      → length c.root ≡ c.cache_max
      → (k : ℕ) (v : CacheRecord) → get_elem? c.root k ≡ some v
      → Rarest v c.root
      → Placed c now entry (set c.root k entry)

All-set :
    (P : CacheRecord → Type 0) (rs : List CacheRecord) (k : ℕ) (v : CacheRecord)
    → P v
    → All P rs
    → All P (set rs k v)
All-set P [] k v p all = all
All-set P (r ∷ rs) zero v p (q, all) = (p, all)
All-set P (r ∷ rs) (suc k) v p (q, all) = (q, All-set P rs k v p all)

All-append :
    (P : CacheRecord → Type 0) (rs : List CacheRecord) (v : CacheRecord)
    → P v
    → All P rs
    → All P (rs ++ (v ∷ []))
All-append P [] v p all = (p, all)
All-append P (r ∷ rs) v p (q, all) = (q, All-append P rs v p all)

-- A full cache has a victim.
rarer_first :
    (e : ℕ) (rs : List CacheRecord)
    → 0 < length rs
    → All (λ r. r.hits < int_max) rs
    → All (λ r. is_rarer int_max e r ≡ false) rs
    → ⊥
rarer_first e [] full hits all = omega arith
rarer_first e (r ∷ rs) full (h, _) (t, _) = ground arith

module _ {c : Cache} (w : WellFormed c) where
  WellFormed-set :
      (k : ℕ) (v : CacheRecord) → v.hits ≡ 1 → WellFormed (record c { root = set c.root k v })
  WellFormed-set k v h = record {
    room = w.room;
    size = omega (arith, length-set c.root k v, w.size);
    hits = All-set (λ r. r.hits < int_max) c.root k v (omega arith) w.hits;
  }

  WellFormed-append :
      (v : CacheRecord)
      → v.hits ≡ 1
      → length c.root < c.cache_max
      → WellFormed (record c { root = c.root ++ (v ∷ []) })
  WellFormed-append v h fits = record {
    room = w.room;
    size = omega (arith, length-append c.root (v ∷ []));
    hits = All-append (λ r. r.hits < int_max) c.root v (omega arith) w.hits;
  }

  -- If memory is given, qxdns_cache_add succeeds on a well-formed cache and leaves a well-formed one: the
  -- fresh entry replaces the first expired record; if none is expired, it goes to the end if there is
  -- room, and otherwise replaces a record that is hit as rarely as any, and among those expires first.
  pub add-Placed :
      (msg : DnsBuffer) (old : List ℕ)
      → (c' : Cache) × (qxdns_cache_add c msg (some old) ≡ some (1, c'))
        × WellFormed c'
        × (c'.cache_max ≡ c.cache_max)
        × Placed c msg.rcvtime (fresh_entry c msg old) c'.root
  unfolding qxdns_cache_add scan_cache
  add-Placed msg old =
      go (scan_cache c msg.rcvtime) refl (scan-Scanned msg.rcvtime int_max exp none 0 c.root)
    where
      exp : ℕ
      exp = (msg.rcvtime + two_days) % 2 ^ 32

      entry : CacheRecord
      entry = fresh_entry c msg old

      Goal : Type 0
      Goal =
          (c' : Cache) × (qxdns_cache_add c msg (some old) ≡ some (1, c'))
          × WellFormed c'
          × (c'.cache_max ≡ c.cache_max)
          × Placed c msg.rcvtime entry c'.root

      victim :
          any (is_expired msg.rcvtime) c.root ≡ false
          → c.cache_max ≤ length c.root
          → (i : Option ℕ) → scan_cache c msg.rcvtime ≡ candidate i
          → Chosen int_max exp none 0 c.root i
          → Goal
      victim live full i e (kept all) =
          absurd (rarer_first exp c.root (omega (arith, w.room)) w.hits all)
      victim live full i e (took k v at before rarest j eq) =
          let same : j ≡ k = omega arith in
          (
            record c { root = set c.root k entry },
            rw
                (
                  e ∙ ap (λ n. candidate (some n)) same,
                  ltb_of_le (length c.root) c.cache_max full,
                  qxdns_cache_add,
                )
                refl,
            WellFormed-set k entry refl,
            refl,
            for_rarest live (omega (arith, w.size)) k v at rarest,
          )

      go :
          (s : Scan)
          → scan_cache c msg.rcvtime ≡ s
          → Scanned msg.rcvtime int_max exp none 0 c.root s
          → Goal
      go s e (found_expired k v at gone before j eq) =
          let same : j ≡ k = omega arith in
          (
            record c { root = set c.root k entry },
            rw (e ∙ ap expired same, qxdns_cache_add) refl,
            WellFormed-set k entry refl,
            refl,
            for_expired k v at gone before,
          )
      go s e (none_expired live i chosen) = elim (dec_lt (length c.root) c.cache_max) [
        | yes fits ↦ (
          record c { root = c.root ++ (entry ∷ []) },
          rw (e, ltb_of_lt (length c.root) c.cache_max fits, qxdns_cache_add) refl,
          WellFormed-append entry refl fits,
          refl,
          at_end live fits,
        )
        | no full ↦ victim live (omega arith) i e chosen
      ]
