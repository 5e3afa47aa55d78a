-- ===== src/Dns/Cache/Lookup.antt =====
-- QX-dns/cache.c: what qxdns_cache_lookup finds, and what it does not look at.
use qnxstuff.Prelude.{
  ℕ, zero, suc, ◌+◌, ◌-◌, ◌<◌, ◌≤◌, ◌≡◌, refl, sym, ap, ap₂, ◌∙◌, Bool, true, false, not, ◌&&◌,
  Option, none, some, List, [], ◌∷◌, ◌++◌, arith, length, get_elem?, set, take, drop, any,
  Bool-cases, ◌==◌, inl, inr, length-drop, any-append, ◌%◌, ◌^◌, ltb_of_le,
}
use qnxstuff.Prelude.Strings.{stricmp_eq, c_string}
use qnxstuff.Dns.Cache.{
  CacheRecord, DnsBuffer, Cache, dns_data_begin, fresh_entry, name_of, answers, hit_once, answered,
  search, lookup_result, qxdns_cache_add, qxdns_cache_lookup, is_expired,
}
use qnxstuff.Dns.Cache.Added.{WellFormed, Placed, for_expired, at_end, for_rarest, add-Placed}

-- The record that answered: a hit more, in a word, and the rest as it was.
abbrev pub HitOnce : CacheRecord → CacheRecord → Type 0
HitOnce r r' =
    (r'.hits ≡ (r.hits + 1) % 2 ^ 32)
    × (r'.expires ≡ r.expires)
    × (r'.datalen ≡ r.datalen)
    × (r'.pkt ≡ r.pkt)

-- The buffer then: the record's length, the query's first two bytes, the record's from the third on
-- up to this length, and the query's bytes behind it.
abbrev pub Answered : DnsBuffer → CacheRecord → DnsBuffer → Type 0
Answered msg r m =
    (m.rcvtime ≡ msg.rcvtime)
    × (m.datalen ≡ r.datalen)
    × (m.pkt ≡ take 2 msg.pkt ++ (take (r.datalen - 2) (drop 2 r.pkt) ++ drop r.datalen msg.pkt))

-- What becomes of the records and the buffer, with the value returned.
pub data Looked (msg : DnsBuffer) (rs : List CacheRecord)
    : ℕ → List CacheRecord → DnsBuffer → Type 0 where
  hit :
      (k : ℕ) (r r' : CacheRecord) (m : DnsBuffer)
      → get_elem? rs k ≡ some r
      → answers msg r ≡ true
      → any (answers msg) (take k rs) ≡ false
      → HitOnce r r'
      → Answered msg r m
      → Looked msg rs 1 (set rs k r') m
  miss : any (answers msg) rs ≡ false → Looked msg rs 0 rs msg

-- The value returned and the buffer after the loop.
abbrev ret_of : Option DnsBuffer → ℕ
ret_of none = 0
ret_of (some m) = 1

abbrev left_in : DnsBuffer → Option DnsBuffer → DnsBuffer
left_in msg none = msg
left_in msg (some m) = m

search-Looked :
    (msg : DnsBuffer) (rs : List CacheRecord)
    → (rs' : List CacheRecord) × (found : Option DnsBuffer) × (search msg rs ≡ (rs', found))
      × Looked msg rs (ret_of found) rs' (left_in msg found)
unfolding search
search-Looked msg [] = ([], none, refl, miss refl)
search-Looked msg (r ∷ rs) =
    let (rs', found, done, looked) = search-Looked msg rs in
    elim (Bool-cases (answers msg r)) [
      | inl good ↦ (
        hit_once r ∷ rs,
        some (answered msg r),
        rw (good, search) refl,
        hit 0 r (hit_once r) (answered msg r) refl good refl (refl, refl, refl, refl)
            (refl, refl, refl),
      )
      | inr bad ↦ (r ∷ rs', found, rw (bad, done, search) refl, go bad _ rs' _ looked)
    ]
  where
    go :
        answers msg r ≡ false
        → (n : ℕ) (rs' : List CacheRecord) (m : DnsBuffer) → Looked msg rs n rs' m
        → Looked msg (r ∷ rs) n (r ∷ rs') m
    go bad n rs' m (hit k v v' a at good none_before once there) =
        hit (suc k) v v' a at good (rw (bad) none_before) once there
    go bad n rs' m (miss none_there) = miss (rw (bad) none_there)

-- qxdns_cache_lookup answers from the first record that is not expired and has the name of the query,
-- whatever its case: it counts a hit more for this record, as a word, and keeps the rest of it,
-- returns 1, and leaves in the buffer the record's length, the first two bytes of the query, the
-- record's from the third on up to this length, and the query's behind. If there is none, it returns
-- 0 and changes nothing.
pub lookup-Looked :
    (c : Cache) (msg : DnsBuffer)
    → (ret : ℕ) × (c' : Cache) × (msg' : DnsBuffer) × (qxdns_cache_lookup c msg ≡ (ret, (c', msg')))
      × (c'.cache_max ≡ c.cache_max)
      × (c'.cache_ttl ≡ c.cache_ttl)
      × Looked msg c.root ret c'.root msg'
unfolding qxdns_cache_lookup
lookup-Looked c msg =
    let (rs, found, done, looked) = search-Looked msg c.root in go rs found done looked
  where
    go :
        (rs : List CacheRecord) (found : Option DnsBuffer)
        → search msg c.root ≡ (rs, found)
        → Looked msg c.root (ret_of found) rs (left_in msg found)
        → (ret : ℕ) × (c' : Cache) × (msg' : DnsBuffer) × (qxdns_cache_lookup c msg
            ≡ (ret, (c', msg')))
          × (c'.cache_max ≡ c.cache_max)
          × (c'.cache_ttl ≡ c.cache_ttl)
          × Looked msg c.root ret c'.root msg'
    go rs none done looked =
        (0, record c { root = rs }, msg, ap (lookup_result c msg) done, refl, refl, looked)
    go rs (some m) done looked =
        (1, record c { root = rs }, m, ap (lookup_result c msg) done, refl, refl, looked)

-- Queries of one name at one time.
module _ (q q' : DnsBuffer) (same_time : q.rcvtime ≡ q'.rcvtime)
    (same_name : name_of q.pkt ≡ name_of q'.pkt) where
  same_answers : (r : CacheRecord) → answers q r ≡ answers q' r
  same_answers r =
      ap₂ (λ t n. not (is_expired t r) && stricmp_eq n (name_of r.pkt)) same_time same_name

  same_search :
      (rs : List CacheRecord)
      → ((search q rs).0 ≡ (search q' rs).0) × (ret_of (search q rs).1 ≡ ret_of (search q' rs).1)
  unfolding search
  same_search [] = (refl, refl)
  same_search (r ∷ rs) =
      let (same, rets) = same_search rs in
      elim (Bool-cases (answers q' r)) [
        | inl good ↦ rw (same_answers r, good) (refl, refl)
        | inr bad ↦ rw (same_answers r, bad) (ap (λ l. r ∷ l) same, rets)
      ]

  ret_of_result :
      (c : Cache) (m : DnsBuffer) (s : List CacheRecord × Option DnsBuffer)
      → (lookup_result c m s).0 ≡ ret_of s.1
  ret_of_result c m (rs, none) = refl
  ret_of_result c m (rs, some a) = refl

  -- Two queries that come at the same time and have the same name, whatever types and classes they
  -- ask for, are both answered from the cache or both not.
  pub lookup_name_only : (c : Cache) → (qxdns_cache_lookup c q).0 ≡ (qxdns_cache_lookup c q').0
  unfolding qxdns_cache_lookup
  lookup_name_only c =
      let (_, rets) = same_search c.root in
      ret_of_result c q (search q c.root) ∙ (rets ∙ sym (ret_of_result c q' (search q' c.root)))

module _ {ℓ} {A : Type ℓ} where
  drop-take-append :
      (n d : ℕ) (xs ys : List A)
      → n ≤ d
      → d ≤ length xs
      → drop n (take d xs ++ ys) ≡ take (d - n) (drop n xs) ++ ys
  drop-take-append zero d xs ys le short = ap (λ m. take m xs ++ ys) (omega arith)
  drop-take-append (suc n) zero xs ys le short = absurd (omega arith)
  drop-take-append (suc n) (suc d) [] ys le short = absurd (omega arith)
  drop-take-append (suc n) (suc d) (x ∷ xs) ys le short =
      drop-take-append n d xs ys (omega arith) (omega arith)
      ∙ ap (λ m. take m (drop n xs) ++ ys) (omega arith)

c_string-take :
    (k : ℕ) (s rest : List ℕ)
    → length (c_string s) < k
    → k ≤ length s
    → c_string (take k s ++ rest) ≡ c_string s
c_string-take zero s rest lt le = absurd (omega arith)
c_string-take (suc k) [] rest lt le = absurd (omega arith)
c_string-take (suc k) (c ∷ s) rest lt le = elim (Bool-cases (c == 0)) [
  | inl end ↦ rw end refl
  | inr more ↦
      let longer : c_string (c ∷ s) ≡ c ∷ c_string s = rw more refl in
      rw more
        (ap (λ l. c ∷ l) (c_string-take k s rest (omega (arith, ap length longer)) (omega arith)))
]

-- The name of a fresh entry, if the packet's length covers it with its NUL.
name-fresh_entry :
    (c : Cache) (msg : DnsBuffer) (old : List ℕ)
    → dns_data_begin + length (name_of msg.pkt) < msg.datalen
    → msg.datalen ≤ length msg.pkt
    → name_of (fresh_entry c msg old).pkt ≡ name_of msg.pkt
name-fresh_entry c msg old covered inside =
    let moved =
      drop-take-append 12 msg.datalen msg.pkt (drop msg.datalen old) (omega arith) inside in
    ap c_string moved
    ∙ c_string-take (msg.datalen - 12) (drop 12 msg.pkt) (drop msg.datalen old) (omega arith)
        (omega (arith, length-drop 12 msg.pkt, inside))

any-set :
    (p : CacheRecord → Bool) (rs : List CacheRecord) (k : ℕ) (v e : CacheRecord)
    → get_elem? rs k ≡ some v
    → p e ≡ true
    → any p (set rs k e) ≡ true
any-set p [] k v e at t = absurd (cc)
any-set p (r ∷ rs) zero v e at t = rw t refl
any-set p (r ∷ rs) (suc k) v e at t = ground (arith, any-set p rs k v e at t)

any-Placed :
    (p : CacheRecord → Bool) (c : Cache) (now : ℕ) (entry : CacheRecord) (rs : List CacheRecord)
    → p entry ≡ true
    → Placed c now entry rs
    → any p rs ≡ true
any-Placed p c now entry rs t (for_expired k v at gone before) = any-set p c.root k v entry at t
any-Placed p c now entry rs t (at_end live fits) =
    any-append p c.root (entry ∷ []) ∙ ground (arith, t)
any-Placed p c now entry rs t (for_rarest live full k v at rarest) = any-set p c.root k v entry at t

found_if_any :
    (q : DnsBuffer) (rs rs' : List CacheRecord) (ret : ℕ) (m : DnsBuffer)
    → any (answers q) rs ≡ true
    → Looked q rs ret rs' m
    → ret ≡ 1
found_if_any q rs rs' ret m there (hit k r r' a at good before once into) = refl
found_if_any q rs rs' ret m there (miss gone) = absurd (cc)

-- If the length of an answer covers its name and the NUL behind it, then after it was added to a
-- well-formed cache, a query of this name, whatever its case, is answered until the time to live of
-- the entry has passed.
pub lookup-add :
    {c : Cache} (msg q : DnsBuffer) (old : List ℕ)
    → WellFormed c
    → dns_data_begin + length (name_of msg.pkt) < msg.datalen
    → msg.datalen ≤ length msg.pkt
    → stricmp_eq (name_of q.pkt) (name_of msg.pkt) ≡ true
    → q.rcvtime ≤ (msg.rcvtime + c.cache_ttl) % 2 ^ 32
    → (c' : Cache) × (qxdns_cache_add c msg (some old) ≡ some (1, c'))
      × ((qxdns_cache_lookup c' q).0 ≡ 1)
lookup-add {c} msg q old w covered inside same_name live =
    let (c', done, _, _, placed) = add-Placed w msg old in
    let entry = fresh_entry c msg old in
    let named : stricmp_eq (name_of q.pkt) (name_of entry.pkt) ≡ true =
      ap (stricmp_eq (name_of q.pkt)) (name-fresh_entry c msg old covered inside) ∙ same_name in
    let fresh = ltb_of_le entry.expires q.rcvtime live in
    let good : answers q entry ≡ true = ap₂ (λ a b. not a && b) fresh named in
    let (ret, c'', m, looked_up, _, _, looked) = lookup-Looked c' q in
    let one =
      found_if_any q c'.root c''.root ret m
        (any-Placed (answers q) c msg.rcvtime entry c'.root good placed) looked in
    (c', done, ap (λ r. r.0) looked_up ∙ one)
