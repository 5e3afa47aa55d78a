-- ===== src/Dns/Tests.antt =====
-- Runs of the cache of QX-dns on small inputs, and the theorems at these inputs.
use qnxstuff.Prelude.{ℕ, ◌≡◌, refl, true, some, List, [], ◌∷◌, ◌++◌, arith}
use qnxstuff.Prelude.Strings.{stricmp_eq}
use qnxstuff.Dns.Cache.{
  CacheRecord, DnsBuffer, Cache, fresh_entry, scan_cache, scan, qxdns_cache_add, qxdns_cache_lookup,
}
use qnxstuff.Dns.Cache.Added.{WellFormed, Placed, add-Placed}
use qnxstuff.Dns.Cache.Lookup.{Looked, lookup-Looked, lookup_name_only, lookup-add}

abbrev header : List ℕ
header = 0 ∷ 1 ∷ 1 ∷ 0 ∷ 0 ∷ 1 ∷ 0 ∷ 0 ∷ 0 ∷ 0 ∷ 0 ∷ 0 ∷ []

-- The name "a" and one question of a type.
abbrev question : ℕ → ℕ → DnsBuffer
question letter qtype = record {
  rcvtime = 1000;
  datalen = 19;
  pkt = header ++ (1 ∷ letter ∷ 0 ∷ 0 ∷ qtype ∷ 0 ∷ 1 ∷ []);
}

-- Two records, as often hit; the second expires first.
abbrev kept_until : ℕ → CacheRecord
kept_until t = record { expires = t; hits = 2; datalen = 12; pkt = header }

abbrev cache : Cache
cache = record { cache_max = 2; cache_ttl = 100; root = kept_until 1500 ∷ kept_until 1400 ∷ [] }

cache-WellFormed : WellFormed cache
cache-WellFormed = record {
  room = omega arith;
  size = omega arith;
  hits = (omega arith, (omega arith, tt));
}

add-Placed_example :
    (c' : Cache) × (qxdns_cache_add cache (question b'a' 1) (some []) ≡ some (1, c'))
    × WellFormed c'
    × (c'.cache_max ≡ 2)
    × Placed cache 1000 (fresh_entry cache (question b'a' 1) []) c'.root
add-Placed_example = add-Placed cache-WellFormed (question b'a' 1) []

-- The record that expires first makes room.
second_replaced :
    qxdns_cache_add cache (question b'a' 1) (some [])
    ≡ some
        (1, record cache { root = kept_until 1500 ∷ fresh_entry cache (question b'a' 1) [] ∷ [] })
unfolding qxdns_cache_add scan_cache scan
second_replaced = refl

lookup-Looked_example :
    (ret : ℕ) × (c' : Cache) × (msg' : DnsBuffer) × (qxdns_cache_lookup cache (question b'a' 1)
      ≡ (ret, (c', msg')))
    × (c'.cache_max ≡ 2)
    × (c'.cache_ttl ≡ 100)
    × Looked (question b'a' 1) cache.root ret c'.root msg'
lookup-Looked_example = lookup-Looked cache (question b'a' 1)

-- An address and a mail exchange.
types_not_compared :
    (qxdns_cache_lookup cache (question b'a' 1)).0 ≡ (qxdns_cache_lookup cache (question b'a' 15)).0
types_not_compared = lookup_name_only (question b'a' 1) (question b'a' 15) refl refl cache

same_name : stricmp_eq (1 ∷ b'A' ∷ []) (1 ∷ b'a' ∷ []) ≡ true
unfolding stricmp_eq
same_name = refl

lookup-add_example :
    (c' : Cache) × (qxdns_cache_add cache (question b'a' 1) (some []) ≡ some (1, c'))
    × ((qxdns_cache_lookup c' (question b'A' 1)).0 ≡ 1)
lookup-add_example =
    lookup-add (question b'a' 1) (question b'A' 1) [] cache-WellFormed (omega arith) (omega arith)
      same_name (omega arith)
