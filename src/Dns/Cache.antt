-- ===== src/Dns/Cache.antt =====
-- QX-dns/cache.c: the answers of other servers, kept until they expire or make room.
pub mod Victim
pub mod Added
pub mod Lookup
use qnxstuff.Prelude.{
  ℕ, suc, ◌+◌, ◌-◌, ◌%◌, ◌^◌, Bool, true, false, not, ◌&&◌, ◌||◌, Option, none, some, List, [], ◌∷◌,
  ◌++◌, ltb, leb, ◌==◌, if◌then◌else◌, length, set, take, drop,
}
use qnxstuff.Prelude.Strings.{stricmp_eq, c_string}

-- `qxdns_cr_t`; its field flags is never used.
pub record CacheRecord : Type 0 where
  pub expires : ℕ
  pub hits : ℕ
  pub datalen : ℕ
  pub pkt : List ℕ

-- What the cache uses of a `dns_buffer_t`.
pub record DnsBuffer : Type 0 where
  pub rcvtime : ℕ
  pub datalen : ℕ
  pub pkt : List ℕ

-- The module's variables; `root` is the first `CacheCount` pointers of `CacheROOT`, all others are
-- NULL.
pub record Cache : Type 0 where
  pub cache_max : ℕ
  pub cache_ttl : ℕ
  pub root : List CacheRecord

-- INT_MAX, and two days
abbrev pub int_max : ℕ
int_max = 2147483647

abbrev pub two_days : ℕ
two_days = 172800

-- DNS_DATA_BEGIN
abbrev pub dns_data_begin : ℕ
dns_data_begin = 12

-- qxdns_cache_init, while `CacheCount` is 0; whether `malloc` gave the array.
pub qxdns_cache_init : Bool → ℕ → ℕ → Cache → ℕ × Cache
qxdns_cache_init given c_max c_ttl c =
    if given
    then (1, record { cache_max = c_max; cache_ttl = c_ttl; root = [] })
    else (0, record c { cache_max = c_max; cache_ttl = c_ttl })

-- How the loop of qxdns_cache_add ended: at an expired record, or past the last one with the
-- candidate for replacement.
pub data Scan : Type 0 where
  expired : ℕ → Scan
  candidate : Option ℕ → Scan

abbrev pub is_expired : ℕ → CacheRecord → Bool
is_expired now r = ltb r.expires now

-- The record is hit more rarely than the one noticed, or as rarely and does not expire later.
abbrev pub is_rarer : ℕ → ℕ → CacheRecord → Bool
is_rarer minhits exp r = leb r.hits minhits && not (r.hits == minhits && ltb exp r.expires)

unfoldable pub scan : (now minhits exp : ℕ) → Option ℕ → ℕ → List CacheRecord → Scan
scan now minhits exp index i [] = candidate index
scan now minhits exp index i (r ∷ rs) =
    let taken = scan now r.hits r.expires (some i) (suc i) rs in
    let left = scan now minhits exp index (suc i) rs in
    if is_expired now r then expired i else if is_rarer minhits exp r then taken else left

-- The fresh entry: the packet over what the allocated memory held.
abbrev pub fresh_entry : Cache → DnsBuffer → List ℕ → CacheRecord
fresh_entry c msg old = record {
  expires = (msg.rcvtime + c.cache_ttl) % 2 ^ 32;
  hits = 1;
  datalen = msg.datalen;
  pkt = take msg.datalen msg.pkt ++ drop msg.datalen old;
}

unfoldable pub scan_cache : Cache → ℕ → Scan
unfolding scan
scan_cache c now = scan now int_max ((now + two_days) % 2 ^ 32) none 0 c.root

-- qxdns_cache_add; what `malloc` gave, if anything. `none`: a write in front of the array.
unfoldable pub qxdns_cache_add : Cache → DnsBuffer → Option (List ℕ) → Option (ℕ × Cache)
unfolding scan_cache
qxdns_cache_add c msg none = some (0, c)
qxdns_cache_add c msg (some old) =
    let entry = fresh_entry c msg old in
    elim (scan_cache c msg.rcvtime) [
      | expired i ↦ some (1, record c { root = set c.root i entry })
      | candidate index ↦
          if ltb (length c.root) c.cache_max
          then some (1, record c { root = c.root ++ (entry ∷ []) })
          else elim index [
            | none ↦ none
            | some i ↦ some (1, record c { root = set c.root i entry })
          ]
    ]

-- The string behind the header, up to its NUL.
abbrev pub name_of : List ℕ → List ℕ
name_of pkt = c_string (drop dns_data_begin pkt)

abbrev pub answers : DnsBuffer → CacheRecord → Bool
answers msg r = not (is_expired msg.rcvtime r) && stricmp_eq (name_of msg.pkt) (name_of r.pkt)

abbrev pub hit_once : CacheRecord → CacheRecord
hit_once r = record r { hits = (r.hits + 1) % 2 ^ 32 }

-- The answer copied behind the identification of the query.
abbrev pub answered : DnsBuffer → CacheRecord → DnsBuffer
answered msg r = record msg {
  datalen = r.datalen;
  pkt = take 2 msg.pkt ++ (take (r.datalen - 2) (drop 2 r.pkt) ++ drop r.datalen msg.pkt);
}

-- The loop of qxdns_cache_lookup: the records, and the buffer if one of them answers.
unfoldable pub search : DnsBuffer → List CacheRecord → List CacheRecord × Option DnsBuffer
search msg [] = ([], none)
search msg (r ∷ rs) =
    let (rest, found) = search msg rs in
    if answers msg r then (hit_once r ∷ rs, some (answered msg r)) else (r ∷ rest, found)

abbrev pub lookup_result :
    Cache → DnsBuffer → List CacheRecord × Option DnsBuffer → ℕ × (Cache × DnsBuffer)
lookup_result c msg (rs, none) = (0, (record c { root = rs }, msg))
lookup_result c msg (rs, some answer) = (1, (record c { root = rs }, answer))

-- qxdns_cache_lookup
unfoldable pub qxdns_cache_lookup : Cache → DnsBuffer → ℕ × (Cache × DnsBuffer)
unfolding search
qxdns_cache_lookup c msg = lookup_result c msg (search msg c.root)
