-- ===== src/Dns/Master/Print.antt =====
-- QX-dns/master.c: the names that are written into an answer.
use qnxstuff.Prelude.{
  ℕ, suc, ◌+◌, ◌-◌, ◌/◌, ◌%◌, ◌<◌, ◌≤◌, true, false, List, [], ◌∷◌, ◌++◌, ◌==◌, ltb, length, All,
  ◌≡◌, refl, ap, ◌∙◌, arith, append_assoc,
}
use qnxstuff.Dns.Master.{rcpy_string, Printed, printed, and_byte, rprt, rprt_name}
use qnxstuff.Dns.Master.Compare.{Plain}
use qnxstuff.Dns.Master.Copied.{Label, dotted, join, pieces, pieces-Plain, rcpy_dotted, rcpy_join}

-- The bytes in front of what the rest gives.
abbrev pub and_bytes : List ℕ → Printed → Printed
and_bytes [] p = p
and_bytes (c ∷ cs) p = and_byte c (and_bytes cs p)

rprt-Plain :
    (fuel len : ℕ) (zname : List ℕ) (zone_ptr last : ℕ) (cs rest : List ℕ)
    → All Plain cs
    → last + length cs ≤ len
    → rprt (length cs + fuel) len zname zone_ptr last (cs ++ rest)
      ≡ and_bytes cs (rprt fuel len zname zone_ptr (last + length cs) rest)
unfolding rprt
rprt-Plain fuel len zname zone_ptr last [] rest p h =
    let e : 0 + fuel ≡ fuel = omega arith in
    let e' : last + 0 ≡ last = omega arith in rw (e, e') refl
rprt-Plain fuel len zname zone_ptr last (c ∷ cs) rest ((a, b), p) h =
    let e : suc (length cs) + fuel ≡ suc (length cs + fuel) = omega arith in
    let e' : last + 1 + length cs ≡ last + suc (length cs) = omega arith in
    let room : ltb last len ≡ true = ground arith in
    let goes : (c == 0) ≡ false = ground arith in
    let other : (c == 0xC0) ≡ false = ground arith in
    rw
      (
        e,
        rprt,
        room,
        goes,
        other,
        rprt-Plain fuel len zname zone_ptr (last + 1) cs rest p (omega arith),
        e',
      )
      refl

and_bytes-printed : (cs xs : List ℕ) (z : ℕ) → and_bytes cs (printed xs z) ≡ printed (cs ++ xs) z
and_bytes-printed [] xs z = refl
and_bytes-printed (c ∷ cs) xs z = ap (and_byte c) (and_bytes-printed cs xs z)

rprt_end :
    (fuel len : ℕ) (zname : List ℕ) (zone_ptr last : ℕ) (rest : List ℕ)
    → last < len
    → rprt (suc fuel) len zname zone_ptr last (0 ∷ rest) ≡ printed (0 ∷ []) zone_ptr
unfolding rprt
rprt_end fuel len zname zone_ptr last rest h =
    let room : ltb last len ≡ true = ground arith in rw room refl

rprt_zone :
    (fuel len : ℕ) (zname : List ℕ) (last : ℕ) (rest : List ℕ)
    → last < len
    → last < 65536
    → rprt (suc fuel) len zname 0 last (0xC0 ∷ rest) ≡ rprt fuel len zname last last zname
unfolding rprt
rprt_zone fuel len zname last rest h w =
    let room : ltb last len ≡ true = ground arith in
    let whole : last % 65536 ≡ last = omega arith in rw (room, whole) refl

rprt_pointer :
    (fuel len : ℕ) (zname : List ℕ) (p last : ℕ) (rest : List ℕ)
    → last < len
    → suc p < 16384
    → rprt (suc fuel) len zname (suc p) last (0xC0 ∷ rest)
      ≡ printed ((192 + suc p / 256) ∷ (suc p % 256) ∷ []) (suc p)
unfolding rprt
rprt_pointer fuel len zname p last rest h w =
    let room : ltb last len ≡ true = ground arith in
    let known : (suc p == 0) ≡ false = ground arith in
    let bits : suc p / 256 % 64 ≡ suc p / 256 = omega arith in rw (room, known, bits) refl

-- The name of a host that ends in a dot is printed, where there is room for its labels, those of the
-- zone and a NUL, at most 512 bytes of it, with as much fuel as these have bytes and one more: if no
-- place of the zone's name is known, as these labels and the NUL, and then the number of the host's
-- bytes is left as the place; and if one below 0x4000 is known, as the labels of the host and a pointer
-- to the place, which is kept.
pub rprt_name_lem :
    (fuel len p : ℕ) (l z : List ℕ) (ls zs : List (List ℕ))
    → All Label (l ∷ ls)
    → All Label (z ∷ zs)
    → length (pieces (l ∷ ls)) + length (pieces (z ∷ zs)) < len
    → len ≤ 512
    → suc p < 16384
    → length (pieces (l ∷ ls)) + length (pieces (z ∷ zs)) + 2 ≤ fuel
    → (rprt_name fuel len (rcpy_string (dotted (l ∷ ls))) (rcpy_string (join z zs)) 0
        ≡ printed (pieces (l ∷ ls) ++ (pieces (z ∷ zs) ++ (0 ∷ []))) (length (pieces (l ∷ ls))))
      × (rprt_name fuel len (rcpy_string (dotted (l ∷ ls))) (rcpy_string (join z zs)) (suc p)
          ≡ printed (pieces (l ∷ ls) ++ ((192 + suc p / 256) ∷ (suc p % 256) ∷ [])) (suc p))
unfolding rprt_name
rprt_name_lem fuel len p l z ls zs h k room small q f =
    let ns = pieces (l ∷ ls) in
    let ms = pieces (z ∷ zs) in
    let zname = ms ++ (0 ∷ []) in
    let extra = fuel - (length ns + length ms + 2) in
    let e : fuel ≡ length ns + suc (length ms + suc extra) = omega arith in
    let start : 0 + length ns ≡ length ns = omega arith in
    let host = rcpy_dotted l ls h ∙ append_assoc ns (0xC0 ∷ []) (0 ∷ []) in
    let plain =
      rprt-Plain (suc (length ms + suc extra)) len zname 0 0 ns (0xC0 ∷ 0 ∷ [])
        (pieces-Plain (l ∷ ls) h) (omega arith) in
    let plain' =
      rprt-Plain (suc (length ms + suc extra)) len zname (suc p) 0 ns (0xC0 ∷ 0 ∷ [])
        (pieces-Plain (l ∷ ls) h) (omega arith) in
    (
      rw
          (
            host,
            rcpy_join z zs k,
            e,
            plain,
            rprt_zone (length ms + suc extra) len zname (0 + length ns) (0 ∷ []) (omega arith)
                (omega arith),
            rprt-Plain (suc extra) len zname (0 + length ns) (0 + length ns) ms (0 ∷ [])
                (pieces-Plain (z ∷ zs) k) (omega arith),
            rprt_end extra len zname (0 + length ns) (0 + length ns + length ms) [] (omega arith),
            and_bytes-printed ms (0 ∷ []) (0 + length ns),
            start,
          )
          (and_bytes-printed ns (ms ++ (0 ∷ [])) (length ns)),
      rw
          (
            host,
            rcpy_join z zs k,
            e,
            plain',
            rprt_pointer (length ms + suc extra) len zname p (0 + length ns) (0 ∷ []) (omega arith)
                (omega arith),
          )
          (and_bytes-printed ns ((192 + suc p / 256) ∷ (suc p % 256) ∷ []) (suc p)),
    )
