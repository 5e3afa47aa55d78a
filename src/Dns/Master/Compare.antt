-- ===== src/Dns/Master/Compare.antt =====
-- QX-dns/master.c: what the comparison of a query's name with that of a host in a zone finds.
use qnxstuff.Prelude.{
  ℕ, zero, suc, ◌+◌, ◌<◌, Bool, false, List, [], ◌∷◌, ◌++◌, ◌==◌, if◌then◌else◌, length, All, ◌≡◌,
  refl, arith, Bool-cases, inl, inr,
}
use qnxstuff.Prelude.Strings.{toupper, stricmp_eq}
use qnxstuff.Dns.Master.{Compared, matched, differs, rcmp}

-- The bytes of a name in front of its end, without 0xC0.
abbrev pub Plain : ℕ → Type 0
Plain c = (0 < c) × (c < 0xC0)

abbrev pub answer_if : Bool → ℕ → Compared
answer_if b zone_ptr = if b then matched zone_ptr else differs

toupper_ne : (c d : ℕ) → Plain c → d ≡ 0 → (toupper c == d) ≡ false
toupper_ne c d (a, b) e = ground arith

ne_toupper : (c : ℕ) → Plain c → (0 == toupper c) ≡ false
ne_toupper c (a, b) = ground arith

Plain-not_mark : (c : ℕ) → Plain c → (toupper c == 0xC0) ≡ false
Plain-not_mark c (a, b) = ground arith

-- The comparison with a name that ends.
pub rcmp_lem :
    (fuel : ℕ) (zname : List ℕ) (zone_ptr qi : ℕ) (qs ns more rest : List ℕ)
    → All Plain qs
    → All Plain ns
    → length qs < fuel
    → rcmp fuel zname zone_ptr qi (qs ++ (0 ∷ more)) (ns ++ (0 ∷ rest))
      ≡ answer_if (stricmp_eq qs ns) zone_ptr
unfolding rcmp stricmp_eq
rcmp_lem zero zname zone_ptr qi qs ns more rest p r f = absurd (omega arith)
rcmp_lem (suc fuel) zname zone_ptr qi [] [] more rest p r f = refl
rcmp_lem (suc fuel) zname zone_ptr qi [] (c ∷ ns) more rest p (a, r) f =
    let other : (c == 0xC0) ≡ false = ground arith in rw (ne_toupper c a, other) refl
rcmp_lem (suc fuel) zname zone_ptr qi (q ∷ qs) [] more rest (a, p) r f =
    rw (toupper_ne q 0 a refl) refl
rcmp_lem (suc fuel) zname zone_ptr qi (q ∷ qs) (c ∷ ns) more rest (a, p) (d, r) f =
    let other : (c == 0xC0) ≡ false = ground arith in
    let on : (q == 0) ≡ false = ground arith in
    elim (Bool-cases (toupper q == toupper c)) [
      | inl same ↦
          rw (same, on, rcmp_lem fuel zname zone_ptr (qi + 1) qs ns more rest p r (omega arith))
            refl
      | inr differ ↦ rw (differ, other) refl
    ]

-- The comparison with a name that goes on with that of its zone.
pub rcmp_zone :
    (fuel : ℕ) (zone_ptr qi : ℕ) (qs ns zs more rest behind : List ℕ)
    → All Plain qs
    → All Plain ns
    → All Plain zs
    → length qs + 1 < fuel
    → rcmp fuel (zs ++ (0 ∷ behind)) zone_ptr qi (qs ++ (0 ∷ more)) (ns ++ (0xC0 ∷ rest))
      ≡ answer_if (stricmp_eq qs (ns ++ zs)) (qi + length ns + 12)
unfolding rcmp stricmp_eq
rcmp_zone zero zone_ptr qi qs ns zs more rest behind p r z f = absurd (omega arith)
rcmp_zone (suc fuel) zone_ptr qi [] [] zs more rest behind p r z f =
    let e : qi + 0 + 12 ≡ qi + 12 = omega arith in
    rw e (rcmp_lem fuel (zs ++ (0 ∷ behind)) (qi + 12) qi [] zs more behind p z (omega arith))
rcmp_zone (suc fuel) zone_ptr qi (q ∷ qs) [] zs more rest behind (a, p) r z f =
    let e : qi + 0 + 12 ≡ qi + 12 = omega arith in
    rw (Plain-not_mark q a, e)
      (rcmp_lem fuel (zs ++ (0 ∷ behind)) (qi + 12) qi (q ∷ qs) zs more behind (a, p) z
        (omega arith))
rcmp_zone (suc fuel) zone_ptr qi [] (c ∷ ns) zs more rest behind p (d, r) z f =
    let other : (c == 0xC0) ≡ false = ground arith in rw (ne_toupper c d, other) refl
rcmp_zone (suc fuel) zone_ptr qi (q ∷ qs) (c ∷ ns) zs more rest behind (a, p) (d, r) z f =
    let other : (c == 0xC0) ≡ false = ground arith in
    let on : (q == 0) ≡ false = ground arith in
    let e : qi + 1 + length ns + 12 ≡ qi + suc (length ns) + 12 = omega arith in
    elim (Bool-cases (toupper q == toupper c)) [
      | inl same ↦
          rw
            (
              same,
              on,
              rcmp_zone fuel zone_ptr (qi + 1) qs ns zs more rest behind p r z (omega arith),
              e,
            )
            refl
      | inr differ ↦ rw (differ, other) refl
    ]
