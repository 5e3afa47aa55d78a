-- ===== src/Dns/Master/Hosts.antt =====
-- QX-dns/master.c: which queries are found to name a host of a zone.
use qnxstuff.Prelude.{
  ℕ, ◌+◌, ◌<◌, List, [], ◌∷◌, ◌++◌, length, All, ◌≡◌, ap, ◌∙◌, arith, append_assoc,
}
use qnxstuff.Prelude.Strings.{stricmp_eq}
use qnxstuff.Dns.Master.{rcpy_string, rcmp_names}
use qnxstuff.Dns.Master.Compare.{Plain, answer_if, rcmp_lem, rcmp_zone}
use qnxstuff.Dns.Master.Copied.{Label, dotted, join, pieces, pieces-Plain, rcpy_dotted, rcpy_join}

-- Of a query whose name has no byte from 0xC0 on, the comparison finds, with more fuel than the name
-- has bytes and one, that it is a host whose name ends in a dot exactly if it has the labels of the
-- host and then those of the zone, letters' case aside, and then it gives the place of the zone's name
-- in the query; and a host whose name does not end in a dot exactly if it has its labels alone, and
-- then it gives no place.
pub rcmp_names_lem :
    (fuel : ℕ) (qs more : List ℕ) (l z : List ℕ) (ls zs : List (List ℕ))
    → All Plain qs
    → All Label (l ∷ ls)
    → All Label (z ∷ zs)
    → length qs + 1 < fuel
    → (rcmp_names fuel (qs ++ (0 ∷ more)) (rcpy_string (dotted (l ∷ ls))) (rcpy_string (join z zs))
        ≡ answer_if
            (stricmp_eq qs (pieces (l ∷ ls) ++ pieces (z ∷ zs)))
            (length (pieces (l ∷ ls)) + 12))
      × (rcmp_names fuel (qs ++ (0 ∷ more)) (rcpy_string (join l ls)) (rcpy_string (join z zs))
          ≡ answer_if (stricmp_eq qs (pieces (l ∷ ls))) 0)
unfolding rcmp_names
rcmp_names_lem fuel qs more l z ls zs p h k f =
    let host = rcpy_dotted l ls h in
    let whole = rcpy_join l ls h in
    let zone = rcpy_join z zs k in
    let e : 0 + length (pieces (l ∷ ls)) + 12 ≡ length (pieces (l ∷ ls)) + 12 = omega arith in
    (
      rw (host, zone, append_assoc (pieces (l ∷ ls)) (0xC0 ∷ []) (0 ∷ []))
          (rcmp_zone fuel 0 0 qs (pieces (l ∷ ls)) (pieces (z ∷ zs)) more (0 ∷ []) [] p
              (pieces-Plain (l ∷ ls) h) (pieces-Plain (z ∷ zs) k) f
            ∙ ap (λ n. answer_if (stricmp_eq qs (pieces (l ∷ ls) ++ pieces (z ∷ zs))) n) e),
      rw (whole, zone)
          (rcmp_lem fuel (pieces (z ∷ zs) ++ (0 ∷ [])) 0 0 qs (pieces (l ∷ ls)) more [] p
            (pieces-Plain (l ∷ ls) h) (omega arith)),
    )
