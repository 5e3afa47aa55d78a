-- ===== src/Dns/Master/Tests.antt =====
-- The names of a small zone of QX-dns, and the theorems at these.
use qnxstuff.Prelude.{ℕ, List, [], ◌∷◌, ◌++◌, ◌≡◌, refl, arith}
use qnxstuff.Prelude.Strings.{stricmp_eq}
use qnxstuff.Dns.Master.{matched, rcpy_string, rcmp_names, measured, printed, rprt_name}
use qnxstuff.Dns.Master.Copied.{dotted, pieces}
use qnxstuff.Dns.Master.Compare.{answer_if}
use qnxstuff.Dns.Master.Hosts.{rcmp_names_lem}
use qnxstuff.Dns.Master.Print.{rprt_name_lem}

abbrev www : List ℕ
www = b'w' ∷ b'w' ∷ []

abbrev de : List ℕ
de = b'd' ∷ b'e' ∷ []

-- "ww."
copied : rcpy_string (b'w' ∷ b'w' ∷ b'.' ∷ []) ≡ 2 ∷ b'w' ∷ b'w' ∷ 0xC0 ∷ 0 ∷ []
unfolding rcpy_string measured
copied = refl

-- The query for "WW.de"
abbrev query : List ℕ
query = 2 ∷ b'W' ∷ b'W' ∷ 2 ∷ b'd' ∷ b'e' ∷ []

rcmp_names_lem_example :
    (rcmp_names 10 (query ++ (0 ∷ [])) (rcpy_string (dotted (www ∷ []))) (rcpy_string de)
      ≡ matched 15)
    × (rcmp_names 10 (query ++ (0 ∷ [])) (rcpy_string www) (rcpy_string de)
        ≡ answer_if (stricmp_eq query (pieces (www ∷ []))) 0)
unfolding stricmp_eq
rcmp_names_lem_example =
    rcmp_names_lem 10 query [] www de [] []
      (
        (omega arith, omega arith),
        (
          (omega arith, omega arith),
          (
            (omega arith, omega arith),
            (
              (omega arith, omega arith),
              ((omega arith, omega arith), ((omega arith, omega arith), tt)),
            ),
          ),
        ),
      )
      (
        (
          refl,
          ((omega arith, omega arith), ((omega arith, omega arith), tt)),
          omega arith,
          omega arith,
        ),
        tt,
      )
      (
        (
          refl,
          ((omega arith, omega arith), ((omega arith, omega arith), tt)),
          omega arith,
          omega arith,
        ),
        tt,
      )
      (omega arith)

rprt_name_lem_example :
    (rprt_name 10 20 (rcpy_string (dotted (www ∷ []))) (rcpy_string de) 0
      ≡ printed (2 ∷ b'w' ∷ b'w' ∷ 2 ∷ b'd' ∷ b'e' ∷ 0 ∷ []) 3)
    × (rprt_name 10 20 (rcpy_string (dotted (www ∷ []))) (rcpy_string de) 15
        ≡ printed (2 ∷ b'w' ∷ b'w' ∷ 192 ∷ 15 ∷ []) 15)
rprt_name_lem_example =
    rprt_name_lem 10 20 14 www de [] []
      (
        (
          refl,
          ((omega arith, omega arith), ((omega arith, omega arith), tt)),
          omega arith,
          omega arith,
        ),
        tt,
      )
      (
        (
          refl,
          ((omega arith, omega arith), ((omega arith, omega arith), tt)),
          omega arith,
          omega arith,
        ),
        tt,
      )
      (omega arith) (omega arith) (omega arith) (omega arith)
