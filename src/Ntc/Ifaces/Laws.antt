-- ===== src/Ntc/Ifaces/Laws.antt =====
-- nfm-ntc/main.c and ntc_rm.c: the list of interfaces after each of its operations.
use native.Mathlib.Nat.{div-eq-sub-div, div-eq_of_lt}
use qnxstuff.Prelude.{
  ℕ, zero, suc, ◌-◌, ◌/◌, ◌<◌, ◌≤◌, ◌≡◌, refl, sym, subst, ◌∙◌, ap, get_elem?, any-map, true, false,
  some, List, [], ◌∷◌, map, arith, leb, if◌then◌else◌, length, set, take, any, Bool-cases, inl, inr,
}
use qnxstuff.Prelude.Strings.{stricmp_eq, stricmp_eq_refl}
use qnxstuff.Ntc.Ifaces.{IfInfo, Ids, named, set_interest, descriptors, renumber, with_ids, advert}

-- The place of the first interface of a name; past the end if there is none.
pub place : List ℕ → List IfInfo → ℕ
place name [] = 0
place name (i ∷ ifs) = let rest = place name ifs in if stricmp_eq i.ifname name then 0 else suc rest

abbrev pub forget : IfInfo → IfInfo
forget i = record i { ofinterest = 0 }

-- The first interface of the name, and it alone, takes the value; the rest of each stays.
pub record Marked (v : ℕ) (name : List ℕ) (ifs ifs' : List IfInfo) (ret : ℕ) : Type 0 where
  pub marks : map IfInfo.ofinterest ifs' ≡ set (map IfInfo.ofinterest ifs) (place name ifs) v
  pub others : map forget ifs' ≡ map forget ifs
  pub answer : ret ≡ (if named name ifs then 1 else 0)

pub set_interest-Marked :
    (v : ℕ) (name : List ℕ) (ifs : List IfInfo)
    → (ifs' : List IfInfo) × (ret : ℕ) × (set_interest v name ifs ≡ (ifs', ret))
      × Marked v name ifs ifs' ret
unfolding set_interest named place
set_interest-Marked v name [] = ([], 0, refl, record { marks = refl; others = refl; answer = refl })
set_interest-Marked v name (i ∷ ifs) =
    let (rest, ret, done, m) = set_interest-Marked v name ifs in
    elim (Bool-cases (stricmp_eq i.ifname name)) [
      | inl hit ↦ (
        record i { ofinterest = v } ∷ ifs,
        1,
        rw (hit, set_interest) refl,
        record { marks = rw hit refl; others = refl; answer = rw hit refl },
      )
      | inr miss ↦ (
        i ∷ rest,
        ret,
        rw (miss, done, set_interest) refl,
        record {
          marks = rw miss (ap (λ l. i.ofinterest ∷ l) m.marks);
          others = ap (λ l. forget i ∷ l) m.others;
          answer = rw miss m.answer;
        },
      )
    ]

take_none : {A : Type 0} (n : ℕ) → take {A = A} n [] ≡ []
take_none zero = refl
take_none (suc n) = refl

-- The descriptors returned are the first, as many as fit whole.
pub descriptors_lem :
    (size siz : ℕ) (ifs : List IfInfo) → 0 < size → descriptors size siz ifs ≡ take (siz / size) ifs
unfolding descriptors
descriptors_lem size siz [] large = sym (take_none (siz / size))
descriptors_lem size siz (i ∷ ifs) large = elim (Bool-cases (leb size siz)) [
  | inl fits ↦
      let more : siz / size ≡ suc ((siz - size) / size) =
        div-eq-sub-div large (ground arith) ∙ omega arith in
      rw (fits, more) (ap (λ l. i ∷ l) (descriptors_lem size (siz - size) ifs large))
  | inr full ↦ rw (full, div-eq_of_lt {n = siz} {m = size} (ground arith)) refl
]

-- No name twice, whatever its case.
unfoldable pub Distinct : List (List ℕ) → Type 0
Distinct [] = Unit
Distinct (name ∷ names) = (any (λ m. stricmp_eq m name) names ≡ false) × Distinct names

take_short : {A : Type 0} (n : ℕ) (xs : List A) → length xs ≤ n → take n xs ≡ xs
take_short zero [] h = refl
take_short zero (x ∷ xs) h = absurd (omega arith)
take_short (suc n) [] h = refl
take_short (suc n) (x ∷ xs) h = ap (λ l. x ∷ l) (take_short n xs (omega arith))

-- The first interface of the name has these numbers and is alive.
pub Announced : List ℕ → Ids → List IfInfo → Type 0
Announced name ids ifs =
    (i : IfInfo) × (get_elem? ifs (place name ifs) ≡ some i)
    × (i.cell ≡ ids.cell)
    × (i.endpoint ≡ ids.endpoint)
    × (i.iface ≡ ids.iface)
    × (i.dead ≡ 0)

names-renumber :
    (name : List ℕ) (ids : Ids) (ifs : List IfInfo)
    → map IfInfo.ifname (renumber name ids ifs) ≡ map IfInfo.ifname ifs
unfolding renumber
names-renumber name ids [] = refl
names-renumber name ids (i ∷ ifs) = elim (Bool-cases (stricmp_eq i.ifname name)) [
  | inl hit ↦ rw hit refl
  | inr miss ↦ rw miss (ap (λ l. i.ifname ∷ l) (names-renumber name ids ifs))
]

renumber-Announced :
    (name : List ℕ) (ids : Ids) (ifs : List IfInfo)
    → named name ifs ≡ true
    → Announced name ids (renumber name ids ifs)
unfolding renumber named place Announced
renumber-Announced name ids [] known = absurd (cc)
renumber-Announced name ids (i ∷ ifs) known = elim (Bool-cases (stricmp_eq i.ifname name)) [
  | inl hit ↦ rw hit (with_ids ids i, rw hit refl, refl, refl, refl, refl)
  | inr miss ↦
      let (j, at, a, b, c, d) = renumber-Announced name ids ifs (ground arith) in
      rw miss (j, rw miss at, a, b, c, d)
]

abbrev fresh : List ℕ → Ids → IfInfo
fresh name ids = record {
  ifname = name;
  cell = ids.cell;
  endpoint = ids.endpoint;
  iface = ids.iface;
  ofinterest = 0;
  dead = 0;
}

fresh-Announced :
    (name : List ℕ) (ids : Ids) (ifs : List IfInfo) → Announced name ids (fresh name ids ∷ ifs)
unfolding Announced place
fresh-Announced name ids ifs =
    (fresh name ids, rw (stricmp_eq_refl name) refl, refl, refl, refl, refl)

-- If no name is in the list twice and a name is short enough for the array, then after the name is
-- announced no name is twice in the list, and the first interface of that name has the numbers
-- announced and is not dead.
pub advert-Distinct :
    (ifnamsiz : ℕ) (name : List ℕ) (ids : Ids) (ifs : List IfInfo)
    → length name < ifnamsiz
    → Distinct (map IfInfo.ifname ifs)
    → Distinct (map IfInfo.ifname (advert ifnamsiz name ids ifs))
      × Announced name ids (advert ifnamsiz name ids ifs)
unfolding advert named Distinct
advert-Distinct ifnamsiz name ids ifs short apart = elim (Bool-cases (named name ifs)) [
  | inl known ↦ rw known (
    subst Distinct (sym (names-renumber name ids ifs)) apart,
    renumber-Announced name ids ifs known,
  )
  | inr new ↦
      rw (new, take_short (ifnamsiz - 1) name (omega arith))
        (
          (any-map (λ m. stricmp_eq m name) IfInfo.ifname ifs ∙ new, apart),
          fresh-Announced name ids ifs,
        )
]
