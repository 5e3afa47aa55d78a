-- ===== src/Mail/Spooler/Groups.antt =====
-- QX-mail/spooler.c: what the scan for the recipients of one domain finds.
use qnxstuff.Prelude.{
  ℕ, ◌+◌, ◌≤◌, Bool, true, false, none, some, List, [], ◌∷◌, if◌then◌else◌, length, any, ◌≡◌, refl,
  All, Bool-cases, Option-cases, inl, inr, arith,
}
use qnxstuff.Prelude.Strings.{stricmp_eq}
use qnxstuff.Mail.Spooler.{domain_of, collect_domain}

abbrev pub HasDomain : List ℕ → Type 0
HasDomain r = (e : List ℕ) × (domain_of r ≡ some e)

-- A recipient of a domain, letters' case aside, or of another one.
abbrev pub Compares : Bool → List ℕ → List ℕ → Type 0
Compares b d r = (e : List ℕ) × (domain_of r ≡ some e) × (stricmp_eq d e ≡ b)

-- How many elements pass a test
abbrev pub count {ℓ} : {A : Type ℓ} → (A → Bool) → List A → ℕ
count p [] = 0
count p (x ∷ xs) = (if p x then 1 else 0) + count p xs

-- A scan that ends with the recipients of the domain and the others.
abbrev pub Collected : List ℕ → List (List ℕ) → List (List ℕ) → List (List ℕ) → Type 0
Collected d rs to others =
    (to' : List (List ℕ)) × (others' : List (List ℕ)) × (collect_domain d rs to others
      ≡ some (to', others'))
    × All (Compares true d) to'
    × All (Compares false d) others'
    × ((p : List ℕ → Bool)
        → count p to' + count p others' ≡ count p to + count p others + count p rs)
    × (length others' ≤ length others + length rs)
    × ((d' : List ℕ)
        → All (Compares false d') rs
        → All (Compares false d') to
        → All (Compares false d') others
        → All (Compares false d') to' × All (Compares false d') others')

pub collect_domain-Collected :
    (d : List ℕ) (rs to others : List (List ℕ))
    → All HasDomain rs
    → All (Compares true d) to
    → All (Compares false d) others
    → Collected d rs to others
unfolding collect_domain
collect_domain-Collected d [] to others h t o =
    (to, others, refl, t, o, λ p. omega arith, omega arith, λ d' x a b. (a, b))
collect_domain-Collected d (r ∷ rs) to others ((e, at), h) t o =
    elim (Bool-cases (stricmp_eq d e)) [
      | inl same ↦
          let (to', others', eq, a, b, c, l, k) =
            collect_domain-Collected d rs (r ∷ to) others h ((e, at, same), t) o in
          (
            to',
            others',
            rw (at, collect_domain, same) eq,
            a,
            b,
            λ p. omega (arith, c p),
            omega arith,
            λ d' (y, ys) u v. k d' ys (y, u) v,
          )
      | inr other ↦
          let (to', others', eq, a, b, c, l, k) =
            collect_domain-Collected d rs to (r ∷ others) h t ((e, at, other), o) in
          (
            to',
            others',
            rw (at, collect_domain, other) eq,
            a,
            b,
            λ p. omega (arith, c p),
            omega arith,
            λ d' (y, ys) u v. k d' ys u (y, v),
          )
    ]

abbrev pub lacks_domain : List ℕ → Bool
lacks_domain r = elim (domain_of r) [ none ↦ true | some e ↦ false ]

pub Compares-HasDomain :
    (b : Bool) (d : List ℕ) (rs : List (List ℕ)) → All (Compares b d) rs → All HasDomain rs
Compares-HasDomain b d [] h = tt
Compares-HasDomain b d (r ∷ rs) ((e, at, c), h) = ((e, at), Compares-HasDomain b d rs h)

pub any_lacks-HasDomain : (rs : List (List ℕ)) → any lacks_domain rs ≡ false → All HasDomain rs
any_lacks-HasDomain [] h = tt
any_lacks-HasDomain (r ∷ rs) h = elim (Option-cases (domain_of r)) [
  | inl e ↦ absurd (ground (arith, h, e))
  | inr (d, e) ↦ ((d, e), any_lacks-HasDomain rs (ground (arith, h, e)))
]

-- A recipient without '@' ends the scan.
pub collect_lacking :
    (d : List ℕ) (rs to others : List (List ℕ))
    → any lacks_domain rs ≡ true
    → collect_domain d rs to others ≡ none
unfolding collect_domain
collect_lacking d [] to others h = ground arith
collect_lacking d (r ∷ rs) to others h = elim (Option-cases (domain_of r)) [
  | inl e ↦ rw (e, collect_domain) refl
  | inr (c, e) ↦
      let more : any lacks_domain rs ≡ true = ground (arith, h, e) in
      elim (Bool-cases (stricmp_eq d c)) [
        | inl same ↦ rw (e, collect_domain, same) (collect_lacking d rs (r ∷ to) others more)
        | inr other ↦ rw (e, collect_domain, other) (collect_lacking d rs to (r ∷ others) more)
      ]
]
