-- ===== src/Base/Conditions/Effects.antt =====
-- QX-base/qbase_iofunc.c: what the conditions of a connection say of a row, and how they change.
use native.Mathlib.Decide.{dec_lt}
use qnxstuff.Prelude.{
  ℕ, zero, suc, ◌<◌, ◌≤◌, ◌≡◌, refl, subst, some_cancel, ◌≢◌, inl, inr, Bool, true, false, none,
  some, List, [], ◌∷◌, arith, length, get_elem?, get_elem?-lt, take, All, ltb_of_lt, ltb_of_le,
  Bool-cases, Option-cases, ◌==◌, eqb_of_eq, eqb_of_ne,
}
use qnxstuff.Prelude.Int.{ℤ, pos, negsuc}
use qnxstuff.Prelude.Memory.{load32}
use qnxstuff.Base.Filters.{FilterFunc, Condition, Platform, q_cmp_strict, has, apply}
use qnxstuff.Base.Conditions.{
  filter_all, qbase_data_filter, Field, Ocb, Code, e_ok, e_buf, e_mem, e_notblsel, e_fltr, ffuncs,
  sizeof_filter, condition_of, added, link_filter, fltr_define, fltr_pop,
}

-- The verdict on a row: accepted by all conditions, or decided by the first that refuses it.
pub data Decided (p : Platform) (row : List ℕ) (cs : List Condition) : ℤ → Type 0 where
  accepted : All (λ c. apply p c row ≡ 1) cs → Decided p row cs (pos 1)
  refused :
      (k : ℕ) (c : Condition)
      → get_elem? cs k ≡ some c
      → All (λ d. apply p d row ≡ 1) (take k cs)
      → apply p c row ≢ 1
      → has c q_cmp_strict ≡ false
      → Decided p row cs (pos 0)
  ended :
      (k : ℕ) (c : Condition)
      → get_elem? cs k ≡ some c
      → All (λ d. apply p d row ≡ 1) (take k cs)
      → apply p c row ≢ 1
      → has c q_cmp_strict ≡ true
      → Decided p row cs (negsuc 0)

eqb_true : (a b : ℕ) → (a == b) ≡ true → a ≡ b
eqb_true a b e = ground arith

eqb_false : (a b : ℕ) → (a == b) ≡ false → a ≢ b
eqb_false a b e = ground arith

filter_all-Decided :
    (p : Platform) (row : List ℕ) (cs : List Condition) → Decided p row cs (filter_all p row cs)
unfolding filter_all
filter_all-Decided p row [] = accepted tt
filter_all-Decided p row (c ∷ cs) = elim (Bool-cases (apply p c row == 1)) [
  | inl good ↦ rw good (go (eqb_true (apply p c row) 1 good) _ (filter_all-Decided p row cs))
  | inr bad ↦ elim (Bool-cases (has c q_cmp_strict)) [
    | inl strict ↦ rw (bad, strict) (ended 0 c refl tt (eqb_false (apply p c row) 1 bad) strict)
    | inr lax ↦ rw (bad, lax) (refused 0 c refl tt (eqb_false (apply p c row) 1 bad) lax)
  ]
]
  where
    go : apply p c row ≡ 1 → (r : ℤ) → Decided p row cs r → Decided p row (c ∷ cs) r
    go good r (accepted all) = accepted (good, all)
    go good r (refused k d at before no_match lax) =
        refused (suc k) d at (good, before) no_match lax
    go good r (ended k d at before no_match strict) =
        ended (suc k) d at (good, before) no_match strict

-- Qbase_data_filter returns 0 for a row that is not in use; for any other it returns 1 if every
-- condition accepts the row, and otherwise, by the first that does not, -1 if that is strict and 0
-- if not.
pub data_filter-Decided :
    (p : Platform) (row : List ℕ) (cs : List Condition)
    → (load32 row 0 ≡ 0 → qbase_data_filter p row cs ≡ pos 0)
      × (load32 row 0 ≢ 0 → Decided p row cs (qbase_data_filter p row cs))
unfolding qbase_data_filter
data_filter-Decided p row cs = (
  λ e. rw (eqb_of_eq (load32 row 0) 0 e, qbase_data_filter) refl,
  λ n. rw (eqb_of_ne (load32 row 0) 0 n, qbase_data_filter) (filter_all-Decided p row cs),
)

-- What the definition of a condition does.
pub data Defined (o : Ocb) (bytes : List ℕ) (given : Bool) : Code → Ocb → Type 0 where
  no_table : o.table ≡ none → Defined o bytes given e_notblsel o
  too_short :
      (fields : List Field)
      → o.table ≡ some fields
      → length bytes < sizeof_filter
      → Defined o bytes given e_buf o
  no_memory :
      (fields : List Field)
      → o.table ≡ some fields
      → sizeof_filter ≤ length bytes
      → given ≡ false
      → Defined o bytes given e_mem o
  no_field :
      (fields : List Field)
      → o.table ≡ some fields
      → sizeof_filter ≤ length bytes
      → given ≡ true
      → length fields ≤ load32 bytes 4
      → Defined o bytes given e_fltr o
  defined :
      (fields : List Field)
      → o.table ≡ some fields
      → sizeof_filter ≤ length bytes
      → given ≡ true
      → (f : Field) (g : FilterFunc) → get_elem? fields (load32 bytes 4) ≡ some f
      → get_elem? ffuncs f.kind ≡ some g
      → Defined o bytes given e_ok (added o (condition_of bytes f g))

get_elem?-none : {A : Type 0} (xs : List A) (i : ℕ) → get_elem? xs i ≡ none → length xs ≤ i
get_elem?-none [] i e = omega arith
get_elem?-none (x ∷ xs) zero e = absurd (cc)
get_elem?-none (x ∷ xs) (suc i) e = omega (arith, get_elem?-none xs i e)

All-get_elem? :
    {A : Type 0} (P : A → Type 0) (xs : List A) (i : ℕ) (x : A)
    → All P xs
    → get_elem? xs i ≡ some x
    → P x
All-get_elem? P [] i x all e = absurd (cc)
All-get_elem? P (y ∷ ys) zero x (q, all) e = subst P (some_cancel e) q
All-get_elem? P (y ∷ ys) (suc i) x (q, all) e = All-get_elem? P ys i x all e

-- Every field of the table selected is of a type that FFUNCS has.
unfoldable pub Typed : Ocb → Type 0
Typed o = (fields : List Field) → o.table ≡ some fields → All (λ f. f.kind < 8) fields

-- Where the field is there and of a type that FFUNCS has.
link_lem :
    (o : Ocb) (bytes : List ℕ) (f : Field)
    → f.kind < 8
    → (g : FilterFunc) × (get_elem? ffuncs f.kind ≡ some g)
      × (link_filter o bytes f ≡ some (e_ok, added o (condition_of bytes f g)))
unfolding link_filter
link_lem o bytes f typed =
    let (g, at) = get_elem?-lt ffuncs f.kind typed in (g, at, rw (at, link_filter) refl)

-- Every definition of a condition ends, on a table of known types, with one of five codes, in the order
-- of its tests, and changes nothing unless it succeeds; the condition then comes first, and the
-- command that pops it leaves all as it was, but for the position, which is 0.
pub define-Defined :
    (o : Ocb) (bytes : List ℕ) (given : Bool)
    → Typed o
    → (code : Code) × (o' : Ocb) × (fltr_define o bytes given ≡ some (code, o'))
      × Defined o bytes given code o'
      × (code ≡ e_ok → fltr_pop o' ≡ (e_ok, record o { position = 0 }))
unfolding fltr_define fltr_pop Typed
define-Defined o bytes given typed = elim (Option-cases o.table) [
  | inl none_there ↦
      (e_notblsel, o, simp (none_there, fltr_define) refl, no_table none_there, λ e. absurd (cc))
  | inr (fields, there) ↦ elim (dec_lt (length bytes) sizeof_filter) [
    | yes short ↦ (
      e_buf,
      o,
      simp (there, ltb_of_lt (length bytes) sizeof_filter short, fltr_define) refl,
      too_short fields there short,
      λ e. absurd (cc),
    )
    | no long ↦ allocated fields there (omega arith) given refl
  ]
]
  where
    Goal : Type 0
    Goal =
        (code : Code) × (o' : Ocb) × (fltr_define o bytes given ≡ some (code, o'))
        × Defined o bytes given code o'
        × (code ≡ e_ok → fltr_pop o' ≡ (e_ok, record o { position = 0 }))

    allocated :
        (fields : List Field)
        → o.table ≡ some fields
        → sizeof_filter ≤ length bytes
        → (b : Bool) → given ≡ b
        → Goal
    allocated fields there long false e = (
      e_mem,
      o,
      simp (there, ltb_of_le (length bytes) sizeof_filter long, e, fltr_define) refl,
      no_memory fields there long e,
      λ x. absurd (cc),
    )
    allocated fields there long true e = elim (Option-cases (get_elem? fields (load32 bytes 4))) [
      | inl gone ↦ (
        e_fltr,
        o,
        simp (there, ltb_of_le (length bytes) sizeof_filter long, e, gone, fltr_define) refl,
        no_field fields there long e (get_elem?-none fields (load32 bytes 4) gone),
        λ x. absurd (cc),
      )
      | inr (f, at) ↦
          let kind =
            All-get_elem? (λ x. x.kind < 8) fields (load32 bytes 4) f (typed fields there) at in
          let (g, has_g, linked) = link_lem o bytes f kind in
          (
            e_ok,
            added o (condition_of bytes f g),
            simp (there, ltb_of_le (length bytes) sizeof_filter long, e, at, linked, fltr_define)
                refl,
            defined fields there long e f g at has_g,
            λ x. refl,
          )
    ]
