-- ===== src/Base/Tests.antt =====
-- Runs of the conditions of QX-base on small inputs, and the theorems at these inputs.
use qnxstuff.Prelude.{
  ℕ, ◌≡◌, refl, ◌≢◌, ◌<◌, ◌↔◌, ◌^◌, min, Ordering, true, none, some, List, [], ◌∷◌, ◌++◌, arith,
  drop, subst, some_cancel, All,
}
use qnxstuff.Prelude.Int.{pos}
use qnxstuff.Prelude.Memory.{memcmp, memcmp_refl, load16, load32}
use qnxstuff.Base.Filters.{
  Condition, Platform, filter_uint, filter_binary, filter_string, q_cmp_eq, q_cmp_l, q_cmp_cl,
  q_cmp_cg, has, by_order, memicmp, apply, qbase_filter_uint, qbase_filter_int, qbase_filter_uint16,
  qbase_filter_int16, qbase_filter_timestamp, qbase_filter_binary, qbase_filter_string,
}
use qnxstuff.Base.Filters.Laws.{Met, SignedLess, number_iff, binary_refuses_equal, cl_is_cg}
use qnxstuff.Base.Conditions.{filter_all, qbase_data_filter, Ocb, Code, e_ok, fltr_define, fltr_pop}
use qnxstuff.Base.Conditions.Effects.{Decided, data_filter-Decided, Defined, Typed, define-Defined}

abbrev platform : Platform
platform = record { cmp_double = λ a b. none; is_one = λ n a b. true }

-- The word behind the mark of use is lower than 5.
abbrev below_five : Condition
below_five = record {
  flags = q_cmp_l;
  fnum = 1;
  field = 4;
  fsize = 4;
  vsize = 4;
  cmp_func = filter_uint;
  value = 5 ∷ 0 ∷ 0 ∷ 0 ∷ [];
}

abbrev row : List ℕ
row = 1 ∷ 0 ∷ 0 ∷ 0 ∷ 3 ∷ 0 ∷ 0 ∷ 0 ∷ []

number_iff_example :
    ((qbase_filter_uint below_five row ≡ 1)
      ↔ Met below_five
          (load32 row 4 ≡ load32 below_five.value 0)
          (load32 below_five.value 0 < load32 row 4)
          (load32 row 4 < load32 below_five.value 0))
    × ((qbase_filter_timestamp below_five row ≡ 1)
        ↔ Met below_five
            (load32 row 4 ≡ load32 below_five.value 0)
            (load32 below_five.value 0 < load32 row 4)
            (load32 row 4 < load32 below_five.value 0))
    × ((qbase_filter_uint16 below_five row ≡ 1)
        ↔ Met below_five
            (load16 row 4 ≡ load16 below_five.value 0)
            (load16 below_five.value 0 < load16 row 4)
            (load16 row 4 < load16 below_five.value 0))
    × (load32 row 4 < 2 ^ 32
        → load32 below_five.value 0 < 2 ^ 32
        → (qbase_filter_int below_five row ≡ 1)
          ↔ Met below_five
              (load32 row 4 ≡ load32 below_five.value 0)
              (SignedLess (2 ^ 31) (load32 below_five.value 0) (load32 row 4))
              (SignedLess (2 ^ 31) (load32 row 4) (load32 below_five.value 0)))
    × (load16 row 4 < 2 ^ 16
        → load16 below_five.value 0 < 2 ^ 16
        → (qbase_filter_int16 below_five row ≡ 1)
          ↔ Met below_five
              (load16 row 4 ≡ load16 below_five.value 0)
              (SignedLess (2 ^ 15) (load16 below_five.value 0) (load16 row 4))
              (SignedLess (2 ^ 15) (load16 row 4) (load16 below_five.value 0)))
number_iff_example = number_iff below_five row

data_filter-Decided_example :
    (load32 row 0 ≡ 0 → qbase_data_filter platform row (below_five ∷ []) ≡ pos 0)
    × (load32 row 0 ≢ 0
        → Decided platform row (below_five ∷ []) (qbase_data_filter platform row (below_five ∷ [])))
data_filter-Decided_example = data_filter-Decided platform row (below_five ∷ [])

three_accepted : qbase_data_filter platform row (below_five ∷ []) ≡ pos 1
unfolding qbase_data_filter filter_all apply qbase_filter_uint by_order has
three_accepted = refl

abbrev same_bytes : Condition
same_bytes = record below_five {
  flags = q_cmp_eq;
  cmp_func = filter_binary;
  value = 3 ∷ 0 ∷ 0 ∷ 0 ∷ [];
}

same_bytes_refused : qbase_filter_binary platform same_bytes row ≡ 0
same_bytes_refused =
    binary_refuses_equal platform same_bytes row (memcmp_refl 4 (3 ∷ 0 ∷ 0 ∷ 0 ∷ []))

abbrev letter : Condition
letter = record below_five {
  flags = 0;
  fsize = 1;
  vsize = 1;
  cmp_func = filter_string;
  value = b'B' ∷ [];
}

abbrev lettered : List ℕ
lettered = 1 ∷ 0 ∷ 0 ∷ 0 ∷ b'c' ∷ []

letters_compared :
    (qbase_filter_string (record letter { flags = q_cmp_cl }) lettered
      ≡ qbase_filter_string (record letter { flags = q_cmp_cg }) lettered)
    × ((qbase_filter_string (record letter { flags = q_cmp_cl }) lettered ≡ 1)
        ↔ (memicmp (min 1 1) (drop 4 lettered) (b'B' ∷ []) ≡ Ordering.gt))
letters_compared = cl_is_cg letter lettered

-- c is taken to be lower than B.
c_below_b : memicmp (min 1 1) (drop 4 lettered) (b'B' ∷ []) ≡ Ordering.gt
unfolding memicmp memcmp
c_below_b = refl

abbrev ocb : Ocb
ocb = record {
  table = some (record { offset = 0; length = 4; kind = 0 } ∷ []);
  position = 7;
  filters = [];
}

ocb-Typed : Typed ocb
unfolding Typed
ocb-Typed fields e = subst (λ fs. All (λ f. f.kind < 8) fs) (some_cancel e) (omega arith, tt)

-- The condition on field 0 of a client that asks for equality with 9.
abbrev request : List ℕ
request =
    (1 ∷ 0 ∷ 0 ∷ 0 ∷ 0 ∷ 0 ∷ 0 ∷ 0 ∷ [])
    ++ ((0 ∷ 0 ∷ 0 ∷ 0 ∷ 0 ∷ 0 ∷ 0 ∷ 0 ∷ [])
        ++ ((4 ∷ 0 ∷ 0 ∷ 0 ∷ 0 ∷ 0 ∷ 0 ∷ 0 ∷ []) ++ (0 ∷ 0 ∷ 0 ∷ 0 ∷ 9 ∷ 0 ∷ 0 ∷ 0 ∷ [])))

define-Defined_example :
    (code : Code) × (o' : Ocb) × (fltr_define ocb request true ≡ some (code, o'))
    × Defined ocb request true code o'
    × (code ≡ e_ok → fltr_pop o' ≡ (e_ok, record ocb { position = 0 }))
define-Defined_example = define-Defined ocb request true ocb-Typed
