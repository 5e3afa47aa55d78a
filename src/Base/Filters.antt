-- ===== src/Base/Filters.antt =====
-- QX-base/qbase_filterfunc.c and .h: whether a row meets a condition on one of its fields.
pub mod Laws
use qnxstuff.Prelude.{
  ℕ, ◌+◌, ◌%◌, ◌^◌, min, compare, Ordering, bit_and, Bool, true, false, not, ◌&&◌, ◌||◌, Option,
  none, some, List, map, ◌==◌, if◌then◌else◌, take, drop,
}
use qnxstuff.Prelude.Memory.{memcmp, load16, load32}
use qnxstuff.Prelude.Strings.{tolower}

-- The functions of the table FFUNCS, in its order; QBASE_TYPE_* are the places.
pub data FilterFunc : Type 0 where
  filter_uint filter_int filter_uint16 filter_int16 : FilterFunc
  filter_double filter_timestamp filter_binary filter_string : FilterFunc

-- `Qbase_filter_t`; its field Next is the order of the list.
pub record Condition : Type 0 where
  pub flags : ℕ
  pub fnum : ℕ
  pub field : ℕ
  pub fsize : ℕ
  pub vsize : ℕ
  pub cmp_func : FilterFunc
  pub value : List ℕ

-- What the language leaves to the machine and the library: the order of two doubles, with none if
-- one is not a number, and whether a positive result of `memcmp` on so many bytes is 1.
pub record Platform : Type 0 where
  pub cmp_double : List ℕ → List ℕ → Option Ordering
  pub is_one : ℕ → List ℕ → List ℕ → Bool

abbrev pub q_cmp_eq : ℕ
q_cmp_eq = 0x01

abbrev pub q_cmp_g : ℕ
q_cmp_g = 0x02

abbrev pub q_cmp_l : ℕ
q_cmp_l = 0x04

abbrev pub q_cmp_ceq : ℕ
q_cmp_ceq = 0x10

abbrev pub q_cmp_cg : ℕ
q_cmp_cg = 0x20

abbrev pub q_cmp_cl : ℕ
q_cmp_cl = 0x40

abbrev pub q_cmp_strict : ℕ
q_cmp_strict = 0x80000000

-- `Condition->Flags & flag`
unfoldable pub has : Condition → ℕ → Bool
has c flag = not (bit_and c.flags flag == 0)

abbrev pub is_eq : Ordering → Bool
is_eq Ordering.lt = false
is_eq Ordering.eq = true
is_eq Ordering.gt = false

abbrev pub is_gt : Ordering → Bool
is_gt Ordering.lt = false
is_gt Ordering.eq = false
is_gt Ordering.gt = true

abbrev pub is_lt : Ordering → Bool
is_lt Ordering.lt = true
is_lt Ordering.eq = false
is_lt Ordering.gt = false

-- The three tests that six of the functions make of field and value, in their order.
unfoldable pub by_order : Condition → Ordering → ℕ
by_order c o =
    if has c q_cmp_eq && is_eq o
    then 1
    else if has c q_cmp_g && is_gt o
    then 1
    else if has c q_cmp_l && is_lt o
    then 1
    else 0

-- The order of two words as signed numbers.
abbrev pub compare_int : ℕ → ℕ → Ordering
compare_int a b = compare ((a + 2 ^ 31) % 2 ^ 32) ((b + 2 ^ 31) % 2 ^ 32)

abbrev pub compare_int16 : ℕ → ℕ → Ordering
compare_int16 a b = compare ((a + 2 ^ 15) % 2 ^ 16) ((b + 2 ^ 15) % 2 ^ 16)

unfoldable pub qbase_filter_uint : Condition → List ℕ → ℕ
qbase_filter_uint c row = by_order c (compare (load32 row c.field) (load32 c.value 0))

unfoldable pub qbase_filter_int : Condition → List ℕ → ℕ
qbase_filter_int c row = by_order c (compare_int (load32 row c.field) (load32 c.value 0))

unfoldable pub qbase_filter_uint16 : Condition → List ℕ → ℕ
qbase_filter_uint16 c row = by_order c (compare (load16 row c.field) (load16 c.value 0))

unfoldable pub qbase_filter_int16 : Condition → List ℕ → ℕ
qbase_filter_int16 c row = by_order c (compare_int16 (load16 row c.field) (load16 c.value 0))

unfoldable pub qbase_filter_double : Platform → Condition → List ℕ → ℕ
qbase_filter_double p c row = elim (p.cmp_double (take 8 (drop c.field row)) (take 8 c.value)) [
  | none ↦ 0
  | some o ↦ by_order c o
]

-- `tv_sec` is the first word of a `struct timespec`.
unfoldable pub qbase_filter_timestamp : Condition → List ℕ → ℕ
qbase_filter_timestamp c row = by_order c (compare (load32 row c.field) (load32 c.value 0))

unfoldable pub qbase_filter_binary : Platform → Condition → List ℕ → ℕ
qbase_filter_binary p c row =
    let bytes = drop c.field row in
    if not (c.fsize == c.vsize)
    then 0
    else if has c q_cmp_eq && is_gt (memcmp c.fsize bytes c.value) && p.is_one c.fsize bytes c.value
    then 1
    else 0

-- The sign of `memicmp(a, b, n)`
unfoldable pub memicmp : ℕ → List ℕ → List ℕ → Ordering
memicmp n a b = memcmp n (map tolower a) (map tolower b)

-- The tests on the shorter of both sizes.
unfoldable pub string_order : Condition → Ordering → Ordering → ℕ
string_order c plain folded =
    if has c q_cmp_g && is_gt plain
    then 1
    else if has c q_cmp_cg && is_gt folded
    then 1
    else if has c q_cmp_l && is_lt plain
    then 1
    else if has c q_cmp_cl && is_gt folded
    then 1
    else 0

unfoldable pub qbase_filter_string : Condition → List ℕ → ℕ
unfolding memicmp string_order
qbase_filter_string c row =
    let bytes = drop c.field row in
    let shorter = min c.fsize c.vsize in
    if has c q_cmp_eq && c.fsize == c.vsize && is_eq (memcmp c.fsize bytes c.value)
    then 1
    else if has c q_cmp_ceq && c.fsize == c.vsize && is_eq (memicmp c.fsize bytes c.value)
    then 1
    else string_order c (memcmp shorter bytes c.value) (memicmp shorter bytes c.value)

-- `cmp_func(Condition, Row)`
unfoldable pub apply : Platform → Condition → List ℕ → ℕ
apply p c row = elim c.cmp_func [
  | filter_uint ↦ qbase_filter_uint c row
  | filter_int ↦ qbase_filter_int c row
  | filter_uint16 ↦ qbase_filter_uint16 c row
  | filter_int16 ↦ qbase_filter_int16 c row
  | filter_double ↦ qbase_filter_double p c row
  | filter_timestamp ↦ qbase_filter_timestamp c row
  | filter_binary ↦ qbase_filter_binary p c row
  | filter_string ↦ qbase_filter_string c row
]
