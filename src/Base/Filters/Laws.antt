-- ===== src/Base/Filters/Laws.antt =====
-- QX-base/qbase_filterfunc.c: what a condition on a number, on bytes and on a string accepts.
use qnxstuff.Prelude.{
  ℕ, ◌≤◌, ◌<◌, ◌^◌, ◌≡◌, refl, ◌↔◌, ◌⊎◌, inl, inr, min, compare, Ordering, true, arith,
  if◌then◌else◌, List, drop,
}
use qnxstuff.Prelude.Memory.{memcmp, load16, load32}
use qnxstuff.Base.Filters.{
  Condition, Platform, q_cmp_eq, q_cmp_g, q_cmp_l, q_cmp_cg, q_cmp_cl, has, is_gt, by_order,
  compare_int, compare_int16, qbase_filter_uint, qbase_filter_int, qbase_filter_uint16,
  qbase_filter_int16, qbase_filter_timestamp, qbase_filter_binary, memicmp, string_order,
  qbase_filter_string,
}

-- A flag asks for the relation in which the field stands to the value.
abbrev pub Met : Condition → Type 0 → Type 0 → Type 0 → Type 0
Met c equal greater lower =
    ((has c q_cmp_eq ≡ true) × equal)
    ⊎ (((has c q_cmp_g ≡ true) × greater) ⊎ ((has c q_cmp_l ≡ true) × lower))

by_order_iff :
    (c : Condition) (o : Ordering)
    → (by_order c o ≡ 1) ↔ Met c (o ≡ Ordering.eq) (o ≡ Ordering.gt) (o ≡ Ordering.lt)
unfolding by_order
by_order_iff c Ordering.lt = ground arith
by_order_iff c Ordering.eq = ground arith
by_order_iff c Ordering.gt = ground arith

-- Signed words of which the first is the lower: `half` is the first negative one.
abbrev pub SignedLess : ℕ → ℕ → ℕ → Type 0
SignedLess half a b = ((b < half) × (half ≤ a)) ⊎ ((a < b) × ((b < half) ⊎ (half ≤ a)))

compare_iff :
    (a b : ℕ)
    → ((compare a b ≡ Ordering.eq) ↔ (a ≡ b))
      × ((compare a b ≡ Ordering.gt) ↔ (b < a))
      × ((compare a b ≡ Ordering.lt) ↔ (a < b))
compare_iff a b = (ground arith, ground arith, ground arith)

compare_int_iff :
    (a b : ℕ)
    → a < 2 ^ 32
    → b < 2 ^ 32
    → ((compare_int a b ≡ Ordering.eq) ↔ (a ≡ b))
      × ((compare_int a b ≡ Ordering.gt) ↔ SignedLess (2 ^ 31) b a)
      × ((compare_int a b ≡ Ordering.lt) ↔ SignedLess (2 ^ 31) a b)
compare_int_iff a b h k = (ground arith, ground arith, ground arith)

compare_int16_iff :
    (a b : ℕ)
    → a < 2 ^ 16
    → b < 2 ^ 16
    → ((compare_int16 a b ≡ Ordering.eq) ↔ (a ≡ b))
      × ((compare_int16 a b ≡ Ordering.gt) ↔ SignedLess (2 ^ 15) b a)
      × ((compare_int16 a b ≡ Ordering.lt) ↔ SignedLess (2 ^ 15) a b)
compare_int16_iff a b h k = (ground arith, ground arith, ground arith)

Met-map :
    (c : Condition) {A B C A' B' C' : Type 0}
    → (A → A')
    → (B → B')
    → (C → C')
    → Met c A B C
    → Met c A' B' C'
Met-map c f g h (inl (t, a)) = inl (t, f a)
Met-map c f g h (inr (inl (t, b))) = inr (inl (t, g b))
Met-map c f g h (inr (inr (t, b))) = inr (inr (t, h b))

-- An order that decides three relations decides a condition on them.
by_order-Met :
    (c : Condition) (o : Ordering) {A B C : Type 0}
    → ((o ≡ Ordering.eq) ↔ A) × ((o ≡ Ordering.gt) ↔ B) × ((o ≡ Ordering.lt) ↔ C)
    → (by_order c o ≡ 1) ↔ Met c A B C
by_order-Met c o ((f, f'), (g, g'), (h, h')) =
    let (to, from) = by_order_iff c o in
    (λ e. Met-map c f g h (to e), λ m. from (Met-map c f' g' h' m))

-- The functions for unsigned words, for half words and for times accept a row exactly if the flags ask
-- for the relation in which the field stands to the value as an unsigned number, and those for signed
-- words and half words, whose bytes make words, exactly if they ask for the relation of signed numbers.
pub number_iff :
    (c : Condition) (row : List ℕ)
    → ((qbase_filter_uint c row ≡ 1)
        ↔ Met c
            (load32 row c.field ≡ load32 c.value 0)
            (load32 c.value 0 < load32 row c.field)
            (load32 row c.field < load32 c.value 0))
      × ((qbase_filter_timestamp c row ≡ 1)
          ↔ Met c
              (load32 row c.field ≡ load32 c.value 0)
              (load32 c.value 0 < load32 row c.field)
              (load32 row c.field < load32 c.value 0))
      × ((qbase_filter_uint16 c row ≡ 1)
          ↔ Met c
              (load16 row c.field ≡ load16 c.value 0)
              (load16 c.value 0 < load16 row c.field)
              (load16 row c.field < load16 c.value 0))
      × (load32 row c.field < 2 ^ 32
          → load32 c.value 0 < 2 ^ 32
          → (qbase_filter_int c row ≡ 1)
            ↔ Met c
                (load32 row c.field ≡ load32 c.value 0)
                (SignedLess (2 ^ 31) (load32 c.value 0) (load32 row c.field))
                (SignedLess (2 ^ 31) (load32 row c.field) (load32 c.value 0)))
      × (load16 row c.field < 2 ^ 16
          → load16 c.value 0 < 2 ^ 16
          → (qbase_filter_int16 c row ≡ 1)
            ↔ Met c
                (load16 row c.field ≡ load16 c.value 0)
                (SignedLess (2 ^ 15) (load16 c.value 0) (load16 row c.field))
                (SignedLess (2 ^ 15) (load16 row c.field) (load16 c.value 0)))
unfolding qbase_filter_uint qbase_filter_timestamp qbase_filter_uint16 qbase_filter_int
    qbase_filter_int16
number_iff c row =
    let f = load32 row c.field in
    let v = load32 c.value 0 in
    let g = load16 row c.field in
    let w = load16 c.value 0 in
    (
      by_order-Met c (compare f v) (compare_iff f v),
      by_order-Met c (compare f v) (compare_iff f v),
      by_order-Met c (compare g w) (compare_iff g w),
      λ h k. by_order-Met c (compare_int f v) (compare_int_iff f v h k),
      λ h k. by_order-Met c (compare_int16 g w) (compare_int16_iff g w h k),
    )

-- The function for bytes refuses every row whose field is of the condition's size and holds the same
-- bytes, whatever the flags.
pub binary_refuses_equal :
    (p : Platform) (c : Condition) (row : List ℕ)
    → memcmp c.fsize (drop c.field row) c.value ≡ Ordering.eq
    → qbase_filter_binary p c row ≡ 0
unfolding qbase_filter_binary
binary_refuses_equal p c row same = ground (arith, same)

-- A condition on a string with no flag but that for lower ignoring case accepts what the same condition
-- accepts with no flag but that for greater ignoring case: exactly the rows whose field is greater,
-- ignoring case, on the shorter of both sizes.
pub cl_is_cg :
    (c : Condition) (row : List ℕ)
    → (qbase_filter_string (record c { flags = q_cmp_cl }) row
        ≡ qbase_filter_string (record c { flags = q_cmp_cg }) row)
      × ((qbase_filter_string (record c { flags = q_cmp_cl }) row ≡ 1)
          ↔ (memicmp (min c.fsize c.vsize) (drop c.field row) c.value ≡ Ordering.gt))
unfolding qbase_filter_string string_order has
cl_is_cg c row = (refl, string_lem (memicmp (min c.fsize c.vsize) (drop c.field row) c.value))
  where
    string_lem : (o : Ordering) → (◌≡◌ {A = ℕ} (if is_gt o then 1 else 0) 1) ↔ (o ≡ Ordering.gt)
    string_lem Ordering.lt = ground arith
    string_lem Ordering.eq = ground arith
    string_lem Ordering.gt = ground arith
