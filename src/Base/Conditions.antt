-- ===== src/Base/Conditions.antt =====
-- QX-base/qbase_iofunc.c: the conditions of a connection, and the rows that meet them.
pub mod Effects
use qnxstuff.Prelude.{
  ℕ, zero, suc, ◌+◌, ltb, leb, ◌==◌, Bool, true, false, Option, none, some, List, [], ◌∷◌,
  if◌then◌else◌, length, get_elem?, take, drop,
}
use qnxstuff.Prelude.Int.{ℤ, pos, negsuc}
use qnxstuff.Prelude.Memory.{load32}
use qnxstuff.Base.Filters.{
  FilterFunc, filter_uint, filter_int, filter_uint16, filter_int16, filter_double, filter_timestamp,
  filter_binary, filter_string, Condition, Platform, q_cmp_strict, has, apply,
}

-- What Qbase_data_filter does after its first test.
unfoldable pub filter_all : Platform → List ℕ → List Condition → ℤ
unfolding has
filter_all p row [] = pos 1
filter_all p row (c ∷ cs) =
    let rest = filter_all p row cs in
    if apply p c row == 1 then rest else if has c q_cmp_strict then negsuc 0 else pos 0

unfoldable pub qbase_data_filter : Platform → List ℕ → List Condition → ℤ
unfolding filter_all
qbase_data_filter p row cs = if load32 row 0 == 0 then pos 0 else filter_all p row cs

-- What the commands use of a field of a table.
pub record Field : Type 0 where
  pub offset : ℕ
  pub length : ℕ
  pub kind : ℕ

-- `Qbase_ocb`: the fields of the table selected, the position and the conditions.
pub record Ocb : Type 0 where
  pub table : Option (List Field)
  pub position : ℕ
  pub filters : List Condition

-- QBASE_E_OK, QBASE_E_BUF, QBASE_E_MEM, QBASE_E_NOTBLSEL, QBASE_E_FLTR
pub data Code : Type 0 where
  e_ok e_buf e_mem e_notblsel e_fltr : Code

-- FFUNCS
abbrev pub ffuncs : List FilterFunc
ffuncs =
    filter_uint ∷ filter_int ∷ filter_uint16 ∷ filter_int16 ∷ filter_double ∷ filter_timestamp
    ∷ filter_binary ∷ filter_string ∷ []

-- Seven words, a byte, and three of padding; the value begins at that byte.
abbrev pub sizeof_filter : ℕ
sizeof_filter = 32

abbrev pub value_offset : ℕ
value_offset = 28

-- The client's bytes as a condition on a field.
abbrev pub condition_of : List ℕ → Field → FilterFunc → Condition
condition_of bytes f g = record {
  flags = load32 bytes 0;
  fnum = load32 bytes 4;
  field = f.offset;
  fsize = f.length;
  vsize = load32 bytes 16;
  cmp_func = g;
  value = drop value_offset bytes;
}

abbrev pub added : Ocb → Condition → Ocb
added o c = record o { filters = c ∷ o.filters; position = 0 }

-- The field's entry of FFUNCS is read and the condition linked in. `none`: no such entry.
unfoldable pub link_filter : Ocb → List ℕ → Field → Option (Code × Ocb)
link_filter o bytes f = elim (get_elem? ffuncs f.kind) [
  | none ↦ none
  | some g ↦ some (e_ok, added o (condition_of bytes f g))
]

-- QBASE_CMD_FLTRDEFINE, with the client's bytes, and whether `malloc` gave memory.
unfoldable pub fltr_define : Ocb → List ℕ → Bool → Option (Code × Ocb)
unfolding link_filter
fltr_define o bytes given = elim o.table [
  | none ↦ some (e_notblsel, o)
  | some fields ↦
      if ltb (length bytes) sizeof_filter
      then some (e_buf, o)
      else if given
      then elim (get_elem? fields (load32 bytes 4)) [
        | none ↦ some (e_fltr, o)
        | some f ↦ link_filter o bytes f
      ]
      else some (e_mem, o)
]

-- QBASE_CMD_FLTRPOP
unfoldable pub fltr_pop : Ocb → Code × Ocb
fltr_pop o = elim o.filters [ [] ↦ (e_ok, o) | c ∷ cs ↦ (e_ok, record o { filters = cs }) ]

-- QBASE_CMD_FLTRDELETE
unfoldable pub fltr_delete : Ocb → Code × Ocb
fltr_delete o = (e_ok, record o { filters = []; position = 0 })
