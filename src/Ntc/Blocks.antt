-- ===== src/Ntc/Blocks.antt =====
-- nfm-ntc/ntc_common.h and ntc_rm.c: the list of the addresses that may pass, linked both ways.
pub mod Spec
pub mod Holds
pub mod Refines
use qnxstuff.Prelude.{
  ℕ, zero, suc, ◌+◌, Bool, ◌&&◌, Option, none, some, List, [], ◌∷◌, ◌++◌, ◌==◌, if◌then◌else◌,
  length, get_or, set,
}
use qnxstuff.Prelude.Memory.{load16, load32}

-- `mac_cmp_t`, without its padding
pub record MacCmp : Type 0 where
  pub nid : ℕ
  pub vid : ℕ

-- `block_list_t`; a pointer is the number of an allocation.
pub record BlockNode : Type 0 where
  pub block_addr : MacCmp
  pub next : Option ℕ
  pub prev : Option ℕ

-- The nodes in the order in which they were allocated, `none` once freed, and `blocklist`.
pub record Blocks : Type 0 where
  pub heap : List (Option BlockNode)
  pub blocklist : Option ℕ

-- `blocklist = NULL`
abbrev pub no_blocks : Blocks
no_blocks = record { heap = []; blocklist = none }

-- `*(mac_cmp_t*)(bytes + i)`
abbrev pub mac_at : List ℕ → ℕ → MacCmp
mac_at bytes i = record { nid = load32 bytes i; vid = load16 bytes (i + 4) }

abbrev pub same_mac : MacCmp → MacCmp → Bool
same_mac a b = a.nid == b.nid && a.vid == b.vid

-- A pointer followed: `none` where nothing is allocated.
abbrev pub load : List (Option BlockNode) → ℕ → Option BlockNode
load heap i = get_or heap i none

-- The loop that looks for an address. `none`: it followed a pointer to no node, or ran out of fuel.
unfoldable pub find : ℕ → MacCmp → List (Option BlockNode) → Option ℕ → Option (Option ℕ)
find fuel mac heap none = some none
find zero mac heap (some i) = none
find (suc fuel) mac heap (some i) = elim (load heap i) [
  | none ↦ none
  | some node ↦
      let rest = find fuel mac heap node.next in
      if same_mac mac node.block_addr then some (some i) else rest
]

-- The search from the head.
unfoldable pub lookup : Blocks → MacCmp → Option (Option ℕ)
unfolding find
lookup b mac = find (length b.heap) mac b.heap b.blocklist

-- NTC_ADDBLOCK
unfoldable pub add_block : Blocks → MacCmp → Blocks
add_block b mac = record {
  heap = b.heap ++ (some (record { block_addr = mac; next = b.blocklist; prev = none }) ∷ []);
  blocklist = some (length b.heap);
}

-- `node->next->prev = node->prev`, if there is a next one
unfoldable pub skip_back :
    List (Option BlockNode) → Option ℕ → Option ℕ → Option (List (Option BlockNode))
skip_back heap none prev = some heap
skip_back heap (some j) prev = elim (load heap j) [
  | none ↦ none
  | some after ↦ some (set heap j (some (record after { prev = prev })))
]

-- `node->prev->next = node->next`, or a new head if there is no previous one
unfoldable pub skip_forth : Blocks → Option ℕ → Option ℕ → Option Blocks
skip_forth b none next = some (record b { blocklist = next })
skip_forth b (some j) next = elim (load b.heap j) [
  | none ↦ none
  | some before ↦ some (record b { heap = set b.heap j (some (record before { next = next })) })
]

-- `free(blist)`
abbrev pub freed : Blocks → ℕ → Blocks
freed b i = record b { heap = set b.heap i none }

-- The node found is linked out and freed.
unfoldable pub unlink : Blocks → ℕ → Option Blocks
unfolding skip_back skip_forth
unlink b i = elim (load b.heap i) [
  | none ↦ none
  | some node ↦ elim (skip_back b.heap node.next node.prev) [
    | none ↦ none
    | some heap ↦ elim (skip_forth (record b { heap = heap }) node.prev node.next) [
      | none ↦ none
      | some b' ↦ some (freed b' i)
    ]
  ]
]

-- NTC_DELBLOCK
unfoldable pub del_block : Blocks → MacCmp → Option Blocks
unfolding lookup unlink
del_block b mac = elim (lookup b mac) [
  | none ↦ none
  | some none ↦ some b
  | some (some i) ↦ unlink b i
]
