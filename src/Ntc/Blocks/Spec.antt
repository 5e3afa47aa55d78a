-- ===== src/Ntc/Blocks/Spec.antt =====
-- nfm-ntc/ntc_rm.c: what the commands make of the list of addresses, newest first.
use qnxstuff.Prelude.{Bool, true, false, List, [], ◌∷◌, any, if◌then◌else◌, Option, none, some}
use qnxstuff.Ntc.Blocks.{MacCmp, same_mac, Blocks, lookup, add_block, del_block}

unfoldable pub listed : MacCmp → List MacCmp → Bool
listed mac macs = any (λ a. same_mac mac a) macs

-- What stands behind the first occurrence.
unfoldable pub behind : MacCmp → List MacCmp → List MacCmp
behind mac [] = []
behind mac (a ∷ macs) = if same_mac mac a then macs else behind mac macs

-- NTC_DELBLOCK as it is.
unfoldable pub deleted : MacCmp → List MacCmp → List MacCmp
unfolding listed behind
deleted mac macs = if listed mac macs then behind mac macs else macs

-- The uses of the list: the two commands, and the search for a packet's address.
pub data Use : Type 0 where
  adds deletes asks : MacCmp → Use

unfoldable pub is_found {ℓ} : {A : Type ℓ} → Option A → Bool
is_found none = false
is_found (some a) = true

-- The answers of the searches.
unfoldable pub run : Blocks → List Use → Option (List Bool)
unfolding is_found
run b [] = some []
run b (adds mac ∷ us) = run (add_block b mac) us
run b (deletes mac ∷ us) = elim (del_block b mac) [ none ↦ none | some b' ↦ run b' us ]
run b (asks mac ∷ us) =
    let rest = run b us in
    elim (lookup b mac) [
      | none ↦ none
      | some p ↦ elim rest [ none ↦ none | some answers ↦ some (is_found p ∷ answers) ]
    ]

unfoldable pub answers : List MacCmp → List Use → List Bool
unfolding deleted
answers macs [] = []
answers macs (adds mac ∷ us) = answers (mac ∷ macs) us
answers macs (deletes mac ∷ us) = answers (deleted mac macs) us
answers macs (asks mac ∷ us) = listed mac macs ∷ answers macs us

-- Several addresses, the last of the list first.
unfoldable pub add_all : List MacCmp → Blocks → Blocks
add_all [] b = b
add_all (mac ∷ macs) b = add_block (add_all macs b) mac
