-- ===== src/Ntc/Ifaces.antt =====
-- nfm-ntc/main.c and ntc_rm.c: the list `ntc_ifs` of the interfaces that announced themselves.
pub mod Laws
use qnxstuff.Prelude.{
  ℕ, zero, suc, ◌+◌, ◌-◌, Bool, true, false, not, ◌&&◌, List, [], ◌∷◌, ◌==◌, leb, if◌then◌else◌,
  length, take, any,
}
use qnxstuff.Prelude.Strings.{stricmp_eq}

-- `if_info_t`; the field `next` is the order of the list.
pub record IfInfo : Type 0 where
  pub ifname : List ℕ
  pub cell : ℕ
  pub endpoint : ℕ
  pub iface : ℕ
  pub ofinterest : ℕ
  pub dead : ℕ

-- The numbers by which io-net names an interface.
pub record Ids : Type 0 where
  pub cell : ℕ
  pub endpoint : ℕ
  pub iface : ℕ

abbrev pub has_ids : Ids → IfInfo → Bool
has_ids ids i = i.cell == ids.cell && i.endpoint == ids.endpoint && i.iface == ids.iface

-- The first interface with these numbers decides; packets of an unknown one are of interest.
unfoldable pub of_interest : Ids → List IfInfo → Bool
of_interest ids [] = true
of_interest ids (i ∷ ifs) = if has_ids ids i then not (i.ofinterest == 0) else of_interest ids ifs

-- _NPKT_MSG_DYING
unfoldable pub dying : Ids → List IfInfo → List IfInfo
dying ids [] = []
dying ids (i ∷ ifs) = if has_ids ids i then record i { dead = 1 } ∷ ifs else i ∷ dying ids ifs

abbrev pub with_ids : Ids → IfInfo → IfInfo
with_ids ids i = record i { cell = ids.cell; endpoint = ids.endpoint; iface = ids.iface; dead = 0 }

-- The interface of the name takes the numbers.
unfoldable pub renumber : List ℕ → Ids → List IfInfo → List IfInfo
renumber name ids [] = []
renumber name ids (i ∷ ifs) =
    if stricmp_eq i.ifname name then with_ids ids i ∷ ifs else i ∷ renumber name ids ifs

unfoldable pub named : List ℕ → List IfInfo → Bool
named name ifs = any (λ i. stricmp_eq i.ifname name) ifs

-- A new interface; `snprintf` keeps the size of the array less one for its name.
abbrev pub new_if : ℕ → List ℕ → Ids → IfInfo
new_if ifnamsiz name ids = record {
  ifname = take (ifnamsiz - 1) name;
  cell = ids.cell;
  endpoint = ids.endpoint;
  iface = ids.iface;
  ofinterest = 0;
  dead = 0;
}

-- _IO_NET_MSG_DL_ADVERT
unfoldable pub advert : ℕ → List ℕ → Ids → List IfInfo → List IfInfo
unfolding renumber named
advert ifnamsiz name ids ifs =
    if named name ifs then renumber name ids ifs else new_if ifnamsiz name ids ∷ ifs

-- NTC_ADDIF, with 1, and NTC_DELIF, with 0: the list and the value returned.
unfoldable pub set_interest : ℕ → List ℕ → List IfInfo → List IfInfo × ℕ
set_interest v name [] = ([], 0)
set_interest v name (i ∷ ifs) =
    let (rest, ret) = set_interest v name ifs in
    if stricmp_eq i.ifname name then (record i { ofinterest = v } ∷ ifs, 1) else (i ∷ rest, ret)

-- `sizeof(if_info_t)`: a pointer, the name, three words of 16 bits and two bytes.
abbrev pub sizeof_if_info : ℕ → ℕ
sizeof_if_info ifnamsiz = 4 + ifnamsiz + 8

-- NTC_IFPRESENT: the descriptors that fit into the bytes left.
unfoldable pub descriptors : ℕ → ℕ → List IfInfo → List IfInfo
descriptors size siz [] = []
descriptors size siz (i ∷ ifs) =
    let rest = descriptors size (siz - size) ifs in if leb size siz then i ∷ rest else []
