-- ===== src/Ntc/Control.antt =====
-- nfm-ntc/ntc_rm.c: the commands of the device /dev/ntc.
pub mod Effects
use qnxstuff.Prelude.{ℕ, ◌+◌, ◌*◌, Option, none, some, List, [], ◌∷◌, length}
use qnxstuff.Ntc.Blocks.{mac_at, add_block, del_block}
use qnxstuff.Ntc.Ifaces.{IfInfo, set_interest, sizeof_if_info, descriptors}
use qnxstuff.Ntc.Queue.{flushed}
use qnxstuff.Ntc.Gate.{State, BlkInfo}

-- The command codes; `other` is NTC_EXIT and any code that is none of them.
pub data Command : Type 0 where
  ntc_flush ntc_nummissed ntc_queuelen ntc_addblock ntc_delblock ntc_numblocked : Command
  ntc_ifpresent ntc_addif ntc_delif other : Command

-- What is written over the client's bytes.
pub data Payload : Type 0 where
  nothing : Payload
  number : ℕ → Payload
  blocked : BlkInfo → Payload
  interfaces : List IfInfo → Payload

pub data Reply : Type 0 where
  enosys : Reply
  replied : (ret_val nbytes : ℕ) → Payload → Reply

abbrev pub sizeof_int : ℕ
sizeof_int = 4

abbrev pub sizeof_blkinfo : ℕ
sizeof_blkinfo = 8

abbrev pub with_ifs : State → List IfInfo → State
with_ifs s ifs = record s { ifs = ifs }

abbrev pub done : Reply
done = replied 0 0 nothing

-- NTC_ADDIF and NTC_DELIF; `data` is the bytes of the name up to its NUL.
unfoldable pub interest : ℕ → State → List ℕ → Reply × State
interest v s name =
    let (ifs, ret) = set_interest v name s.ifs in (replied ret 0 nothing, with_ifs s ifs)

-- NTC_IFPRESENT
unfoldable pub if_present : ℕ → State → ℕ → Reply
if_present ifnamsiz s nbytes =
    let size = sizeof_if_info ifnamsiz in
    let ds = descriptors size nbytes s.ifs in
    replied (length s.ifs) (length ds * size) (interfaces ds)

-- `none`: a pointer to a node that was freed. `nbytes` and `bytes` are the client's.
unfoldable pub ntc_rm_devctl : ℕ → State → Command → ℕ → List ℕ → Option (Reply × State)
unfolding interest if_present
ntc_rm_devctl ifnamsiz s ntc_flush nbytes bytes = some (done, record s { queue = flushed s.queue })
ntc_rm_devctl ifnamsiz s ntc_nummissed nbytes bytes =
    some (replied 0 sizeof_int (number s.queue.num_pkt_missed), s)
ntc_rm_devctl ifnamsiz s ntc_numblocked nbytes bytes =
    some (replied 0 sizeof_blkinfo (blocked s.num_pkt_blocked), s)
ntc_rm_devctl ifnamsiz s ntc_queuelen nbytes bytes =
    some (replied 0 sizeof_int (number s.queue.num_packets), s)
ntc_rm_devctl ifnamsiz s ntc_addblock nbytes bytes =
    some (done, record s { blocks = add_block s.blocks (mac_at bytes 0) })
ntc_rm_devctl ifnamsiz s ntc_delblock nbytes bytes = elim (del_block s.blocks (mac_at bytes 0)) [
  | none ↦ none
  | some b ↦ some (done, record s { blocks = b })
]
ntc_rm_devctl ifnamsiz s ntc_ifpresent nbytes bytes = some (if_present ifnamsiz s nbytes, s)
ntc_rm_devctl ifnamsiz s ntc_addif nbytes bytes = some (interest 1 s bytes)
ntc_rm_devctl ifnamsiz s ntc_delif nbytes bytes = some (interest 0 s bytes)
ntc_rm_devctl ifnamsiz s other nbytes bytes = some (enosys, s)
