-- ===== src/Dns/Master.antt =====
-- QX-dns/master.c: the names of the master zones: how they are kept, compared and printed.
pub mod Compare
pub mod Copied
pub mod Hosts
pub mod Print
mod Tests
use qnxstuff.Prelude.{
  ℕ, zero, suc, ◌+◌, ◌/◌, ◌%◌, Bool, true, false, ◌&&◌, List, [], ◌∷◌, ◌++◌, ◌==◌, ltb,
  if◌then◌else◌, length,
}
use qnxstuff.Prelude.Strings.{toupper}

-- The byte of a length: 0 at the end of the name becomes 0xC0, which stands for the zone.
abbrev pub length_byte : Bool → ℕ → ℕ
length_byte ends k = if ends && k == 0 then 0xC0 else k

-- What the loop over a name leaves behind a place, the bytes from there to the next dot or to the
-- end, a number of eight bits, and whether it is the end.
unfoldable pub measured : List ℕ → List ℕ × (ℕ × Bool)
measured [] = ([], (0, true))
measured (c ∷ src) =
    let (dst, (k, ends)) = measured src in
    if c == b'.' then (length_byte ends k ∷ dst, (0, false)) else (c ∷ dst, ((k + 1) % 256, ends))

-- rcpy_string, with the NUL at the end
unfoldable pub rcpy_string : List ℕ → List ℕ
rcpy_string src = let (dst, (k, ends)) = measured src in length_byte ends k ∷ (dst ++ (0 ∷ []))

-- What rcmp_names returns: 1, with the place of the zone's name in the query, or 0. It does not end
-- where the name of a zone begins with 0xC0; or the model's fuel has run out. The comparison has
-- read behind a name or the query.
pub data Compared : Type 0 where
  matched : ℕ → Compared
  differs unending outside : Compared

-- The loop, from a place in the query on and one in a name. At 0xC0 the name of the zone goes on.
unfoldable pub rcmp : ℕ → List ℕ → ℕ → ℕ → List ℕ → List ℕ → Compared
rcmp zero zname zone_ptr qi qname cstr = unending
rcmp (suc fuel) zname zone_ptr qi [] cstr = outside
rcmp (suc fuel) zname zone_ptr qi (q ∷ qname) [] = outside
rcmp (suc fuel) zname zone_ptr qi (q ∷ qname) (c ∷ cstr) =
    let on = rcmp fuel zname zone_ptr (qi + 1) qname cstr in
    let zone = rcmp fuel zname (qi + 12) qi (q ∷ qname) zname in
    if toupper q == toupper c
    then if q == 0 then matched zone_ptr else on
    else if c == 0xC0
    then zone
    else differs

unfoldable pub rcmp_names : ℕ → List ℕ → List ℕ → List ℕ → Compared
rcmp_names fuel qname name zname = rcmp fuel zname 0 0 qname name

-- What rprt_name writes behind a place in the buffer, up to where it returns, or that it returns
-- NULL; and what it leaves in *zone_ptr.
pub data Printed : Type 0 where
  printed : List ℕ → ℕ → Printed
  truncated : ℕ → Printed
  stuck beyond : Printed

abbrev pub and_byte : ℕ → Printed → Printed
and_byte c (printed bytes zone_ptr) = printed (c ∷ bytes) zone_ptr
and_byte c other = other

-- The two bytes of 0xC000 | *zone_ptr, a word of 16 bits: the two highest bits are set, and the other
-- fourteen are those of *zone_ptr.
abbrev pub pointer_to : ℕ → List ℕ
pointer_to zone_ptr = (192 + zone_ptr / 256 % 64) ∷ (zone_ptr % 256) ∷ []

-- The loop. At 0xC0 the zone's name follows, or a pointer to it, if one is known: two bytes, of which
-- the second may stand behind the room.
unfoldable pub rprt : ℕ → ℕ → List ℕ → ℕ → ℕ → List ℕ → Printed
rprt zero len zname zone_ptr last cstr = stuck
rprt (suc fuel) len zname zone_ptr last [] = beyond
rprt (suc fuel) len zname zone_ptr last (c ∷ cstr) =
    let on = rprt fuel len zname zone_ptr (last + 1) cstr in
    let zone = rprt fuel len zname (last % 65536) last zname in
    if ltb last len
    then if c == 0
      then printed (0 ∷ []) zone_ptr
      else if c == 0xC0
      then if zone_ptr == 0 then zone else printed (pointer_to zone_ptr) zone_ptr
      else and_byte c on
    else truncated zone_ptr

unfoldable pub rprt_name : ℕ → ℕ → List ℕ → List ℕ → ℕ → Printed
rprt_name fuel len name zname zone_ptr = rprt fuel len zname zone_ptr 0 name
