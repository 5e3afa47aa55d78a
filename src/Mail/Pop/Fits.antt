-- ===== src/Mail/Pop/Fits.antt =====
-- The bytes that thread_handler_pop prints, and the size of its buffer.
use qnxstuff.Prelude.{
  ℕ, zero, suc, ◌+◌, ◌-◌, ◌*◌, ◌/◌, ◌%◌, ◌≤◌, ◌≡◌, inl, inr, Bool, ◌||◌, Option, none, some, List,
  [], ◌∷◌, ◌++◌, ◌==◌, ltb, length, Bool-cases, arith, length-append, length-set, length-map,
}
use qnxstuff.Prelude.Int.{ℤ, pos, negsuc}
use qnxstuff.Prelude.Memory.{byte_at}
use qnxstuff.Mail.Lines.{poke}
use qnxstuff.Mail.Text.{decimal, print_int, print_signed, codes}
use qnxstuff.Mail.Pop.Connection.{
  PopState, mbx_none, mbx_auth, mbx_tran, MsgEnt, Pop, Site, positive, send, send_printed,
}
use qnxstuff.Mail.Pop.Messages.{
  count_msgs, sum_sizes, stat, scan_lines, list_one, list_cmd, chosen, blocks, send_blocks,
  send_file, retrieve, delete, kept, rset,
}

length-decimal : (f n : ℕ) (text : List ℕ) → length (decimal f n text) ≤ f + length text
unfolding decimal
length-decimal zero n text = omega arith
length-decimal (suc f) n text = elim (Bool-cases (ltb n 10)) [
  | inl e ↦ rw e (omega arith)
  | inr e ↦ rw e (omega (arith, length-decimal f (n / 10) ((b'0' + n % 10) ∷ text)))
]

length-print_int : (n : ℕ) → length (print_int n) ≤ 11
unfolding print_int
length-print_int n = elim (Bool-cases (ltb n 2147483648)) [
  | inl e ↦ rw e (omega (arith, length-decimal 10 n []))
  | inr e ↦ rw e (omega (arith, length-decimal 10 (4294967296 - n) []))
]

length-print_signed : (z : ℤ) → length (print_signed z) ≤ 11
unfolding print_signed
length-print_signed (pos n) = omega (arith, length-decimal 10 n [])
length-print_signed (negsuc n) = omega (arith, length-decimal 10 (suc n) [])

length-scan_lines : (i : ℕ) (ms : List MsgEnt) → length (scan_lines i ms) ≤ 25 * length ms
unfolding scan_lines
length-scan_lines i [] = omega arith
length-scan_lines i (m ∷ ms) =
    let rest = scan_lines (i + 1) ms in
    let behind = b' ' ∷ (print_int m.size ++ (13 ∷ 10 ∷ rest)) in
    elim (Bool-cases (m.del == 0)) [
      | inl e ↦ rw e (
          omega (
            arith,
            length-append (print_int i) behind,
            length-append (print_int m.size) (13 ∷ 10 ∷ rest),
            length-print_int i,
            length-print_int m.size,
            length-scan_lines (i + 1) ms,
          ))
      | inr e ↦ rw e (omega (arith, length-scan_lines (i + 1) ms))
    ]

-- What is printed in the state of transaction fits in a buffer of a size, and so does the list of all
-- messages, of which each takes a line of 25 bytes at most.
abbrev pub Room : ℕ → List MsgEnt → Type 0
Room size msgs = (64 ≤ size) × (25 * length msgs + 9 ≤ size)

-- A command that does not print behind the buffer, keeps the greeting and the state, and makes no more
-- messages.
pub record Tidy (s s' : Pop) : Type 0 where
  pub prints : s'.overrun ≡ s.overrun
  pub hello : s'.greeting ≡ s.greeting
  pub state : s'.pstate ≡ s.pstate
  pub fewer : length s'.msgs ≤ length s.msgs

pub Tidy-trans : {s t u : Pop} → Tidy s t → Tidy t u → Tidy s u
Tidy-trans h k = ground arith

pub fits_lem : (b : Bool) (size n : ℕ) → n ≤ size → (b || ltb size n) ≡ b
fits_lem b size n h = ground arith

pub send_printed-Tidy :
    (size : ℕ) (text : List ℕ) (s : Pop)
    → length text + 1 ≤ size
    → Tidy s (send_printed size text s)
send_printed-Tidy size text s h =
    let e =
      fits_lem s.overrun size (length (text ++ (0 ∷ [])))
        (omega (arith, length-append text (0 ∷ []))) in
    ground arith

pub stat-Tidy : (size : ℕ) (p : PopState) (s : Pop) → 64 ≤ size → Tidy s (stat size p s)
stat-Tidy size mbx_tran s h =
    let a = print_int (count_msgs s.msgs) in
    let b = print_int (sum_sizes 0 s.msgs) in
    send_printed-Tidy size (codes "+OK " ++ (a ++ (b' ' ∷ (b ++ (13 ∷ 10 ∷ []))))) s (
      omega (
        arith,
        length-append a (b' ' ∷ (b ++ (13 ∷ 10 ∷ []))),
        length-append b (13 ∷ 10 ∷ []),
        length-print_int (count_msgs s.msgs),
        length-print_int (sum_sizes 0 s.msgs),
      ))
stat-Tidy size mbx_none s h = ground arith
stat-Tidy size mbx_auth s h = ground arith

list_one-Tidy :
    (size : ℕ) (o : Option (ℤ × (ℕ × MsgEnt))) (s : Pop) → 64 ≤ size → Tidy s (list_one size o s)
list_one-Tidy size none s h = ground arith
list_one-Tidy size (some (z, (i, m))) s h =
    let a = print_signed z in
    let b = print_int m.size in
    send_printed-Tidy size (codes "+OK " ++ (a ++ (b' ' ∷ (b ++ (13 ∷ 10 ∷ []))))) s (
      omega (
        arith,
        length-append a (b' ' ∷ (b ++ (13 ∷ 10 ∷ []))),
        length-append b (13 ∷ 10 ∷ []),
        length-print_signed z,
        length-print_int m.size,
      ))

pub list_cmd-Tidy : (size : ℕ) (s : Pop) → Room size s.msgs → Tidy s (list_cmd size mbx_tran s)
unfolding list_cmd
list_cmd-Tidy size s (h, r) =
    let lines = scan_lines 1 s.msgs in
    elim (Bool-cases (byte_at s.buffer 4 == 0)) [
      | inl e ↦ rw e (
          send_printed-Tidy size (positive ++ (lines ++ (b'.' ∷ 13 ∷ 10 ∷ []))) s
            (omega (arith, length-append lines (b'.' ∷ 13 ∷ 10 ∷ []), length-scan_lines 1 s.msgs)))
      | inr e ↦ rw e (list_one-Tidy size (chosen s) s h)
    ]

send_blocks-Tidy : (bs : List (List ℕ)) (s : Pop) → Tidy s (send_blocks bs s)
unfolding send_blocks
send_blocks-Tidy [] s = ground arith
send_blocks-Tidy (b ∷ bs) s =
    let k =
      send_blocks-Tidy bs (record s { buffer = poke s.buffer 0 b; sent = s.sent ++ (b ∷ []) }) in
    ground arith

send_file-Tidy : (site : Site) (o : Option (List ℕ)) (s : Pop) → Tidy s (send_file site o s)
send_file-Tidy site none s = ground arith
send_file-Tidy site (some bytes) s =
    let k = send_blocks-Tidy (blocks (length bytes) site.alc_buf_size bytes) (send positive s) in
    ground arith

pub retrieve-Tidy :
    (site : Site) (o : Option (ℤ × (ℕ × MsgEnt))) (s : Pop) → Tidy s (retrieve site o s)
retrieve-Tidy site none s = ground arith
retrieve-Tidy site (some (z, (i, m))) s = send_file-Tidy site (site.contents m.name) s

pub delete-Tidy : (o : Option (ℤ × (ℕ × MsgEnt))) (s : Pop) → Tidy s (delete o s)
delete-Tidy none s = ground arith
delete-Tidy (some (z, (i, m))) s = ground (arith, length-set s.msgs i (record m { del = 1 }))

pub rset-Tidy : (p : PopState) (s : Pop) → Tidy s (rset p s)
unfolding rset
rset-Tidy mbx_tran s = ground (arith, length-map kept s.msgs)
rset-Tidy mbx_none s = ground arith
rset-Tidy mbx_auth s = ground arith
