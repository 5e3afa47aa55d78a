-- ===== src/Mail/Pop/Messages.antt =====
-- QX-mail/pop3.c: the commands STAT, LIST, RETR, DELE and RSET.
use qnxstuff.Prelude.{
  map, not, ℕ, zero, suc, ◌+◌, ◌-◌, ◌%◌, ◌&&◌, Option, none, some, List, [], ◌∷◌, ◌++◌, ◌==◌,
  if◌then◌else◌, length, get_elem?, set, take, drop,
}
use qnxstuff.Prelude.Int.{ℤ, pos, negsuc}
use qnxstuff.Prelude.Memory.{byte_at}
use qnxstuff.Prelude.Strings.{c_string}
use qnxstuff.Mail.Lines.{poke}
use qnxstuff.Mail.Text.{codes, atoi, print_int, print_signed}
use qnxstuff.Mail.Pop.Connection.{
  PopState, mbx_tran, MsgEnt, Pop, Site, positive, negative, end_of_message, send, send_printed,
}

-- The number asked for: after a space there is something, and it is not read as 0.
abbrev non_zero : ℤ → Option ℤ
non_zero (pos zero) = none
non_zero z = some z

unfoldable pub message_number : List ℕ → Option ℤ
message_number buffer =
    if byte_at buffer 4 == b' ' && not (byte_at buffer 5 == 0)
    then non_zero (atoi (c_string (drop 5 buffer)))
    else none

-- `for (i = 1; i < msgnum && msgs != NULL; i++) msgs = msgs->next`: how far it goes.
abbrev pub steps : ℤ → ℕ
steps (pos n) = n - 1
steps (negsuc n) = 0

abbrev pub undeleted : ℤ → ℕ → Option MsgEnt → Option (ℤ × (ℕ × MsgEnt))
undeleted z i none = none
undeleted z i (some m) = if m.del == 0 then some (z, (i, m)) else none

abbrev pub message_at : List MsgEnt → Option ℤ → Option (ℤ × (ℕ × MsgEnt))
message_at msgs none = none
message_at msgs (some z) = undeleted z (steps z) (get_elem? msgs (steps z))

-- The message that LIST, RETR and DELE are about; the number as it was given, and its place.
unfoldable pub chosen : Pop → Option (ℤ × (ℕ × MsgEnt))
unfolding message_number
chosen s = message_at s.msgs (message_number s.buffer)

-- STAT
unfoldable pub count_msgs : List MsgEnt → ℕ
count_msgs [] = 0
count_msgs (m ∷ ms) = let n = count_msgs ms in if m.del == 0 then n + 1 else n

unfoldable pub sum_sizes : ℕ → List MsgEnt → ℕ
sum_sizes total [] = total
sum_sizes total (m ∷ ms) =
    sum_sizes (if m.del == 0 then (total + m.size) % 4294967296 else total) ms

abbrev crlf : List ℕ
crlf = 13 ∷ 10 ∷ []

abbrev pub stat : ℕ → PopState → Pop → Pop
stat size mbx_tran s =
    send_printed size
      (codes "+OK "
        ++ (print_int (count_msgs s.msgs) ++ (b' ' ∷ (print_int (sum_sizes 0 s.msgs) ++ crlf))))
      s
stat size _ s = send negative s

-- LIST
unfoldable pub scan_lines : ℕ → List MsgEnt → List ℕ
scan_lines i [] = []
scan_lines i (m ∷ ms) =
    let rest = scan_lines (i + 1) ms in
    if m.del == 0 then print_int i ++ (b' ' ∷ (print_int m.size ++ (crlf ++ rest))) else rest

abbrev pub list_one : ℕ → Option (ℤ × (ℕ × MsgEnt)) → Pop → Pop
list_one size none s = send negative s
list_one size (some (z, (i, m))) s =
    send_printed size (codes "+OK " ++ (print_signed z ++ (b' ' ∷ (print_int m.size ++ crlf)))) s

unfoldable pub list_cmd : ℕ → PopState → Pop → Pop
list_cmd size mbx_tran s =
    if byte_at s.buffer 4 == 0
    then send_printed size (positive ++ (scan_lines 1 s.msgs ++ (b'.' ∷ crlf))) s
    else list_one size (chosen s) s
list_cmd size _ s = send negative s

-- RETR: the blocks that `read` makes of a file.
unfoldable pub blocks : ℕ → ℕ → List ℕ → List (List ℕ)
blocks zero size bytes = []
blocks (suc f) size [] = []
blocks (suc f) size (c ∷ bytes) = take size (c ∷ bytes) ∷ blocks f size (drop size (c ∷ bytes))

unfoldable pub send_blocks : List (List ℕ) → Pop → Pop
send_blocks [] s = s
send_blocks (b ∷ bs) s =
    send_blocks bs (record s { buffer = poke s.buffer 0 b; sent = s.sent ++ (b ∷ []) })

abbrev pub send_file : Site → Option (List ℕ) → Pop → Pop
send_file site none s = send negative s
send_file site (some bytes) s =
    send end_of_message
      (send_blocks (blocks (length bytes) site.alc_buf_size bytes) (send positive s))

abbrev pub retrieve : Site → Option (ℤ × (ℕ × MsgEnt)) → Pop → Pop
retrieve site none s = send negative s
retrieve site (some (z, (i, m))) s = send_file site (site.contents m.name) s

unfoldable pub retr : Site → PopState → Pop → Pop
retr site mbx_tran s = retrieve site (chosen s) s
retr site _ s = send negative s

-- DELE
abbrev pub delete : Option (ℤ × (ℕ × MsgEnt)) → Pop → Pop
delete none s = send negative s
delete (some (z, (i, m))) s =
    send positive (record s { msgs = set s.msgs i (record m { del = 1 }) })

unfoldable pub dele : PopState → Pop → Pop
dele mbx_tran s = delete (chosen s) s
dele _ s = send negative s

-- RSET
abbrev pub kept : MsgEnt → MsgEnt
kept m = record m { del = 0 }

unfoldable pub rset : PopState → Pop → Pop
rset mbx_tran s = send positive (record s { msgs = map kept s.msgs })
rset _ s = send negative s
