-- ===== src/Mail/Smtp/Body.antt =====
-- QX-mail/smtp.c: the command DATA, which spools a message.
use qnxstuff.Prelude.{
  ℕ, zero, suc, ◌+◌, ◌-◌, Bool, ◌&&◌, ◌||◌, Option, none, some, List, [], ◌∷◌, ◌++◌, ltb, ◌==◌,
  if◌then◌else◌, length, take, drop,
}
use qnxstuff.Prelude.Memory.{byte_at}
use qnxstuff.Mail.Lines.{received, left_over, poke}
use qnxstuff.Mail.Text.{codes}
use qnxstuff.Mail.Smtp.Connection.{
  SmtpState, ss_helo, ss_rcpt, SmtpMsg, Smtp, Site, Outcome, again, fault, crlf, reply, print_into,
  drop_connection,
}

-- The last '\r' among so many bytes of the buffer
unfoldable pub last_cr : ℕ → List ℕ → Option ℕ
last_cr zero buffer = none
last_cr (suc n) buffer =
    let before = last_cr n buffer in if byte_at buffer n == 13 then some n else before

-- Whether "\r\n." stands in front of a place
abbrev pub ends_message : ℕ → List ℕ → Bool
ends_message p buffer =
    byte_at buffer (p - 1) == b'.' && (byte_at buffer (p - 2) == 10 && byte_at buffer (p - 3) == 13)

-- How the loop ends: with the bytes written to the file, or because the connection ended. The last
-- is not a result of the code: the model's fuel has run out.
pub data Body : Type 0 where
  whole : List ℕ → List ℕ → List (List ℕ) → Body
  broken : List (List ℕ) → Body
  starved : Body

-- What is done with so many bytes in the buffer, up to a '\r' that is not the last of them: they are
-- written up to that, or up to the end of the message, and the others moved to the front.
abbrev pub moved : ℕ → ℕ → List ℕ → List ℕ
moved result p buffer = poke buffer 0 (take (result - p) (drop p buffer))

-- Where the writing stops, and whether that is the end
abbrev pub found_cr : ℕ → Option ℕ → Option ℕ
found_cr result none = none
found_cr result (some p) = if ltb p 3 || p == result - 1 then none else some p

abbrev pub cut :
    (ℕ → List ℕ → List (List ℕ) → List ℕ → Body)
    → ℕ
    → List ℕ
    → List (List ℕ)
    → List ℕ
    → Option ℕ
    → Body
cut next result buffer net written none = next result buffer net written
cut next result buffer net written (some p) =
    let rest = next (result - p) (moved result p buffer) net (written ++ take p buffer) in
    if ends_message p buffer
    then whole (written ++ take (p - 3) buffer) (moved result (p - 3) buffer) net
    else rest

-- The loop until the end of the message, from a place in the buffer.
unfoldable pub read_body : ℕ → ℕ → ℕ → List ℕ → List (List ℕ) → List ℕ → Body
unfolding last_cr
read_body zero size start buffer net written = starved
read_body (suc fuel) size start buffer net written =
    let got = received (size - start) net in
    let net' = left_over (size - start) net in
    let result = start + length got in
    let buffer' = poke buffer start got in
    let rest =
      cut (read_body fuel size) result buffer' net' written
        (found_cr result (last_cr result buffer')) in
    if length got == 0 then broken net' else rest

-- The line that the server puts in front
abbrev pub received_line : Site → List ℕ → List ℕ
received_line site user =
    codes "Received: from "
    ++ (user ++ (b'(' ∷ (site.peer ++ (codes ") by " ++ (site.server_fqdn ++ crlf)))))

-- How much fuel suffices: each turn takes at least one byte of the network.
unfoldable pub bytes_of : List (List ℕ) → ℕ
bytes_of [] = 0
bytes_of (chunk ∷ net) = length chunk + bytes_of net

-- After the loop the message joins the queue of the spooler.
abbrev pub spooled : Smtp → SmtpMsg → Body → Outcome
spooled s m (whole written buffer net) = again (
    reply (codes "250") (record s {
      buffer = buffer;
      net = net;
      spool = record m { written = written } ∷ s.spool;
      msgs = [];
      sstate = ss_helo;
    }))
spooled s m (broken net) = drop_connection (record s { net = net })
spooled s m starved = fault

-- The spooler file is made, the line in front written, and the client told to go on.
abbrev pub with_file : Site → SmtpMsg → Smtp → SmtpMsg
with_file site m s = record m { spoolfn = some (site.temp_name s.made) }

abbrev pub ready : Site → List ℕ → SmtpMsg → List SmtpMsg → Smtp → Smtp
ready site line m ms s =
    reply (codes "354") (record (print_into site.alc_buf_size (line ++ (0 ∷ [])) s) {
      msgs = with_file site m s ∷ ms;
      made = s.made + 1;
    })

abbrev pub store_from : Site → List ℕ → SmtpMsg → Smtp → Outcome
store_from site line m s =
    spooled s m (read_body (suc (bytes_of s.net)) site.alc_buf_size 0 s.buffer s.net line)

abbrev pub store : Site → Option (List ℕ) → List SmtpMsg → Smtp → Outcome
store site none ms s = fault
store site (some user) [] s = fault
store site (some user) (m ∷ ms) s =
    let line = received_line site user in
    store_from site line (with_file site m s) (ready site line m ms s)

unfoldable pub data_cmd : Site → SmtpState → Smtp → Outcome
unfolding read_body bytes_of
data_cmd site ss_rcpt s = store site s.user s.msgs s
data_cmd site _ s = again (reply (codes "503") s)
