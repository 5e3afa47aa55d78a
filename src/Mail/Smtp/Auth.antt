-- ===== src/Mail/Smtp/Auth.antt =====
-- QX-mail/smtp.c: the command AUTH, by LOGIN and by CRAM-MD5.
use Prim.Native.Nat.{bit_xor}
use qnxstuff.Prelude.{
  ℕ, Bool, true, false, Option, none, some, List, [], ◌∷◌, ◌++◌, map, ◌==◌, not, if◌then◌else◌,
  length, set, take, drop,
}
use qnxstuff.Prelude.Strings.{stricmp_eq, c_string}
use qnxstuff.Mail.Lines.{poke, Read, line, failed, read_string}
use qnxstuff.Mail.Md5.{get_md5, md5_bin, zeros}
use qnxstuff.Mail.Text.{codes, decimal, split_at, memicmp_eq, strcmp_eq}
use qnxstuff.Mail.Mailboxes.{Mailbox, find_mailbox}
use qnxstuff.Mail.Smtp.Connection.{
  SmtpState, ss_helo, Smtp, Site, Outcome, again, fault, crlf, send, reply, drop_connection,
}

-- A read of a line into the buffer, of so many bytes at most; without one the connection is given up.
abbrev pub after_read : (ℕ → Smtp → Outcome) → Smtp → Read → Outcome
after_read next s (line n buffer net) = next n (record s { buffer = buffer; net = net })
after_read next s (failed buffer net) = drop_connection (record s { buffer = buffer; net = net })
after_read next s Read.starved = fault

-- The decoder's output goes to the front of the buffer.
abbrev pub decoded : List ℕ → Smtp → Smtp
decoded bytes s = record s { buffer = poke s.buffer 0 bytes }

-- Who is not authorised in the end is sent away.
unfoldable pub admitted : Smtp → Outcome
admitted s = if s.auth == 0 then drop_connection (reply (codes "535") s) else again s

-- LOGIN: the mailbox of the name, and the password at it.
abbrev pub password_read : Site → List ℕ → Mailbox → Bool × List ℕ → Smtp → Smtp
password_read site username m (false, bytes) s = reply (codes "551") (decoded bytes s)
password_read site username m (true, bytes) s =
    let s' = decoded bytes s in
    if strcmp_eq m.password (c_string s'.buffer)
    then reply (codes "235") (record s' { auth = 1; user = some username })
    else s'

abbrev pub check_login : Site → List ℕ → ℕ → Option (ℕ × Mailbox) → Smtp → Outcome
check_login site username n none s = admitted s
check_login site username n (some (i, m)) s =
    admitted (password_read site username m (site.decode64 (take n s.buffer)) s)

unfoldable pub login_password : Site → List ℕ → ℕ → Smtp → Outcome
login_password site username n s =
    check_login site username n (find_mailbox username site.mbx) (record s { auth = 0 })

abbrev pub name_decoded : Site → Bool × List ℕ → Smtp → Outcome
name_decoded site (false, bytes) s = again (reply (codes "551") (decoded bytes s))
name_decoded site (true, bytes) s =
    let s' = send (codes "334 UGFzc3dvcmQ6" ++ crlf) (decoded bytes s) in
    after_read (login_password site (c_string s'.buffer)) s' (read_string 256 s'.buffer s'.net)

unfoldable pub login_name : Site → ℕ → Smtp → Outcome
login_name site n s = name_decoded site (site.decode64 (take n s.buffer)) s

unfoldable pub auth_login : Site → Smtp → Outcome
auth_login site s =
    let s' = send (codes "334 VXNlcm5hbWU6" ++ crlf) s in
    after_read (login_name site) s' (read_string 256 s'.buffer s'.net)

-- CRAM-MD5: the answer expected to a challenge. The key is the password with zeros behind it.
abbrev key : ℕ → List ℕ → List ℕ
key pad password = map (λ c. bit_xor c pad) (take 64 (poke (zeros 64) 0 password))

abbrev inner_hash : List ℕ → List ℕ → List ℕ
inner_hash password challenge = md5_bin (key 0x36 password ++ challenge)

abbrev outer_text : List ℕ → List ℕ → List ℕ
outer_text password challenge = key 0x5c password ++ inner_hash password challenge

unfoldable pub cram_md5 : List ℕ → List ℕ → List ℕ
cram_md5 password challenge = get_md5 (outer_text password challenge)

-- The mailbox found; its hash is made in the buffer.
abbrev pub check_hash : List ℕ → List ℕ → Option (ℕ × Mailbox) → Smtp → Outcome
check_hash challenge hash none s = admitted s
check_hash challenge hash (some (i, m)) s =
    let s' = record s { buffer = poke s.buffer 0 (outer_text m.password challenge) } in
    admitted (
      if memicmp_eq 32 hash (cram_md5 m.password challenge)
      then reply (codes "235") (record s' { auth = 1 })
      else s')

abbrev pub response_split : Site → List ℕ → Option (List ℕ × List ℕ) → Smtp → Outcome
response_split site challenge none s = again (reply (codes "501") s)
response_split site challenge (some (name, hash)) s =
    check_hash challenge hash (find_mailbox name site.mbx)
      (record s { user = some name; buffer = set s.buffer (length name) 0 })

abbrev pub response_decoded : Site → List ℕ → Bool × List ℕ → Smtp → Outcome
response_decoded site challenge (false, bytes) s = again (reply (codes "551") (decoded bytes s))
response_decoded site challenge (true, bytes) s =
    let s' = decoded bytes s in
    response_split site challenge (split_at b' ' (c_string s'.buffer)) s'

-- The response is read into an array of its own, of 512 bytes with the challenge in it.
abbrev pub after_response : Site → List ℕ → Smtp → Read → Outcome
after_response site challenge s (line n response net) =
    response_decoded site challenge (site.decode64 (take n response)) (record s { net = net })
after_response site challenge s (failed response net) = drop_connection (record s { net = net })
after_response site challenge s Read.starved = fault

abbrev pub challenge_of : Site → List ℕ
challenge_of site = b'<' ∷ decimal 10 site.curtime (b'@' ∷ (site.server_fqdn ++ (b'>' ∷ [])))

unfoldable pub auth_cram : Site → Smtp → Outcome
auth_cram site s =
    let challenge = challenge_of site in
    let text = codes "334 " ++ (site.encode64 challenge ++ crlf) in
    let s' = send text (record s { greeting = some challenge; buffer = poke s.buffer 0 text }) in
    after_response site challenge s' (read_string 511 (poke (zeros 512) 0 challenge) s'.net)

-- AUTH
unfoldable pub auth : Site → SmtpState → Smtp → Outcome
auth site ss_helo s =
    if stricmp_eq (c_string (drop 5 s.buffer)) (codes "LOGIN")
    then auth_login site s
    else if not (stricmp_eq (c_string (drop 5 s.buffer)) (codes "CRAM-MD5"))
    then again (reply (codes "550") s)
    else auth_cram site s
auth site _ s = again (reply (codes "503") s)
