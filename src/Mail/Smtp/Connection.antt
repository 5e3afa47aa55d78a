-- ===== src/Mail/Smtp/Connection.antt =====
-- QX-mail/smtp.c: what thread_handler_smtp works on, the replies, and FreeSMTPSession.
use qnxstuff.Prelude.{ℕ, Bool, ◌||◌, ltb, length, Option, none, some, List, [], ◌∷◌, ◌++◌}
use qnxstuff.Mail.Lines.{poke}
use qnxstuff.Mail.Mailboxes.{Mailbox}

-- smtp_state_t; the code never sets SS_DATA
pub data SmtpState : Type 0 where
  ss_none ss_helo ss_rcpt ss_data : SmtpState

-- smtpmsg_t, with the bytes written to its spooler file. The recipients are listed newest first.
pub record SmtpMsg : Type 0 where
  pub from : List ℕ
  pub to : List (List ℕ)
  pub spoolfn : Option (List ℕ)
  pub written : List ℕ

-- The connection and the buffer of the thread, with what it works on outside: what the network has
-- in store, the strings sent, the queue of the spooler, the files removed, and how many temporary
-- files were made. The last says whether `sprintf` has written behind the buffer, after which C
-- promises nothing: what the model goes on to is then not what the code does.
pub record Smtp : Type 0 where
  pub sstate : SmtpState
  pub auth : ℕ
  pub user : Option (List ℕ)
  pub greeting : Option (List ℕ)
  pub msgs : List SmtpMsg
  pub buffer : List ℕ
  pub net : List (List ℕ)
  pub sent : List (List ℕ)
  pub spool : List SmtpMsg
  pub unlinked : List (List ℕ)
  pub made : ℕ
  pub overrun : Bool

-- The configuration, and what the system answers: the time, the address of the peer as text, the
-- names that `mkstemp` makes, and the routines for Base64: the bytes that the decoder leaves in its
-- output, with its success.
pub record Site : Type 0 where
  pub mbx : List Mailbox
  pub server_fqdn : List ℕ
  pub alc_buf_size : ℕ
  pub curtime : ℕ
  pub peer : List ℕ
  pub temp_name : ℕ → List ℕ
  pub encode64 : List ℕ → List ℕ
  pub decode64 : List ℕ → Bool × List ℕ

-- A command ends in the next turn of the loop, in a return, or in the use of a null pointer, for
-- which C promises nothing.
pub data Outcome : Type 0 where
  again over : Smtp → Outcome
  fault : Outcome

abbrev pub crlf : List ℕ
crlf = 13 ∷ 10 ∷ []

abbrev pub send : List ℕ → Smtp → Smtp
send text s = record s { sent = s.sent ++ (text ∷ []) }

-- A code alone
abbrev pub reply : List ℕ → Smtp → Smtp
reply text s = send (text ++ crlf) s

-- `sprintf` into the buffer, of a size: the bytes printed, with their NUL.
abbrev pub print_into : ℕ → List ℕ → Smtp → Smtp
print_into size bytes s = record s {
  buffer = poke s.buffer 0 bytes;
  overrun = s.overrun || ltb size (length bytes);
}

-- A reply that was printed into the buffer
abbrev pub send_printed : ℕ → List ℕ → Smtp → Smtp
send_printed size text s = send text (print_into size (text ++ (0 ∷ [])) s)

-- The spooler files of messages that are given up
unfoldable pub spool_files : List SmtpMsg → List (List ℕ)
spool_files [] = []
spool_files (m ∷ ms) =
    let rest = spool_files ms in elim m.spoolfn [ none ↦ rest | some name ↦ name ∷ rest ]

-- FreeSMTPSession. The state and the authorisation stay.
abbrev pub free_smtp_session : Smtp → Smtp
free_smtp_session s = record s {
  user = none;
  greeting = none;
  msgs = [];
  unlinked = s.unlinked ++ spool_files s.msgs;
}

-- The end of a connection that is given up
abbrev pub drop_connection : Smtp → Outcome
drop_connection s = over (free_smtp_session s)
