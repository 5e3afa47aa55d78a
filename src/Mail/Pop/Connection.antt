-- ===== src/Mail/Pop/Connection.antt =====
-- QX-mail/pop3.c: what thread_handler_pop works on, and the replies.
use qnxstuff.Prelude.{ℕ, Bool, ◌||◌, ltb, length, Option, List, [], ◌∷◌, ◌++◌}
use qnxstuff.Mail.Lines.{poke}
use qnxstuff.Mail.Text.{codes}
use qnxstuff.Mail.Mailboxes.{Mailbox, Locks}

-- pop_state_t
pub data PopState : Type 0 where
  mbx_none mbx_auth mbx_tran : PopState

-- msgent_t
pub record MsgEnt : Type 0 where
  pub del : ℕ
  pub size : ℕ
  pub name : List ℕ

-- What `readdir_r` and `lstat` say of a file.
pub record DirEnt : Type 0 where
  pub d_name : List ℕ
  pub is_regular : Bool
  pub st_size : ℕ

-- The connection and the variables of thread_handler_pop, with what it works on outside: the
-- mutexes of the mailboxes, the files removed, and the strings sent, oldest first. The last says
-- whether `sprintf` has written behind the buffer, after which C promises nothing: what the model
-- goes on to is then not what the code does.
pub record Pop : Type 0 where
  pub pstate : PopState
  pub user : Option (List ℕ)
  pub greeting : List ℕ
  pub msgs : List MsgEnt
  pub mbox : Option ℕ
  pub buffer : List ℕ
  pub locks : Locks
  pub removed : List (List ℕ)
  pub sent : List (List ℕ)
  pub overrun : Bool

-- The thread, the configuration of the server, and its files: those of a directory, and the bytes
-- of one that can be opened.
pub record Site : Type 0 where
  pub me : ℕ
  pub mbx : List Mailbox
  pub alc_buf_size : ℕ
  pub directory : List ℕ → Option (List DirEnt)
  pub contents : List ℕ → Option (List ℕ)

abbrev pub positive : List ℕ
positive = codes "+OK" ++ (13 ∷ 10 ∷ [])

abbrev pub negative : List ℕ
negative = codes "-ERR" ++ (13 ∷ 10 ∷ [])

abbrev pub end_of_message : List ℕ
end_of_message = 13 ∷ 10 ∷ b'.' ∷ 13 ∷ 10 ∷ []

abbrev pub send : List ℕ → Pop → Pop
send text s = record s { sent = s.sent ++ (text ∷ []) }

-- `sprintf` into the buffer, of a size: the bytes printed, with their NUL.
abbrev pub print_into : ℕ → List ℕ → Pop → Pop
print_into size bytes s = record s {
  buffer = poke s.buffer 0 bytes;
  overrun = s.overrun || ltb size (length bytes);
}

-- A reply that was printed into the buffer
abbrev pub send_printed : ℕ → List ℕ → Pop → Pop
send_printed size text s = send text (print_into size (text ++ (0 ∷ [])) s)
