-- ===== src/Mail/Pop/Keeps.antt =====
-- What the commands of a POP3 connection keep.
use qnxstuff.Prelude.{
  ℕ, ◌+◌, ◌≤◌, ◌≡◌, inl, inr, Option, none, some, List, [], ◌∷◌, ◌++◌, ◌==◌, length, drop,
  Bool-cases, arith, length-append, length-drop,
}
use qnxstuff.Prelude.Int.{ℤ}
use qnxstuff.Prelude.Memory.{byte_at}
use qnxstuff.Mail.Lines.{poke}
use qnxstuff.Mail.Mailboxes.{Mailbox}
use qnxstuff.Mail.Pop.Connection.{
  PopState, mbx_none, mbx_auth, mbx_tran, Pop, Site, DirEnt, send, positive, send_printed, MsgEnt,
}
use qnxstuff.Mail.Pop.Login.{add_entry, add_entries, list_files, printed_secret}
use qnxstuff.Mail.Pop.Messages.{
  list_one, blocks, stat, list_cmd, send_blocks, send_file, retrieve, retr, dele, delete, rset,
  chosen,
}

-- What most commands keep: the state, the mailbox, the mutexes, and the room of the buffer.
pub record Keeps (s s' : Pop) : Type 0 where
  pub state : s'.pstate ≡ s.pstate
  pub box : s'.mbox ≡ s.mbox
  pub mutexes : s'.locks ≡ s.locks
  pub room : length s.buffer ≤ length s'.buffer

pub length-le-poke : (buffer bytes : List ℕ) → length buffer ≤ length (poke buffer 0 bytes)
length-le-poke buffer bytes = omega (
  arith,
  length-append bytes (drop (0 + length bytes) buffer),
  length-drop (0 + length bytes) buffer,
)

pub Keeps-trans : {s t u : Pop} → Keeps s t → Keeps t u → Keeps s u
Keeps-trans h k = ground arith

pub add_entry-Keeps :
    (size : ℕ) (user : List ℕ) (e : DirEnt) (s : Pop) → Keeps s (add_entry size user e s)
unfolding add_entry
add_entry-Keeps size user e s =
    ground (arith, length-le-poke s.buffer ((user ++ (b'/' ∷ e.d_name)) ++ (0 ∷ [])))

pub add_entries-Keeps :
    (size : ℕ) (user : List ℕ) (es : List DirEnt) (s : Pop) → Keeps s (add_entries size user es s)
unfolding add_entries
add_entries-Keeps size user [] s = ground arith
add_entries-Keeps size user (e ∷ es) s =
    Keeps-trans (add_entry-Keeps size user e s)
      (add_entries-Keeps size user es (add_entry size user e s))

pub list_files-Keeps :
    (size : ℕ) (user : List ℕ) (found : Option (List DirEnt)) (s : Pop)
    → Keeps s (list_files size user found s)
list_files-Keeps size user none s = ground arith
list_files-Keeps size user (some es) s = add_entries-Keeps size user es s

pub send_blocks-Keeps : (bs : List (List ℕ)) (s : Pop) → Keeps s (send_blocks bs s)
unfolding send_blocks
send_blocks-Keeps [] s = ground arith
send_blocks-Keeps (b ∷ bs) s =
    let s' : Pop = record s { buffer = poke s.buffer 0 b; sent = s.sent ++ (b ∷ []) } in
    let k : Keeps s s' = ground (arith, length-le-poke s.buffer b) in
    Keeps-trans k (send_blocks-Keeps bs s')

pub send_printed-Keeps : (size : ℕ) (text : List ℕ) (s : Pop) → Keeps s (send_printed size text s)
send_printed-Keeps size text s = ground (arith, length-le-poke s.buffer (text ++ (0 ∷ [])))

pub stat-Keeps : (size : ℕ) (p : PopState) (s : Pop) → Keeps s (stat size p s)
stat-Keeps size mbx_tran s = send_printed-Keeps size _ s
stat-Keeps size mbx_none s = ground arith
stat-Keeps size mbx_auth s = ground arith

pub list_one-Keeps :
    (size : ℕ) (o : Option (ℤ × (ℕ × MsgEnt))) (s : Pop) → Keeps s (list_one size o s)
list_one-Keeps size none s = ground arith
list_one-Keeps size (some (z, (i, m))) s = send_printed-Keeps size _ s

pub list_cmd-Keeps : (size : ℕ) (p : PopState) (s : Pop) → Keeps s (list_cmd size p s)
unfolding list_cmd
list_cmd-Keeps size mbx_tran s = elim (Bool-cases (byte_at s.buffer 4 == 0)) [
  | inl e ↦ rw e (send_printed-Keeps size _ s)
  | inr e ↦ rw e (list_one-Keeps size (chosen s) s)
]
list_cmd-Keeps size mbx_none s = ground arith
list_cmd-Keeps size mbx_auth s = ground arith

pub send_file-Keeps : (site : Site) (o : Option (List ℕ)) (s : Pop) → Keeps s (send_file site o s)
send_file-Keeps site none s = ground arith
send_file-Keeps site (some bytes) s =
    let k = send_blocks-Keeps (blocks (length bytes) site.alc_buf_size bytes) (send positive s) in
    ground arith

pub retrieve-Keeps :
    (site : Site) (o : Option (ℤ × (ℕ × MsgEnt))) (s : Pop) → Keeps s (retrieve site o s)
retrieve-Keeps site none s = ground arith
retrieve-Keeps site (some (z, (i, m))) s = send_file-Keeps site (site.contents m.name) s

pub retr-Keeps : (site : Site) (p : PopState) (s : Pop) → Keeps s (retr site p s)
unfolding retr
retr-Keeps site mbx_tran s = retrieve-Keeps site (chosen s) s
retr-Keeps site mbx_none s = ground arith
retr-Keeps site mbx_auth s = ground arith

pub delete-Keeps : (o : Option (ℤ × (ℕ × MsgEnt))) (s : Pop) → Keeps s (delete o s)
delete-Keeps none s = ground arith
delete-Keeps (some (z, (i, m))) s = ground arith

pub dele-Keeps : (p : PopState) (s : Pop) → Keeps s (dele p s)
unfolding dele
dele-Keeps mbx_tran s = delete-Keeps (chosen s) s
dele-Keeps mbx_none s = ground arith
dele-Keeps mbx_auth s = ground arith

pub rset-Keeps : (p : PopState) (s : Pop) → Keeps s (rset p s)
unfolding rset
rset-Keeps mbx_tran s = ground arith
rset-Keeps mbx_none s = ground arith
rset-Keeps mbx_auth s = ground arith

pub printed_secret-Keeps :
    (size : ℕ) (found : Option (ℕ × Mailbox)) (s : Pop) → Keeps s (printed_secret size found s)
printed_secret-Keeps size none s = ground arith
printed_secret-Keeps size (some (i, m)) s =
    ground (arith, length-le-poke s.buffer (s.greeting ++ (m.password ++ (0 ∷ []))))
