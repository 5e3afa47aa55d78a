-- ===== src/Mail/Pop/Marks.antt =====
-- What the commands of a POP3 connection do to the messages.
use qnxstuff.Prelude.{
  ℕ, ◌≡◌, refl, ap, subst, sym, inl, inr, false, Option, none, some, List, [], ◌∷◌, ◌++◌, ◌==◌,
  get_elem?, length, Bool-cases, arith,
}
use qnxstuff.Prelude.Int.{ℤ}
use qnxstuff.Prelude.Memory.{byte_at}
use qnxstuff.Mail.Lines.{poke}
use qnxstuff.Mail.Text.{capitals}
use qnxstuff.Mail.Pop.Connection.{mbx_tran, MsgEnt, Pop, Site, send, positive, send_printed}
use qnxstuff.Mail.Pop.Login.{apop, user_cmd, pass}
use qnxstuff.Mail.Pop.Messages.{
  message_number, steps, undeleted, message_at, chosen, list_one, list_cmd, blocks, send_blocks,
  send_file, retrieve, retr, delete, dele, rset, stat,
}
use qnxstuff.Mail.Pop.Session.{
  Outcome, again, over, noop, quit, PopCommand, apop_c, dele_c, list_c, noop_c, pass_c, quit_c,
  retr_c, rset_c, stat_c, user_c, unsupported, perform, pop_line,
}
use qnxstuff.Mail.Pop.Drop.{
  Request, mark, unmark_all, nothing, mark_of, request_by, command_of, request, is_quit, apply,
  mark_at_missing, mark_at_found, go_on, run_lines,
}

-- What a command does in the state of transaction.
pub record Does (r : Request) (s s' : Pop) : Type 0 where
  pub state : s'.pstate ≡ mbx_tran
  pub drop : s'.msgs ≡ apply r s.msgs
  pub files : s'.removed ≡ s.removed

printed-Does :
    (size : ℕ) (text : List ℕ) (s : Pop)
    → s.pstate ≡ mbx_tran
    → Does nothing s (send_printed size text s)
printed-Does size text s h = ground arith

send_blocks-Does :
    (bs : List (List ℕ)) (s : Pop) → s.pstate ≡ mbx_tran → Does nothing s (send_blocks bs s)
unfolding send_blocks
send_blocks-Does [] s h = ground arith
send_blocks-Does (b ∷ bs) s h =
    let d =
      send_blocks-Does bs (record s { buffer = poke s.buffer 0 b; sent = s.sent ++ (b ∷ []) }) h in
    ground arith

list_one-Does :
    (size : ℕ) (o : Option (ℤ × (ℕ × MsgEnt))) (s : Pop)
    → s.pstate ≡ mbx_tran
    → Does nothing s (list_one size o s)
list_one-Does size none s h = ground arith
list_one-Does size (some (z, (i, m))) s h = printed-Does size _ s h

list_cmd-Does :
    (size : ℕ) (s : Pop) → s.pstate ≡ mbx_tran → Does nothing s (list_cmd size mbx_tran s)
unfolding list_cmd
list_cmd-Does size s h = elim (Bool-cases (byte_at s.buffer 4 == 0)) [
  | inl e ↦ rw e (printed-Does size _ s h)
  | inr e ↦ rw e (list_one-Does size (chosen s) s h)
]

send_file-Does :
    (site : Site) (o : Option (List ℕ)) (s : Pop)
    → s.pstate ≡ mbx_tran
    → Does nothing s (send_file site o s)
send_file-Does site none s h = ground arith
send_file-Does site (some bytes) s h =
    let d = send_blocks-Does (blocks (length bytes) site.alc_buf_size bytes) (send positive s) h in
    ground arith

retrieve-Does :
    (site : Site) (o : Option (ℤ × (ℕ × MsgEnt))) (s : Pop)
    → s.pstate ≡ mbx_tran
    → Does nothing s (retrieve site o s)
retrieve-Does site none s h = ground arith
retrieve-Does site (some (z, (i, m))) s h = send_file-Does site (site.contents m.name) s h

undeleted-Does :
    (z : ℤ) (found : Option MsgEnt) (s : Pop)
    → s.pstate ≡ mbx_tran
    → get_elem? s.msgs (steps z) ≡ found
    → Does (mark (steps z)) s (delete (undeleted z (steps z) found) s)
undeleted-Does z none s h e = ground (arith, mark_at_missing (steps z) s.msgs e)
undeleted-Does z (some m) s h e =
    let at = mark_at_found (steps z) s.msgs m e in
    elim (Bool-cases (m.del == 0)) [
      | inl f ↦ rw f (ground (arith, at))
      | inr f ↦ rw f (ground (arith, at))
    ]

delete-Does :
    (z : Option ℤ) (s : Pop)
    → s.pstate ≡ mbx_tran
    → Does (mark_of z) s (delete (message_at s.msgs z) s)
delete-Does none s h = ground arith
delete-Does (some z) s h = undeleted-Does z (get_elem? s.msgs (steps z)) s h refl

-- A command that is not QUIT goes on in the state of transaction.
abbrev pub Goes : Request → Pop → Outcome → Type 0
Goes r s (again s') = Does r s s'
Goes r s (over s') = ⊥

perform-Goes :
    (site : Site) (result : ℕ) (c : PopCommand) (s : Pop)
    → s.pstate ≡ mbx_tran
    → is_quit c ≡ false
    → Goes (request_by c s.buffer) s (perform site result c s)
unfolding perform apop user_cmd pass retr dele rset noop chosen
perform-Goes site result apop_c s h n =
    subst (λ p. Does nothing s (apop site p result s)) (sym h) (ground arith)
perform-Goes site result user_c s h n =
    subst (λ p. Does nothing s (user_cmd p result s)) (sym h) (ground arith)
perform-Goes site result pass_c s h n =
    subst (λ p. Does nothing s (pass site p result s)) (sym h) (ground arith)
perform-Goes site result stat_c s h n =
    subst (λ p. Does nothing s (stat site.alc_buf_size p s)) (sym h)
      (printed-Does site.alc_buf_size _ s h)
perform-Goes site result list_c s h n =
    subst (λ p. Does nothing s (list_cmd site.alc_buf_size p s)) (sym h)
      (list_cmd-Does site.alc_buf_size s h)
perform-Goes site result retr_c s h n =
    subst (λ p. Does nothing s (retr site p s)) (sym h) (retrieve-Does site (chosen s) s h)
perform-Goes site result dele_c s h n =
    subst (λ p. Does (mark_of (message_number s.buffer)) s (dele p s)) (sym h)
      (delete-Does (message_number s.buffer) s h)
perform-Goes site result rset_c s h n =
    subst (λ p. Does unmark_all s (rset p s)) (sym h) (ground arith)
perform-Goes site result noop_c s h n =
    subst (λ p. Goes nothing s (noop p s)) (sym h) (ground arith)
perform-Goes site result quit_c s h n = cc
perform-Goes site result unsupported s h n = ground arith

Goes-buffer :
    (r : Request) (s : Pop) (buffer : List ℕ) (o : Outcome)
    → Goes r (record s { buffer = buffer }) o
    → Goes r s o
Goes-buffer r s buffer (again s') g = ground arith
Goes-buffer r s buffer (over s') g = g

pub pop_line-Goes :
    (site : Site) (n : ℕ) (l : List ℕ) (s : Pop)
    → s.pstate ≡ mbx_tran
    → is_quit (command_of l) ≡ false
    → Goes (request l) s (pop_line site n (record s { buffer = l }))
unfolding pop_line request
pop_line-Goes site n l s h q =
    let c = command_of l in
    let t : Pop = record s { buffer = capitals l } in
    Goes-buffer (request_by c (capitals l)) s (capitals l) (perform site n c t)
      (perform-Goes site n c t h q)

pub quit_removes :
    (site : Site) (q : List ℕ) (s : Pop)
    → command_of q ≡ quit_c
    → run_lines site (q ∷ []) s ≡ over (quit site (record s { buffer = capitals q }))
unfolding run_lines perform
quit_removes site q s e =
    let t : Pop = record s { buffer = capitals q } in
    ap (λ c. go_on (run_lines site []) (perform site (length q) c t)) e
