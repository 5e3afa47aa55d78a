-- ===== src/Mail/Pop/Tidied.antt =====
-- A POP3 connection in the state of transaction, and its buffer.
use qnxstuff.Prelude.{ℕ, ◌≡◌, refl, sym, subst, List, arith}
use qnxstuff.Prelude.Memory.{load32}
use qnxstuff.Mail.Text.{capitals}
use qnxstuff.Mail.Pop.Connection.{mbx_tran, Pop, Site}
use qnxstuff.Mail.Pop.Login.{apop, user_cmd, pass}
use qnxstuff.Mail.Pop.Messages.{list_cmd, retr, dele, chosen}
use qnxstuff.Mail.Pop.Session.{
  Outcome, again, over, noop, quit, PopCommand, apop_c, dele_c, list_c, noop_c, pass_c, quit_c,
  retr_c, rset_c, stat_c, user_c, unsupported, command, perform, pop_line,
}
use qnxstuff.Mail.Pop.Fits.{
  Tidy, Room, stat-Tidy, list_cmd-Tidy, retrieve-Tidy, delete-Tidy, rset-Tidy,
}

-- A command that goes on is tidy, and one that ends does not print behind the buffer.
abbrev pub Stays : Pop → Outcome → Type 0
Stays s (again s') = Tidy s s'
Stays s (over s') = s'.overrun ≡ s.overrun

perform-Stays :
    (site : Site) (result : ℕ) (c : PopCommand) (s : Pop)
    → s.pstate ≡ mbx_tran
    → Room site.alc_buf_size s.msgs
    → Stays s (perform site result c s)
unfolding perform apop user_cmd pass retr dele noop quit
perform-Stays site result apop_c s h r =
    subst (λ p. Tidy s (apop site p result s)) (sym h) (ground arith)
perform-Stays site result user_c s h r =
    subst (λ p. Tidy s (user_cmd p result s)) (sym h) (ground arith)
perform-Stays site result pass_c s h r =
    subst (λ p. Tidy s (pass site p result s)) (sym h) (ground arith)
perform-Stays site result stat_c s h r = stat-Tidy site.alc_buf_size s.pstate s r.0
perform-Stays site result list_c s h r =
    subst (λ p. Tidy s (list_cmd site.alc_buf_size p s)) (sym h)
      (list_cmd-Tidy site.alc_buf_size s r)
perform-Stays site result retr_c s h r =
    subst (λ p. Tidy s (retr site p s)) (sym h) (retrieve-Tidy site (chosen s) s)
perform-Stays site result dele_c s h r =
    subst (λ p. Tidy s (dele p s)) (sym h) (delete-Tidy (chosen s) s)
perform-Stays site result rset_c s h r = rset-Tidy s.pstate s
perform-Stays site result noop_c s h r = subst (λ p. Stays s (noop p s)) (sym h) (ground arith)
perform-Stays site result quit_c s h r = refl
perform-Stays site result unsupported s h r = ground arith

Stays-buffer :
    (s : Pop) (buffer : List ℕ) (o : Outcome) → Stays (record s { buffer = buffer }) o → Stays s o
Stays-buffer s buffer (again s') g = ground arith
Stays-buffer s buffer (over s') g = g

pub pop_line-Stays :
    (site : Site) (n : ℕ) (l : List ℕ) (s : Pop)
    → s.pstate ≡ mbx_tran
    → Room site.alc_buf_size s.msgs
    → Stays s (pop_line site n (record s { buffer = l }))
unfolding pop_line
pop_line-Stays site n l s h r =
    let t : Pop = record s { buffer = capitals l } in
    let c = command (load32 (capitals l) 0) in
    Stays-buffer s (capitals l) (perform site n c t) (perform-Stays site n c t h r)
