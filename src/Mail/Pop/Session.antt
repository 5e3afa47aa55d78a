-- ===== src/Mail/Pop/Session.antt =====
-- QX-mail/pop3.c: the loop of thread_handler_pop, and the commands that may end it.
use qnxstuff.Prelude.{ℕ, zero, suc, ◌-◌, Bool, none, List, [], ◌∷◌, ◌++◌, ◌==◌, if◌then◌else◌}
use qnxstuff.Prelude.Memory.{load32}
use qnxstuff.Mail.Lines.{Read, line, failed, read_string}
use qnxstuff.Mail.Text.{capitals, codes, decimal}
use qnxstuff.Mail.Mailboxes.{unlock}
use qnxstuff.Mail.Pop.Connection.{
  PopState, mbx_none, mbx_tran, MsgEnt, Pop, Site, positive, negative, send, send_printed,
  print_into,
}
use qnxstuff.Mail.Pop.Login.{apop, user_cmd, pass}
use qnxstuff.Mail.Pop.Messages.{stat, list_cmd, retr, dele, rset}

-- A command ends in the next turn of the loop, or in a return.
pub data Outcome : Type 0 where
  again over : Pop → Outcome

-- NOOP
unfoldable pub noop : PopState → Pop → Outcome
noop mbx_tran s = again (send positive s)
noop _ s = over (send negative s)

-- QUIT
unfoldable pub marked : List MsgEnt → List (List ℕ)
marked [] = []
marked (m ∷ ms) = let rest = marked ms in if m.del == 0 then rest else m.name ∷ rest

unfoldable pub quit : Site → Pop → Pop
quit site s = record s {
  msgs = [];
  locks = unlock site.me s.mbox s.locks;
  removed = s.removed ++ marked s.msgs;
  sent = s.sent ++ (positive ∷ []);
}

-- The words of qmail_pop3.h
pub data PopCommand : Type 0 where
  apop_c dele_c list_c noop_c pass_c quit_c retr_c rset_c stat_c user_c unsupported : PopCommand

unfoldable pub command : ℕ → PopCommand
command w =
    if w == 0x504f5041
    then apop_c
    else if w == 0x454c4544
    then dele_c
    else if w == 0x5453494c
    then list_c
    else if w == 0x504f4f4e
    then noop_c
    else if w == 0x53534150
    then pass_c
    else if w == 0x54495551
    then quit_c
    else if w == 0x52544552
    then retr_c
    else if w == 0x54455352
    then rset_c
    else if w == 0x54415453
    then stat_c
    else if w == 0x52455355
    then user_c
    else unsupported

-- The `switch`
unfoldable pub perform : Site → ℕ → PopCommand → Pop → Outcome
unfolding apop user_cmd pass list_cmd retr dele rset noop quit
perform site result apop_c s = again (apop site s.pstate result s)
perform site result user_c s = again (user_cmd s.pstate result s)
perform site result pass_c s = again (pass site s.pstate result s)
perform site result stat_c s = again (stat site.alc_buf_size s.pstate s)
perform site result list_c s = again (list_cmd site.alc_buf_size s.pstate s)
perform site result retr_c s = again (retr site s.pstate s)
perform site result dele_c s = again (dele s.pstate s)
perform site result rset_c s = again (rset s.pstate s)
perform site result noop_c s = noop s.pstate s
perform site result quit_c s = over (quit site s)
perform site result unsupported s = again (send negative s)

-- The body of the loop, when a line stands in the buffer.
unfoldable pub pop_line : Site → ℕ → Pop → Outcome
unfolding perform command
pop_line site result s =
    let s' = record s { buffer = capitals s.buffer } in
    perform site result (command (load32 s'.buffer 0)) s'

-- A connection that timed out or was closed: nothing is removed.
abbrev pub hang_up : Site → List ℕ → Pop → Pop
hang_up site buffer s = record s { buffer = buffer; locks = unlock site.me s.mbox s.locks }

-- The loop, over what the network delivers. `starved` is not a result of the code: the fuel is gone.
pub data Run : Type 0 where
  finished : Pop → Run
  starved : Run

-- What follows a command, and what follows a read; `next` is the next turn of the loop.
abbrev pub proceed : (List (List ℕ) → Pop → Run) → List (List ℕ) → Outcome → Run
proceed next net (again s) = next net s
proceed next net (over s) = finished s

abbrev pub after_read : Site → (List (List ℕ) → Pop → Run) → Pop → Read → Run
after_read site next s (line n buffer net) =
    proceed next net (pop_line site n (record s { buffer = buffer }))
after_read site next s (failed buffer net) = finished (hang_up site buffer s)
after_read site next s Read.starved = starved

unfoldable pub pop_loop : ℕ → Site → List (List ℕ) → Pop → Run
pop_loop zero site net s = starved
pop_loop (suc fuel) site net s =
    after_read site (pop_loop fuel site) s (read_string (site.alc_buf_size - 1) s.buffer net)

-- thread_handler_pop. The time and whether the greeting could be sent are arguments. The greeting
-- and the first reply are printed into the buffer one after the other.
unfoldable pub greeted : ℕ → List ℕ → Pop → Pop
greeted size mark s =
    send_printed size (codes "+OK " ++ (mark ++ (13 ∷ 10 ∷ [])))
      (record (print_into size (mark ++ (0 ∷ [])) s) {
        pstate = mbx_none;
        mbox = none;
        greeting = mark;
      })

-- The mark in the greeting
abbrev pub mark_of_time : ℕ → List ℕ → List ℕ
mark_of_time curtime server_fqdn = b'<' ∷ decimal 10 curtime (b'@' ∷ (server_fqdn ++ (b'>' ∷ [])))

unfoldable pub thread_handler_pop : ℕ → Site → ℕ → List ℕ → Bool → List (List ℕ) → Pop → Run
unfolding pop_loop
thread_handler_pop fuel site curtime server_fqdn sent_ok net s =
    let s' = greeted site.alc_buf_size (mark_of_time curtime server_fqdn) s in
    if sent_ok then pop_loop fuel site net s' else finished s'
