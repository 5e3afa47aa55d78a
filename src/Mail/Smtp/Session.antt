-- ===== src/Mail/Smtp/Session.antt =====
-- QX-mail/smtp.c: the loop of thread_handler_smtp.
use qnxstuff.Prelude.{ℕ, ◌-◌, ◌++◌, ◌==◌, if◌then◌else◌}
use qnxstuff.Prelude.Memory.{load32}
use qnxstuff.Mail.Lines.{read_string}
use qnxstuff.Mail.Text.{capitals, codes}
use qnxstuff.Mail.Smtp.Connection.{
  ss_none, Smtp, Site, Outcome, again, crlf, send_printed, reply, drop_connection,
}
use qnxstuff.Mail.Smtp.Envelope.{greet, helo_text, ehlo_text, mail, rcpt, reset}
use qnxstuff.Mail.Smtp.Body.{data_cmd}
use qnxstuff.Mail.Smtp.Auth.{after_read, auth}

-- The words of qmail_smtp.h
pub data SmtpCommand : Type 0 where
  helo_c ehlo_c auth_c mail_c rcpt_c data_c rset_c noop_c quit_c unsupported : SmtpCommand

unfoldable pub command : ℕ → SmtpCommand
command w =
    if w == 0x4f4c4548
    then helo_c
    else if w == 0x4f4c4845
    then ehlo_c
    else if w == 0x48545541
    then auth_c
    else if w == 0x4c49414d
    then mail_c
    else if w == 0x54504352
    then rcpt_c
    else if w == 0x41544144
    then data_c
    else if w == 0x54455352
    then rset_c
    else if w == 0x504f4f4e
    then noop_c
    else if w == 0x54495551
    then quit_c
    else unsupported

-- QUIT
abbrev pub quit : Site → Smtp → Outcome
quit site s = drop_connection (
    send_printed site.alc_buf_size (codes "221 " ++ (site.server_fqdn ++ (codes " Bye" ++ crlf))) s)

-- The `switch`
unfoldable pub perform : Site → ℕ → SmtpCommand → Smtp → Outcome
unfolding greet mail rcpt data_cmd reset auth
perform site result helo_c s = greet site (helo_text site) result s
perform site result ehlo_c s = greet site (ehlo_text site) result s
perform site result auth_c s = auth site s.sstate s
perform site result mail_c s = mail s.sstate s
perform site result rcpt_c s = rcpt site s.sstate s
perform site result data_c s = data_cmd site s.sstate s
perform site result rset_c s = again (reset s)
perform site result noop_c s = again (reply (codes "250") s)
perform site result quit_c s = quit site s
perform site result unsupported s = again (reply (codes "550") s)

-- The body of the loop, when a line stands in the buffer.
unfoldable pub smtp_line : Site → ℕ → Smtp → Outcome
unfolding perform command
smtp_line site result s =
    let s' = record s { buffer = capitals s.buffer } in
    perform site result (command (load32 s'.buffer 0)) s'

-- One turn of the loop
unfoldable pub smtp_turn : Site → Smtp → Outcome
unfolding smtp_line
smtp_turn site s =
    after_read (smtp_line site) s (read_string (site.alc_buf_size - 1) s.buffer s.net)

-- The connection when the loop begins
unfoldable pub greeted : Site → Smtp → Smtp
greeted site s =
    send_printed site.alc_buf_size (codes "220 " ++ (site.server_fqdn ++ crlf))
      (record s { sstate = ss_none; auth = 0 })
