-- ===== src/Mail.antt =====
-- QX-mail: a mail server with SMTP, POP3 and a spooler.
pub mod Lines
pub mod Md5
pub mod Text
pub mod Mailboxes
pub mod Pop
pub mod Smtp
pub mod Spooler
mod Tests
