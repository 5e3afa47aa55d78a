-- ===== src/Mail/Smtp.antt =====
-- QX-mail/smtp.c: the connection of an SMTP client.
pub mod Connection
pub mod Envelope
pub mod Body
pub mod Auth
pub mod Session
pub mod Relay
pub mod Aside
pub mod Turns
pub mod Stored
pub mod Delivery
pub mod Short
mod Tests
