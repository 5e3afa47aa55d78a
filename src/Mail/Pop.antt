-- ===== src/Mail/Pop.antt =====
-- QX-mail/pop3.c: the connection of a POP3 client.
pub mod Connection
pub mod Login
pub mod Messages
pub mod Session
pub mod Keeps
pub mod Fits
pub mod Tidied
pub mod Within
pub mod Locks
pub mod Entering
pub mod Ends
pub mod Drop
pub mod Marks
pub mod Removal
mod Tests
