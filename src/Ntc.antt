-- ===== src/Ntc.antt =====
-- The io-net filter module nfm-ntc.so: nfm-ntc/main.c and ntc_rm.c.
pub mod Blocks
pub mod Ifaces
pub mod Queue
pub mod Gate
pub mod Control
mod Tests
