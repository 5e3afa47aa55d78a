-- ===== src/Filter.antt =====
-- QX-billing's io-net filter module nfm-qxc.so: QX-billing/qxc_*.c.
pub mod Packet
pub mod Rules
pub mod Log
pub mod State
pub mod Gate
pub mod Control
mod Tests
