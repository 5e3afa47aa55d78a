-- ===== src/Dns.antt =====
-- The name server QX-dns.
pub mod Cache
pub mod Master
pub mod Requests
mod Tests
