-- ===== src/Logger.antt =====
-- The logger of QX-billing.
pub mod Sessions
