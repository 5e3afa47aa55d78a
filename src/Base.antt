-- ===== src/Base.antt =====
-- The database server QX-base.
pub mod Filters
pub mod Conditions
mod Tests
