-- ===== src/Conf.antt =====
-- The reader of configuration files, which the programs share.
pub mod Tokens
mod Tests
