-- ===== src/Config.antt =====
-- Package internal/config.
pub mod ProjectId
