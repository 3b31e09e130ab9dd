-- ===== src/Runtime.antt =====
-- Package internal/runtime.
pub mod Config
