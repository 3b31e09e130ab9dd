-- ===== src/Codex.antt =====
-- internal/codex/adapter.go: Codex in a terminal, watched through what its pane shows.
pub mod Pane
pub mod Idle
pub mod Output
pub mod Delivery
pub mod Ready
