-- ===== src/Runner.antt =====
-- Package internal/runner: the runs of agents.
pub mod Types
pub mod Pool
pub mod Tail
pub mod Template
