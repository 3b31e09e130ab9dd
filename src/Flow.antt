-- ===== src/Flow.antt =====
-- Package internal/flow: the composition framework. A step is a bundle (one agent run with hooks
-- around it), a pipeline or a parallel stage.
pub mod Types
pub mod Trace
pub mod Schedule
pub mod Bundle
pub mod Compose
pub mod Verify
