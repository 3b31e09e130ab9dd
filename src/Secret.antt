-- ===== src/Secret.antt =====
-- Package internal/secret: where secrets are kept, how a name is resolved, and how an agent's
-- environment is prepared.
pub mod Store
pub mod Resolve
pub mod Validate
