-- ===== src/Tests.antt =====
-- Runs of the model on small inputs, one for each theorem with conditions.
pub mod Flows
pub mod Pools
pub mod Secrets
pub mod Projects
pub mod FileNames
pub mod Templates
pub mod Runtimes
pub mod Terminals
pub mod Tails
pub mod Arguments
