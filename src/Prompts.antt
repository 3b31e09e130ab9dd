-- ===== src/Prompts.antt =====
-- Package internal/prompts.
pub mod Result
pub mod Assembler
pub mod Parser
pub mod Orphan
pub mod Template
pub mod Frontmatter
pub mod Assemble
