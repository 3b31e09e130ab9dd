-- ===== src/Prompts/Template.antt =====
-- internal/prompts/assembler/template.go: the engine that expands `{{...}}` in a prompt.
pub mod Scan
pub mod Tokens
pub mod Quote
pub mod Render
