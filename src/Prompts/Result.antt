-- ===== src/Prompts/Result.antt =====
-- The errors of internal/prompts/assembler, and the chain of its fallible calls.
use ateam.Prelude.{ℕ, Bytes, List}

pub data PromptError : Type 0 where
  -- `read %s in anchor %s: %w`, `glob %v in anchor %s: %w`
  read_failed : Bytes → Bytes → Bytes → PromptError
  glob_failed : List Bytes → Bytes → Bytes → PromptError
  -- `empty prompt path`, `no role main at %s in any anchor`, and a wrapped error with its place
  empty_name : PromptError
  no_role_main : Bytes → PromptError
  while_doing : Bytes → PromptError → PromptError
  -- `include depth exceeded %d`
  depth_exceeded : ℕ → PromptError
  -- `{{include %s}}: no assembler configured`
  no_assembler : Bytes → PromptError
  -- `unterminated quote (%c)` in a directive
  bad_quote : Bytes → ℕ → PromptError
  empty_path : PromptError
  extra_args : Bytes → ℕ → PromptError
  not_found : Bytes → PromptError
  -- The errors of `Vars.Resolve` and of `Dispatcher.Dispatch`
  var_failed : Bytes → PromptError
  dispatch_failed : Bytes → PromptError
  -- `{{include_glob %s}}: rendering %s from %s: %w`
  rendering : Bytes → Bytes → Bytes → PromptError → PromptError
  -- The errors of `ParseFrontmatter`: no closing `---`; a line, by its number, that is no
  -- `key: value`; a key with what should be a bool; an unknown key.
  not_closed : PromptError
  no_key_value : ℕ → Bytes → PromptError
  bad_bool : Bytes → Bytes → PromptError
  unknown_key : Bytes → PromptError
  -- `frontmatter %s: %w`, `rendering %s: %w`, `glob dir pre %q: %w` and its like
  in_frontmatter : Bytes → PromptError → PromptError
  rendering_file : Bytes → PromptError → PromptError
  globbing : Bytes → Bytes → PromptError → PromptError
  -- `walk anchor %s: %w`
  walk_failed : Bytes → Bytes → PromptError
  -- A role's main text that is empty behind the rendering: the override, or a file.
  empty_override : PromptError
  empty_main : Bytes → Bytes → PromptError

pub data Result {ℓ} (A : Type ℓ) : Type ℓ where
  ok : A → Result A
  err : PromptError → Result A

infixl 5 ◌>>=◌
abbrev pub ◌>>=◌ {ℓ κ} : {A : Type ℓ} {B : Type κ} → Result A → (A → Result B) → Result B
ok a >>= f = f a
err e >>= f = err e

-- `fmt.Errorf` with `%w`
abbrev pub wrap {ℓ} : {A : Type ℓ} → (PromptError → PromptError) → Result A → Result A
wrap w (ok a) = ok a
wrap w (err e) = err (w e)
