-- ===== src/Runner/Types.antt =====
-- internal/runner/runner.go and template.go: what a run is asked for, what was allocated for it,
-- and how it ended; the fields that package flow and the pool read. Times are left out.
use ateam.Prelude.{ℕ, Bool, Option, Bytes, codes, [], ◌++◌, not, eq, is_empty, if◌then◌else◌}
use ateam.Prelude.Int.{ℤ}

pub record RunOpts : Type 0 where
  pub role_id : Bytes
  pub action : Bytes
  pub work_dir : Bytes
  pub batch : Bytes
  pub output_kind : Bytes
  pub prompt_name : Bytes
  pub auto_roles_commands_output : Bytes
  pub sub_run_args : Bytes
  pub debug_context : Bytes

-- The error values that the two packages make or pass on.
pub data Error : Type 0 where
  -- An error of another package, by its message.
  external : Bytes → Error
  -- `errBundleHasNoPrompt`
  no_prompt : Error
  -- `panic in step %q: %v`
  panic_in_step : Bytes → Bytes → Error
  -- `panic: %v`
  panicked : Bytes → Error
  -- `panic during verify: %v`
  verify_panic : Bytes → Error
  -- `VerifyError`: the bundle's name and what its prompt failed with.
  verify_error : Bytes → Error → Error

pub record PreparedRun : Type 0 where
  pub exec_id : ℕ
  pub runtime_dir : Bytes
  pub prompt_file : Bytes
  pub started_at : Bytes
  pub agent_name : Bytes
  pub model : Bytes
  pub prompt_bytes : ℕ

pub record RunSummary : Type 0 where
  pub role_id : Bytes
  pub exit_code : ℤ
  pub output : Bytes
  pub is_error : Bool
  pub error_source : Bytes
  pub error_cause : Bytes
  pub err : Option Error

-- A call through an interface or a function value: it returns, or it panics with a value.
pub data Call {ℓ} (A : Type ℓ) : Type ℓ where
  returns : A → Call A
  panics : Bytes → Call A

pub data Fallible {ℓ} (A : Type ℓ) : Type ℓ where
  ok : A → Fallible A
  err : Error → Fallible A

unfoldable pub primary_output_name : Bytes → Bytes → Bytes
primary_output_name kind prompt_name =
    if eq kind (codes "report")
    then (if not (is_empty prompt_name) then prompt_name ++ codes ".md" else codes "report.md")
    else if eq kind (codes "review")
    then codes "review.md"
    else if eq kind (codes "verify")
    then codes "verify.md"
    else if eq kind (codes "execution_report")
    then codes "execution_report.md"
    else if eq kind (codes "setup_overview")
    then codes "setup_overview.md"
    else if eq kind (codes "auto_roles")
    then codes "auto_roles.md"
    else []
