-- ===== src/Flow/Types.antt =====
-- The carriers of internal/flow/flow.go, reporter.go and runtime.go.
use ateam.Prelude.{
  ℕ, suc, ◌≡◌, refl, ◌⊎◌, inl, inr, Bool, true, false, Option, List, Bytes, is_empty, if◌then◌else◌,
}
use ateam.Prelude.Int.{ℤ}
use ateam.Runner.Types.{Error, RunOpts, PreparedRun, RunSummary, Call, Fallible}

-- Where in the tree of steps, and at which index, a function supplied from outside is called. Such
-- a function is given its moment, so that two calls with equal arguments may differ, and every
-- history of answers is one such function, whatever order the goroutines ran in.
abbrev pub Moment : Type 0
Moment = List ℕ

-- `runner.RunProgress`, which flow only passes on.
abbrev pub RunProgress : Type 0
RunProgress = Bytes

pub data FlowState : Type 0 where
  continue skip error : FlowState

pub record Flow : Type 0 where
  pub state : FlowState
  pub reason : Bytes
  pub err : Option Error

abbrev pub is_continue : FlowState → Bool
is_continue continue = true
is_continue _ = false

abbrev pub is_error : FlowState → Bool
is_error error = true
is_error _ = false

pub is_error-true : (s : FlowState) → is_error s ≡ true → s ≡ error
is_error-true continue h = cc
is_error-true skip h = cc
is_error-true error h = refl

pub is_error-false : (s : FlowState) → is_error s ≡ false → (s ≡ continue) ⊎ (s ≡ skip)
is_error-false continue h = inl refl
is_error-false skip h = inr refl
is_error-false error h = cc

-- `Executor`: the progress events of a run come with its summary.
pub record Executor : Type 0 where
  pub prepare : Moment → RunOpts → Call (Fallible PreparedRun)
  pub execute_prepared : Moment → PreparedRun → Bytes → List RunProgress × Call RunSummary

pub record RuntimeEnv : Type 0 where
  pub executor : Executor
  pub work_dir : Bytes
  pub role : Bytes
  pub action : Bytes
  pub dry_run : Bool
  pub batch : Bytes
  pub prompt_dir : Bytes

abbrev pub or_else : Bytes → Bytes → Bytes
or_else given fallback = if is_empty given then fallback else given

unfoldable pub with_bundle_overrides : RuntimeEnv → Bytes → Bytes → RuntimeEnv
with_bundle_overrides e role action = record e {
  role = or_else role e.role;
  action = or_else action e.action;
}

-- `Result`; its bundle is identified by name.
pub record Result : Type 0 where
  pub bundle : Bytes
  pub env : Option RuntimeEnv
  pub flow : Flow
  pub summary : Option RunSummary

-- `Action`: the type's name, and `Run`. The answer of `Run` is all that is seen of it: what it
-- calls by its `RunCtx`, of the reporter or of the database, is not in the log of a run.
pub record Action : Type 0 where
  pub type_name : Bytes
  pub run : Moment → RuntimeEnv → Option Result → Call Flow

pub data Mode : Type 0 where
  preview real : Mode

-- The scalars of `Runtime` that a prompt is resolved against. What a bundle adds by `SetVars` and
-- `SetDynamics` is part of its resolving function.
pub record Runtime : Type 0 where
  pub mode : Mode
  pub work_dir : Bytes
  pub exec_id : ℕ
  pub batch : Bytes
  pub output_dir : Bytes
  pub output_file : Bytes
  pub prompt_file : Bytes
  pub timestamp : Bytes
  pub agent : Bytes
  pub model : Bytes
  pub sub_run_args : Bytes
  pub debug_context : Bytes
  pub auto_roles_commands_output : Bytes

abbrev pub Resolve : Type 0
Resolve = Moment → Runtime → Call (Fallible Bytes)

pub record PromptBundle : Type 0 where
  pub name : Bytes
  pub role : Bytes
  pub action : Bytes
  pub env : Option RuntimeEnv
  pub prompt : Option Resolve
  pub run_opts : Option (RuntimeEnv → Call RunOpts)
  pub pre_exec : List Action
  pub post_exec : List Action

-- `Parallel.PreDispatch`, as a function that returns: an error is its message. One that panics is
-- not modelled; its panic would leave the stage without a `StageEnd`, and a parallel stage around it
-- would recover it.
abbrev pub PreDispatch : Type 0
PreDispatch = Option (Moment → Option Bytes)

-- `Step`, with the slice of child steps as a type of its own.
mutual
  pub data Step : Type 0 where
    bundle : PromptBundle → Step
    pipeline : Bytes → Option RuntimeEnv → Steps → Step
    parallel : Bytes → Option RuntimeEnv → ℤ → PreDispatch → Steps → Step

  pub data Steps : Type 0 where
    nil : Steps
    cons : Step → Steps → Steps

unfoldable pub name : Step → Bytes
name (bundle b) = b.name
name (pipeline n env steps) = n
name (parallel n env workers pre steps) = n

abbrev pub children : Steps → ℕ
children nil = 0
children (cons s ss) = suc (children ss)

pub data StageKind : Type 0 where
  pipeline_stage parallel_stage : StageKind

pub record StageInfo : Type 0 where
  pub kind : StageKind
  pub name : Bytes
  pub children : ℕ

-- None for a `FirstErrorIndex` of -1.
pub record StageOutcome : Type 0 where
  pub succeeded : ℕ
  pub failed : ℕ
  pub skipped : ℕ
  pub first_error_index : Option ℕ

pub record StepOutcome : Type 0 where
  pub name : Bytes
  pub results : List Result
  pub skipped : Bool
  pub reason : Bytes

pub record PipelineResult : Type 0 where
  pub steps : List StepOutcome
  pub first_error_index : Option ℕ

pub record BundleInfo : Type 0 where
  pub name : Bytes
  pub role : Bytes
  pub action : Bytes
  pub work_dir : Bytes
  pub batch : Bytes

pub data ActionPhase : Type 0 where
  pre_exec post_exec : ActionPhase

-- The calls that flow itself makes: of the reporter, with durations left out, of the executor, and
-- of the call database.
pub data Event : Type 0 where
  stage_start : StageInfo → Event
  stage_end : StageInfo → StageOutcome → Event
  step_skipped : StageInfo → Bytes → Bytes → Event
  bundle_start : BundleInfo → Event
  bundle_end : BundleInfo → Result → Event
  agent_event : BundleInfo → RunProgress → Event
  action_start : BundleInfo → ActionPhase → Bytes → ℕ → Event
  action_end : BundleInfo → ActionPhase → Bytes → ℕ → Flow → Event
  agent_exec_start : BundleInfo → PreparedRun → Event
  agent_exec_end : BundleInfo → RunSummary → Event
  prepare_called : RunOpts → Event
  execute_called : PreparedRun → Bytes → Event
  mark_exec_failed : ℕ → Error → Event

-- What stays the same for all steps: whether there is a call database, and the text of
-- `debug.Stack()` at a recovered panic.
pub record RunCtx : Type 0 where
  pub has_db : Bool
  pub stack : Bytes
