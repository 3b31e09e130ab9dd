-- ===== src/Flow/Verify.antt =====
-- The entry points of internal/flow/flow.go: the verification pass and `Run`.
pub mod Gate
use ateam.Prelude.{
  ℕ, suc, ◌+◌, Option, none, some, List, [], ◌∷◌, ◌++◌, if◌then◌else◌, Bytes, codes,
}
use ateam.Runner.Types.{Error, verify_panic, verify_error, Call, returns, panics, Fallible, ok, err}
use ateam.Flow.Types.{
  Moment, RuntimeEnv, Flow, error, is_error, Result, PromptBundle, Step, Steps, bundle, pipeline,
  parallel, nil, cons, name, StepOutcome, PipelineResult, RunCtx, Event,
}
use ateam.Flow.Bundle.{override, new_runtime, execute_bundle}
use ateam.Flow.Schedule.{Scheduler}
use ateam.Flow.Compose.{
  has_error, stage_outcome_from_pipeline, execute, run_steps, one_step, pipeline_result,
  pipeline_info, stage_log,
}

-- `VerifyError`
pub record VerifyError : Type 0 where
  pub bundle_name : Bytes
  pub err : Error

abbrev pub verify_outcome : Call (Fallible Bytes) → Option Error
verify_outcome (returns (ok _)) = none
verify_outcome (returns (err e)) = some e
verify_outcome (panics v) = some (verify_panic v)

-- `verifyBundle`; a bundle without a prompt is passed over by `Verify`.
unfoldable pub verify_bundle : Moment → PromptBundle → Option Error
verify_bundle m b = elim b.prompt [
  | none ↦ none
  | some resolve ↦ verify_outcome (resolve m (new_runtime []))
]

abbrev pub verify_errors : PromptBundle → Option Error → List VerifyError
verify_errors b none = []
verify_errors b (some e) = record { bundle_name = b.name; err = e } ∷ []

-- `Verify`: the walk of the tree, and the errors in its order.
unfoldable mutual
  pub verify : Moment → Step → List VerifyError
  verify m (bundle b) = verify_errors b (verify_bundle m b)
  verify m (pipeline n over ss) = verify_all m 0 ss
  verify m (parallel n over workers pre ss) = verify_all m 0 ss

  pub verify_all : Moment → ℕ → Steps → List VerifyError
  verify_all m i nil = []
  verify_all m i (cons s ss) = verify (i ∷ m) s ++ verify_all m (i + 1) ss

abbrev pub verify_result : VerifyError → Result
verify_result e = record {
  bundle = e.bundle_name;
  env = none;
  flow = record {
    state = error;
    reason = codes "verify failed";
    err = some (verify_error e.bundle_name e.err);
  };
  summary = none;
}

unfoldable pub verify_results : List VerifyError → List Result
verify_results [] = []
verify_results (e ∷ es) = verify_result e ∷ verify_results es

unfoldable pub failed_with_verify_errors : List VerifyError → PipelineResult
unfolding verify_results
failed_with_verify_errors es = record {
  steps = one_step (codes "verify") (verify_results es) ∷ [];
  first_error_index = some 0;
}

-- The pass over the tree comes first, so its moments have a root of their own.
abbrev pub verifying : Moment
verifying = 0 ∷ []

abbrev pub executing : Moment
executing = 1 ∷ []

-- `Pipeline.runDetailed`
unfoldable pub run_detailed :
    RunCtx
    → Scheduler
    → Moment
    → RuntimeEnv
    → Bytes
    → Option RuntimeEnv
    → Steps
    → PipelineResult × List Event
unfolding execute stage_outcome_from_pipeline
run_detailed rc sc m env n over ss =
    let si = pipeline_info n ss in
    let ran = run_steps rc sc m 0 (override over env) si ss in
    (pipeline_result ran, stage_log si ran.2 (stage_outcome_from_pipeline (pipeline_result ran)))

-- A top that is not a pipeline is the one step of its result.
abbrev pub single : Bytes → List Result × List Event → PipelineResult × List Event
single n (results, log) = (
  record {
    steps = one_step n results ∷ [];
    first_error_index = if has_error results then some 0 else none;
  },
  log,
)

unfoldable pub run_verified : RunCtx → Scheduler → RuntimeEnv → Step → PipelineResult × List Event
unfolding execute run_detailed
run_verified rc sc env (bundle b) = single b.name (execute rc sc executing env (bundle b))
run_verified rc sc env (pipeline n over ss) = run_detailed rc sc executing env n over ss
run_verified rc sc env (parallel n over workers pre ss) =
    single n (execute rc sc executing env (parallel n over workers pre ss))

abbrev pub gated : List VerifyError → PipelineResult × List Event → PipelineResult × List Event
gated [] ran = ran
gated (e ∷ es) ran = (failed_with_verify_errors (e ∷ es), [])

-- `Run`
unfoldable pub run : RunCtx → Scheduler → RuntimeEnv → Step → PipelineResult × List Event
unfolding run_verified verify failed_with_verify_errors
run rc sc env top = gated (verify verifying top) (run_verified rc sc env top)

-- `RunBundle`
unfoldable pub run_bundle : RunCtx → Moment → RuntimeEnv → PromptBundle → Result
unfolding execute_bundle
run_bundle rc m env b = (execute_bundle rc m b env).0

-- `PipelineResult.FirstError`
unfoldable pub first_leaf_error : List Result → Option Error
first_leaf_error [] = none
first_leaf_error (r ∷ rs) =
    let rest = first_leaf_error rs in
    if is_error r.flow.state then elim r.flow.err [ none ↦ rest | some e ↦ some e ] else rest

unfoldable pub first_error : List StepOutcome → Option Error
unfolding first_leaf_error
first_error [] = none
first_error (s ∷ ss) =
    let rest = first_error ss in elim (first_leaf_error s.results) [ none ↦ rest | some e ↦ some e ]
