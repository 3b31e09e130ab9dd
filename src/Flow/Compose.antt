-- ===== src/Flow/Compose.antt =====
-- Pipelines and parallel stages of internal/flow/flow.go: `Pipeline.runDetailed`,
-- `Parallel.execute` and the tallies.
pub mod Balance
pub mod DryRun
pub mod Pipelines
pub mod Stages
use ateam.Prelude.{
  ℕ, zero, suc, ◌+◌, Bool, true, false, ◌&&◌, ◌||◌, Option, none, some, List, [], ◌∷◌, ◌++◌,
  if◌then◌else◌, Bytes, codes, concat, length, leb, count, ◌≡◌,
}
use ateam.Prelude.Int.{ℤ, pos, negsuc}
use ateam.Flow.Types.{
  Moment, Flow, FlowState, continue, skip, error, is_error, is_continue, RuntimeEnv, Result,
  PromptBundle, PreDispatch, Step, Steps, bundle, pipeline, parallel, nil, cons, name, children,
  StageInfo, StageOutcome, pipeline_stage, parallel_stage, StepOutcome, PipelineResult, Event,
  stage_start, stage_end, step_skipped, RunCtx,
}
use ateam.Flow.Schedule.{Scheduler, emit_all, weave_all}
use ateam.Flow.Bundle.{override, execute_bundle}

abbrev pub in_state : (FlowState → Bool) → Result → Bool
in_state p r = p r.flow.state

abbrev pub is_skip : FlowState → Bool
is_skip skip = true
is_skip _ = false

unfoldable pub has_error : List Result → Bool
has_error [] = false
has_error (r ∷ rs) = if is_error r.flow.state then true else has_error rs

-- `tallyResults`
unfoldable pub tally : StageOutcome → List Result → StageOutcome
tally so [] = so
tally so (r ∷ rs) = tally (add r.flow.state) rs
  where
    add : FlowState → StageOutcome
    add continue = record so { succeeded = so.succeeded + 1 }
    add skip = record so { skipped = so.skipped + 1 }
    add error = record so { failed = so.failed + 1 }

abbrev pub zero_outcome : Option ℕ → StageOutcome
zero_outcome first = record { succeeded = 0; failed = 0; skipped = 0; first_error_index = first }

unfoldable pub tally_steps : StageOutcome → List StepOutcome → StageOutcome
unfolding tally
tally_steps so [] = so
tally_steps so (s ∷ ss) =
    tally_steps (if s.skipped then record so { skipped = so.skipped + 1 } else tally so s.results)
      ss

unfoldable pub stage_outcome_from_pipeline : PipelineResult → StageOutcome
unfolding tally_steps
stage_outcome_from_pipeline pr = tally_steps (zero_outcome pr.first_error_index) pr.steps

unfoldable pub stage_outcome_from_results : List Result → StageOutcome
unfolding tally
stage_outcome_from_results rs = tally (zero_outcome none) rs

unfoldable pub skipped_dispatch_result : Step → RuntimeEnv → Bytes → Result
skipped_dispatch_result s env cause = record {
  bundle = name s;
  env = some env;
  flow = record { state = skip; reason = codes "not dispatched: " ++ cause; err = none };
  summary = none;
}

-- One chunk for every step that is not dispatched.
unfoldable pub skip_all : RuntimeEnv → Bytes → Steps → List (List Result)
unfolding skipped_dispatch_result
skip_all env cause nil = []
skip_all env cause (cons s ss) = (skipped_dispatch_result s env cause ∷ []) ∷ skip_all env cause ss

abbrev pub refusal : PreDispatch → Moment → Option Bytes
refusal none m = none
refusal (some f) m = f m

-- `workers <= 0` is `min(len(steps), 5)`.
abbrev pub worker_count : ℤ → ℕ → ℕ
worker_count (pos zero) n = if leb n 5 then n else 5
worker_count (pos (suc k)) n = suc k
worker_count (negsuc _) n = if leb n 5 then n else 5

abbrev pub one_step : Bytes → List Result → StepOutcome
one_step n results = record { name = n; results = results; skipped = false; reason = [] }

abbrev pub skipped_step : Bytes → StepOutcome
skipped_step n = record {
  name = n;
  results = [];
  skipped = true;
  reason = codes "earlier step failed";
}

abbrev pub all_results : List StepOutcome → List Result
all_results [] = []
all_results (s ∷ ss) = s.results ++ all_results ss

-- The steps behind a failed one.
unfoldable pub skip_steps : StageInfo → Steps → List StepOutcome × List Event
skip_steps si nil = ([], [])
skip_steps si (cons s ss) =
    let (outs, log) = skip_steps si ss in
    (skipped_step (name s) ∷ outs, step_skipped si (name s) (codes "earlier step failed") ∷ log)

-- `FirstErrorIndex` seen from the step before.
abbrev pub shift : Option ℕ → Option ℕ
shift none = none
shift (some i) = some (suc i)

abbrev pub Ran : Type 0
Ran = List StepOutcome × Option ℕ × List Event

abbrev pub outcomes : Ran → List StepOutcome
outcomes r = r.0

abbrev pub after_step :
    StageInfo → Bytes → List Result → List Event → (List StepOutcome × List Event) → Ran → Ran
after_step si n results log skipped later =
    if has_error results
    then (one_step n results ∷ skipped.0, some 0, log ++ skipped.1)
    else (one_step n results ∷ later.0, shift later.1, log ++ later.2)

abbrev pub pipeline_result : Ran → PipelineResult
pipeline_result r = record { steps = r.0; first_error_index = r.1 }

abbrev pub pipeline_info : Bytes → Steps → StageInfo
pipeline_info n ss = record { kind = pipeline_stage; name = n; children = children ss }

abbrev pub parallel_info : Bytes → Steps → StageInfo
parallel_info n ss = record { kind = parallel_stage; name = n; children = children ss }

abbrev pub stage_log : StageInfo → List Event → StageOutcome → List Event
stage_log si log so = stage_start si ∷ (log ++ stage_end si so ∷ [])

-- `Parallel` runs one step at a time in a dry run and when it has one step at most.
abbrev pub is_sequential : RuntimeEnv → Steps → Bool
is_sequential env ss = env.dry_run || leb (children ss) 1

-- The results: step by step, or as the workers append them.
abbrev pub gather : Scheduler → Moment → Bool → ℕ → List (List Result) → List Result
gather sc m true workers chunks = concat chunks
gather sc m false workers chunks = concat (emit_all (sc.overtaken m workers) 0 chunks)

abbrev pub gather_logs : Scheduler → Moment → Bool → ℕ → List (List Event) → List Event
gather_logs sc m true workers logs = concat logs
gather_logs sc m false workers logs = weave_all (sc.turns m workers) 0 logs

abbrev pub Chunks : Type 0
Chunks = List (List Result) × List (List Event)

-- One round of a dispatch loop: a refusal stops it, and the rest is skipped.
abbrev pub dispatch_step :
    Option Bytes → (Bytes → List (List Result)) → List Result × List Event → Chunks → Chunks
dispatch_step (some cause) skipped executed later = (skipped cause, [])
dispatch_step none skipped executed later = (executed.0 ∷ later.0, executed.1 ∷ later.1)

-- The three executions. `run_steps` is the loop of `runDetailed` from a step on, and `dispatch`
-- the dispatch loops of `runSequential` and `runConcurrently`: one chunk of results, and one log,
-- for each step, in dispatch order. A step's moment is its index behind that of its parent.
unfoldable mutual
  pub execute : RunCtx → Scheduler → Moment → RuntimeEnv → Step → List Result × List Event
  execute rc sc m env (bundle b) = let (r, log) = execute_bundle rc m b env in (r ∷ [], log)
  execute rc sc m env (pipeline n over ss) =
      let si = pipeline_info n ss in
      let ran = run_steps rc sc m 0 (override over env) si ss in
      (all_results ran.0, stage_log si ran.2 (stage_outcome_from_pipeline (pipeline_result ran)))
  execute rc sc m env (parallel n over workers pre ss) =
      let env' = override over env in
      let si = parallel_info n ss in
      let k = worker_count workers (children ss) in
      let (chunks, logs) = dispatch rc sc m 0 env' pre ss in
      let results = gather sc m (is_sequential env' ss) k chunks in
      (
        results,
        stage_log si (gather_logs sc m (is_sequential env' ss) k logs)
            (stage_outcome_from_results results),
      )

  pub run_steps : RunCtx → Scheduler → Moment → ℕ → RuntimeEnv → StageInfo → Steps → Ran
  run_steps rc sc m i env si nil = ([], none, [])
  run_steps rc sc m i env si (cons s ss) =
      let (results, log) = execute rc sc (i ∷ m) env s in
      let later = run_steps rc sc m (i + 1) env si ss in
      after_step si (name s) results log (skip_steps si ss) later

  pub dispatch :
      RunCtx
      → Scheduler
      → Moment
      → ℕ
      → RuntimeEnv
      → PreDispatch
      → Steps
      → List (List Result) × List (List Event)
  dispatch rc sc m i env pre nil = ([], [])
  dispatch rc sc m i env pre (cons s ss) =
      dispatch_step (refusal pre (i ∷ m)) (λ cause. skip_all env cause (cons s ss))
        (execute rc sc (i ∷ m) env s) (dispatch rc sc m (i + 1) env pre ss)
