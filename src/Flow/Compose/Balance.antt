-- ===== src/Flow/Compose/Balance.antt =====
-- What the log of a whole tree of steps holds, whatever the scheduler does.
use ateam.Prelude.{
  ℕ, ◌+◌, Bool, true, false, Option, none, some, List, [], ◌∷◌, ◌++◌, ◌≡◌, refl, sym, ◌∙◌, arith,
  Bytes, count, count-append, concat,
}
use ateam.Flow.Types.{
  Moment, RuntimeEnv, PromptBundle, PreDispatch, Step, Steps, bundle, pipeline, parallel, nil, cons,
  StageInfo, StageOutcome, Event, stage_start, stage_end, step_skipped, bundle_start, bundle_end,
  RunCtx, name, children, Result, StepOutcome,
}
use ateam.Flow.Bundle.{override, execute_bundle}
use ateam.Flow.Schedule.{Scheduler, count-weave_all}
use ateam.Flow.Compose.{
  refusal, pipeline_info, skip_steps, execute, run_steps, dispatch, gather_logs, is_sequential,
  after_step, dispatch_step, Chunks, Ran, worker_count,
}

-- Every environment that a step brings along satisfies a predicate.
abbrev pub Brings : (RuntimeEnv → Type 0) → Option RuntimeEnv → Type 0
Brings Ok none = Unit
Brings Ok (some e) = Ok e

abbrev mutual
  pub Within : (RuntimeEnv → Type 0) → Step → Type 0
  Within Ok (bundle b) = Brings Ok b.env
  Within Ok (pipeline n over ss) = Brings Ok over × WithinAll Ok ss
  Within Ok (parallel n over workers pre ss) = Brings Ok over × WithinAll Ok ss

  pub WithinAll : (RuntimeEnv → Type 0) → Steps → Type 0
  WithinAll Ok nil = Unit
  WithinAll Ok (cons s ss) = Within Ok s × WithinAll Ok ss

override-Ok :
    (Ok : RuntimeEnv → Type 0) (over : Option RuntimeEnv) (env : RuntimeEnv)
    → Brings Ok over
    → Ok env
    → Ok (override over env)
override-Ok Ok none env h k = k
override-Ok Ok (some e) env h k = h

-- How often two kinds of events occur: equally often in every bundle, and equally often in what a
-- stage adds.
pub record Pair (rc : RunCtx) (Ok : RuntimeEnv → Type 0) (p q : Event → Bool) : Type 0 where
  pub in_bundle :
      (m : Moment) (b : PromptBundle) (env : RuntimeEnv)
      → Ok (override b.env env)
      → count p (execute_bundle rc m b env).1 ≡ count q (execute_bundle rc m b env).1
  pub in_stage :
      (si : StageInfo) (so : StageOutcome)
      → count p (stage_start si ∷ stage_end si so ∷ [])
        ≡ count q (stage_start si ∷ stage_end si so ∷ [])
  pub in_skip :
      (si : StageInfo) (n why : Bytes)
      → count p (step_skipped si n why ∷ []) ≡ count q (step_skipped si n why ∷ [])

module _ (rc : RunCtx) (Ok : RuntimeEnv → Type 0) (p q : Event → Bool) (pair : Pair rc Ok p q)
    (sc : Scheduler) where
  skip_steps-pair :
      (si : StageInfo) (ss : Steps) → count p (skip_steps si ss).1 ≡ count q (skip_steps si ss).1
  unfolding skip_steps
  skip_steps-pair si nil = refl
  skip_steps-pair si (cons s ss) = omega (arith, skip_steps-pair si ss, pair.in_skip si (name s) _)

  stage-pair :
      (si : StageInfo) (so : StageOutcome) (log : List Event)
      → count p log ≡ count q log
      → count p (stage_start si ∷ (log ++ stage_end si so ∷ []))
        ≡ count q (stage_start si ∷ (log ++ stage_end si so ∷ []))
  stage-pair si so log h = omega (
    arith,
    pair.in_stage si so,
    count-append p log (stage_end si so ∷ []),
    count-append q log (stage_end si so ∷ []),
  )

  gather_logs-pair :
      (m : Moment) (seq : Bool) (k : ℕ) (logs : List (List Event))
      → count p (concat logs) ≡ count q (concat logs)
      → count p (gather_logs sc m seq k logs) ≡ count q (gather_logs sc m seq k logs)
  gather_logs-pair m true k logs h = h
  gather_logs-pair m false k logs h =
      count-weave_all p (sc.turns m k) 0 logs ∙ h ∙ sym (count-weave_all q (sc.turns m k) 0 logs)

  after_step-pair :
      (si : StageInfo) (n : Bytes) (results : List Result) (log : List Event)
      (skipped : List StepOutcome × List Event) (later : Ran)
      → count p log ≡ count q log
      → count p skipped.1 ≡ count q skipped.1
      → count p later.2 ≡ count q later.2
      → count p (after_step si n results log skipped later).2
        ≡ count q (after_step si n results log skipped later).2
  after_step-pair si n results log skipped later h hs hl = ground (
    arith,
    count-append p log skipped.1,
    count-append q log skipped.1,
    count-append p log later.2,
    count-append q log later.2,
  )

  dispatch_step-pair :
      (o : Option Bytes) (skipped : Bytes → List (List Result))
      (executed : List Result × List Event) (later : Chunks)
      → count p executed.1 ≡ count q executed.1
      → count p (concat later.1) ≡ count q (concat later.1)
      → count p (concat (dispatch_step o skipped executed later).1)
        ≡ count q (concat (dispatch_step o skipped executed later).1)
  dispatch_step-pair (some cause) skipped executed later h hl = refl
  dispatch_step-pair none skipped executed later h hl = omega (
    arith,
    count-append p executed.1 (concat later.1),
    count-append q executed.1 (concat later.1),
  )

  mutual
    unfolding execute

    pub execute-pair :
        (m : Moment) (env : RuntimeEnv) (s : Step)
        → Within Ok s
        → Ok env
        → count p (execute rc sc m env s).1 ≡ count q (execute rc sc m env s).1
    execute-pair m env (bundle b) w k = pair.in_bundle m b env (override-Ok Ok b.env env w k)
    execute-pair m env (pipeline n over ss) w k = stage-pair _ _ _ (
        run_steps-pair m 0 (override over env) (pipeline_info n ss) ss w.1
          (override-Ok Ok over env w.0 k))
    execute-pair m env (parallel n over workers pre ss) w k = stage-pair _ _ _ (
        gather_logs-pair m (is_sequential (override over env) ss)
          (worker_count workers (children ss)) (dispatch rc sc m 0 (override over env) pre ss).1
          (dispatch-pair m 0 (override over env) pre ss w.1 (override-Ok Ok over env w.0 k)))

    run_steps-pair :
        (m : Moment) (i : ℕ) (env : RuntimeEnv) (si : StageInfo) (ss : Steps)
        → WithinAll Ok ss
        → Ok env
        → count p (run_steps rc sc m i env si ss).2 ≡ count q (run_steps rc sc m i env si ss).2
    run_steps-pair m i env si nil w k = refl
    run_steps-pair m i env si (cons s ss) w k =
        after_step-pair si (name s) (execute rc sc (i ∷ m) env s).0 (execute rc sc (i ∷ m) env s).1
          (skip_steps si ss) (run_steps rc sc m (i + 1) env si ss)
          (execute-pair (i ∷ m) env s w.0 k) (skip_steps-pair si ss)
          (run_steps-pair m (i + 1) env si ss w.1 k)

    dispatch-pair :
        (m : Moment) (i : ℕ) (env : RuntimeEnv) (pre : PreDispatch) (ss : Steps)
        → WithinAll Ok ss
        → Ok env
        → count p (concat (dispatch rc sc m i env pre ss).1)
          ≡ count q (concat (dispatch rc sc m i env pre ss).1)
    dispatch-pair m i env pre nil w k = refl
    dispatch-pair m i env pre (cons s ss) w k =
        dispatch_step-pair (refusal pre (i ∷ m)) _ (execute rc sc (i ∷ m) env s)
          (dispatch rc sc m (i + 1) env pre ss) (execute-pair (i ∷ m) env s w.0 k)
          (dispatch-pair m (i + 1) env pre ss w.1 k)

abbrev pub is_bundle_start : Event → Bool
is_bundle_start (bundle_start _) = true
is_bundle_start _ = false

abbrev pub is_bundle_end : Event → Bool
is_bundle_end (bundle_end _ _) = true
is_bundle_end _ = false

abbrev pub is_stage_start : Event → Bool
is_stage_start (stage_start _) = true
is_stage_start _ = false

abbrev pub is_stage_end : Event → Bool
is_stage_end (stage_end _ _) = true
is_stage_end _ = false

abbrev AnyEnv : RuntimeEnv → Type 0
AnyEnv env = Unit

Brings-any : (over : Option RuntimeEnv) → Brings AnyEnv over
Brings-any none = tt
Brings-any (some e) = tt

mutual
  Within-any : (s : Step) → Within AnyEnv s
  Within-any (bundle b) = Brings-any b.env
  Within-any (pipeline n over ss) = (Brings-any over, WithinAll-any ss)
  Within-any (parallel n over workers pre ss) = (Brings-any over, WithinAll-any ss)

  WithinAll-any : (ss : Steps) → WithinAll AnyEnv ss
  WithinAll-any nil = tt
  WithinAll-any (cons s ss) = (Within-any s, WithinAll-any ss)
