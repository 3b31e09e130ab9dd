-- ===== src/Flow/Verify/Gate.antt =====
-- What `Run` promises: nothing starts before every prompt has resolved, and an index means an error.
use ateam.Prelude.{
  ℕ, zero, suc, ◌+◌, Bool-cases, inl, inr, Option, none, some, List, [], ◌∷◌, ◌++◌, ◌≡◌, refl,
  Bytes, Member, first, later, Member-append,
}
use ateam.Prelude.Int.{ℤ}
use ateam.Runner.Types.{Error}
use ateam.Flow.Types.{
  Moment, RuntimeEnv, Result, PromptBundle, Step, Steps, bundle, pipeline, parallel, nil, cons,
  StepOutcome, PipelineResult, RunCtx, Event, StageInfo, PreDispatch, name,
}
use ateam.Flow.Bundle.{override}
use ateam.Flow.Schedule.{Scheduler}
use ateam.Flow.Compose.Pipelines.{AnyError, NoError, has_error-AnyError, has_error-NoError}
use ateam.Flow.Compose.{
  has_error, execute, run_steps, pipeline_result, pipeline_info, after_step, skip_steps, Ran, shift,
  one_step,
}
use ateam.Flow.Verify.{
  VerifyError, verify, verify_all, verify_bundle, verify_errors, verify_result, verify_results,
  executing, run, run_verified, run_detailed, gated, single, failed_with_verify_errors, verifying,
}

-- A bundle of a step, with the moment at which it is visited.
mutual
  pub data Reaches (b : PromptBundle) (at : Moment) : Moment → Step → Type 0 where
    here : Reaches b at at (bundle b)
    in_pipeline :
        {m : Moment} {n : Bytes} {over : Option RuntimeEnv} {ss : Steps}
        → ReachesAny b at m 0 ss
        → Reaches b at m (pipeline n over ss)
    in_parallel :
        {m : Moment} {n : Bytes} {over : Option RuntimeEnv} {w : ℤ} {pre : PreDispatch} {ss : Steps}
        → ReachesAny b at m 0 ss
        → Reaches b at m (parallel n over w pre ss)

  pub data ReachesAny (b : PromptBundle) (at : Moment) : Moment → ℕ → Steps → Type 0 where
    this :
        {m : Moment} {i : ℕ} {s : Step} {ss : Steps}
        → Reaches b at (i ∷ m) s
        → ReachesAny b at m i (cons s ss)
    other :
        {m : Moment} {i : ℕ} {s : Step} {ss : Steps}
        → ReachesAny b at m (i + 1) ss
        → ReachesAny b at m i (cons s ss)

Member-append_left : {A : Type 0} {a : A} (xs ys : List A) → Member a xs → Member a (xs ++ ys)
Member-append_left [] ys h = elim h [ ]
Member-append_left (x ∷ xs) ys (first e) = first e
Member-append_left (x ∷ xs) ys (later h) = later (Member-append_left xs ys h)

verify_bundle-Member :
    (b : PromptBundle) (m : Moment) (e : Error)
    → verify_bundle m b ≡ some e
    → Member (record { bundle_name = b.name; err = e }) (verify_errors b (verify_bundle m b))
verify_bundle-Member b m e h = rw h (first refl)

mutual
  unfolding verify

  verify-finds :
      (b : PromptBundle) (at m : Moment) (s : Step) (e : Error)
      → Reaches b at m s
      → verify_bundle at b ≡ some e
      → Member (record { bundle_name = b.name; err = e }) (verify m s)
  verify-finds b at m (bundle c) e here h = verify_bundle-Member b at e h
  verify-finds b at m (pipeline n over ss) e (in_pipeline r) h = verify_all-finds b at m 0 ss e r h
  verify-finds b at m (parallel n over w pre ss) e (in_parallel r) h =
      verify_all-finds b at m 0 ss e r h

  verify_all-finds :
      (b : PromptBundle) (at m : Moment) (i : ℕ) (ss : Steps) (e : Error)
      → ReachesAny b at m i ss
      → verify_bundle at b ≡ some e
      → Member (record { bundle_name = b.name; err = e }) (verify_all m i ss)
  verify_all-finds b at m i nil e r h = elim r [ ]
  verify_all-finds b at m i (cons s ss) e (this r) h =
      Member-append_left (verify (i ∷ m) s) (verify_all m (i + 1) ss)
        (verify-finds b at (i ∷ m) s e r h)
  verify_all-finds b at m i (cons s ss) e (other r) h =
      Member-append (verify (i ∷ m) s) (verify_all m (i + 1) ss)
        (verify_all-finds b at m (i + 1) ss e r h)

-- An index is that of the first step with a result in the error state; without an index no result
-- of any step is.
abbrev pub Points : Option ℕ → List StepOutcome → Type 0
Points none [] = Unit
Points none (o ∷ os) = NoError o.results × Points none os
Points (some k) [] = ⊥
Points (some zero) (o ∷ os) = AnyError o.results
Points (some (suc k)) (o ∷ os) = NoError o.results × Points (some k) os

abbrev Honest : PipelineResult → Type 0
Honest pr = Points pr.first_error_index pr.steps

Points-shift :
    (index : Option ℕ) (o : StepOutcome) (os : List StepOutcome)
    → NoError o.results
    → Points index os
    → Points (shift index) (o ∷ os)
Points-shift none o os h t = (h, t)
Points-shift (some k) o os h t = (h, t)

after_step-Honest :
    (si : StageInfo) (n : Bytes) (results : List Result) (log : List Event)
    (skipped : List StepOutcome × List Event) (rest : Ran)
    → Honest (pipeline_result rest)
    → Honest (pipeline_result (after_step si n results log skipped rest))
after_step-Honest si n results log skipped rest h = elim (Bool-cases (has_error results)) [
  | inl bad ↦ rw bad (has_error-AnyError results bad)
  | inr well ↦
      rw well (Points-shift rest.1 (one_step n results) rest.0 (has_error-NoError results well) h)
]

run_steps-Honest :
    (rc : RunCtx) (sc : Scheduler) (m : Moment) (i : ℕ) (env : RuntimeEnv) (si : StageInfo)
    (ss : Steps)
    → Honest (pipeline_result (run_steps rc sc m i env si ss))
unfolding execute
run_steps-Honest rc sc m i env si nil = tt
run_steps-Honest rc sc m i env si (cons s ss) =
    after_step-Honest si (name s) (execute rc sc (i ∷ m) env s).0 (execute rc sc (i ∷ m) env s).1
      (skip_steps si ss) (run_steps rc sc m (i + 1) env si ss)
      (run_steps-Honest rc sc m (i + 1) env si ss)

single-Honest : (n : Bytes) (ran : List Result × List Event) → Honest (single n ran).0
single-Honest n (results, log) = elim (Bool-cases (has_error results)) [
  | inl bad ↦ rw bad (has_error-AnyError results bad)
  | inr well ↦ rw well (has_error-NoError results well, tt)
]

run_verified-Honest :
    (rc : RunCtx) (sc : Scheduler) (env : RuntimeEnv) (top : Step)
    → Honest (run_verified rc sc env top).0
unfolding run_verified run_detailed
run_verified-Honest rc sc env (bundle b) =
    single-Honest b.name (execute rc sc executing env (bundle b))
run_verified-Honest rc sc env (pipeline n over ss) =
    run_steps-Honest rc sc executing 0 (override over env) (pipeline_info n ss) ss
run_verified-Honest rc sc env (parallel n over w pre ss) =
    single-Honest n (execute rc sc executing env (parallel n over w pre ss))

gated-Honest :
    (es : List VerifyError) (ran : PipelineResult × List Event)
    → Honest ran.0
    → Honest (gated es ran).0
unfolding failed_with_verify_errors verify_results
gated-Honest [] ran h = h
gated-Honest (e ∷ es) ran h = (verify_result e, first refl, refl)

-- The result of `Run` has a `FirstErrorIndex` exactly if some result of a step is in the error
-- state, be it of the verification pass, of a pipeline, of a parallel stage or of a single bundle;
-- and then it is the index of the first step that has such a result.
pub run_index :
    (rc : RunCtx) (sc : Scheduler) (env : RuntimeEnv) (top : Step)
    → let pr = (run rc sc env top).0 in Points pr.first_error_index pr.steps
unfolding run
run_index rc sc env top =
    gated-Honest (verify verifying top) (run_verified rc sc env top)
      (run_verified-Honest rc sc env top)
