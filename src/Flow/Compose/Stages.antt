-- ===== src/Flow/Compose/Stages.antt =====
-- The tallies of a stage, and the results of a parallel one.
use ateam.Prelude.{
  ℕ, suc, ◌+◌, Bool, true, false, Option, none, some, List, [], ◌∷◌, ◌≡◌, refl, sym, ◌∙◌, ap, arith,
  Bytes, length, concat, count, count_all, length-append,
}
use ateam.Prelude.Int.{ℤ}
use ateam.Flow.Types.{
  Moment, RuntimeEnv, is_continue, is_error, PreDispatch, Steps, nil, cons, bundle, pipeline,
  parallel, children, StageOutcome, RunCtx, Result, Event,
}
use ateam.Flow.Bundle.{override}
use ateam.Flow.Schedule.{Scheduler, count-emit_all}
use ateam.Flow.Compose.{
  in_state, is_skip, tally, zero_outcome, stage_outcome_from_results, execute, dispatch, gather,
  is_sequential, worker_count, refusal, skip_all, dispatch_step, Chunks,
}

tally-count :
    (so : StageOutcome) (rs : List Result)
    → ((tally so rs).succeeded ≡ so.succeeded + count (in_state is_continue) rs)
      × ((tally so rs).failed ≡ so.failed + count (in_state is_error) rs)
      × ((tally so rs).skipped ≡ so.skipped + count (in_state is_skip) rs)
unfolding tally
tally-count so [] = omega arith
tally-count so (r ∷ rs) = ground (
  arith,
  tally-count (record so { succeeded = so.succeeded + 1 }) rs,
  tally-count (record so { skipped = so.skipped + 1 }) rs,
  tally-count (record so { failed = so.failed + 1 }) rs,
)

-- The three states cover every result.
states-cover :
    (rs : List Result)
    → count (in_state is_continue) rs + count (in_state is_error) rs + count (in_state is_skip) rs
      ≡ length rs
states-cover [] = refl
states-cover (r ∷ rs) = ground (arith, states-cover rs)

-- The outcome of a parallel stage counts each result once, by its state.
pub stage_outcome_from_results-count :
    (rs : List Result)
    → let so = stage_outcome_from_results rs in
      (so.succeeded ≡ count (in_state is_continue) rs)
      × (so.failed ≡ count (in_state is_error) rs)
      × (so.succeeded + so.failed + so.skipped ≡ length rs)
unfolding stage_outcome_from_results
stage_outcome_from_results-count rs =
    omega (arith, tally-count (zero_outcome none) rs, states-cover rs)

-- The results of all steps, each executed at its index.
unfoldable pub each : RunCtx → Scheduler → Moment → ℕ → RuntimeEnv → Steps → List (List Result)
each rc sc m i env nil = []
each rc sc m i env (cons s ss) = (execute rc sc (i ∷ m) env s).0 ∷ each rc sc m (i + 1) env ss

dispatch-each :
    (rc : RunCtx) (sc : Scheduler) (m : Moment) (i : ℕ) (env : RuntimeEnv) (pre : PreDispatch)
    (ss : Steps)
    → ((k : ℕ) → refusal pre (k ∷ m) ≡ none)
    → (dispatch rc sc m i env pre ss).0 ≡ each rc sc m i env ss
unfolding execute each
dispatch-each rc sc m i env pre nil free = refl
dispatch-each rc sc m i env pre (cons s ss) free =
    rw (free i)
      (ap (◌∷◌ (execute rc sc (i ∷ m) env s).0) (dispatch-each rc sc m (i + 1) env pre ss free))

gather-count :
    (sc : Scheduler) (m : Moment) (seq : Bool) (k : ℕ) (chunks : List (List Result))
    (p : Result → Bool)
    → count p (gather sc m seq k chunks) ≡ count p (concat chunks)
gather-count sc m true k chunks p = refl
gather-count sc m false k chunks p = count-emit_all p (sc.overtaken m k) 0 chunks

-- If no call of `PreDispatch` refuses, a parallel stage executes every step, whatever the others
-- returned: in every order in which the workers append their results, as many of the stage's
-- results pass a given test as of those that the steps return, each executed at its index.
pub parallel-each :
    (rc : RunCtx) (sc : Scheduler) (m : Moment) (env : RuntimeEnv) (n : Bytes)
    (over : Option RuntimeEnv) (workers : ℤ) (pre : PreDispatch) (ss : Steps) (p : Result → Bool)
    → ((k : ℕ) → refusal pre (k ∷ m) ≡ none)
    → count p (execute rc sc m env (parallel n over workers pre ss)).0
      ≡ count p (concat (each rc sc m 0 (override over env) ss))
unfolding execute
parallel-each rc sc m env n over workers pre ss p free =
    gather-count sc m (is_sequential (override over env) ss) (worker_count workers (children ss)) _
      p
    ∙ ap (λ chunks. count p (concat chunks))
        (dispatch-each rc sc m 0 (override over env) pre ss free)

abbrev AllBundles : Steps → Type 0
AllBundles nil = Unit
AllBundles (cons (bundle b) ss) = AllBundles ss
AllBundles (cons s ss) = ⊥

skip_all-length :
    (env : RuntimeEnv) (cause : Bytes) (ss : Steps)
    → length (concat (skip_all env cause ss)) ≡ children ss
unfolding skip_all
skip_all-length env cause nil = refl
skip_all-length env cause (cons s ss) = ap suc (skip_all-length env cause ss)

dispatch_step-length :
    (o : Option Bytes) (skipped : Bytes → List (List Result)) (executed : List Result × List Event)
    (later : Chunks) (n : ℕ)
    → ((cause : Bytes) → length (concat (skipped cause)) ≡ suc n)
    → length executed.0 ≡ 1
    → length (concat later.0) ≡ n
    → length (concat (dispatch_step o skipped executed later).0) ≡ suc n
dispatch_step-length (some cause) skipped executed later n hs h hl = hs cause
dispatch_step-length none skipped executed later n hs h hl =
    omega (arith, length-append executed.0 (concat later.0))

dispatch-length :
    (rc : RunCtx) (sc : Scheduler) (m : Moment) (i : ℕ) (env : RuntimeEnv) (pre : PreDispatch)
    (ss : Steps)
    → AllBundles ss
    → length (concat (dispatch rc sc m i env pre ss).0) ≡ children ss
unfolding execute
dispatch-length rc sc m i env pre nil h = refl
dispatch-length rc sc m i env pre (cons (bundle b) ss) h =
    dispatch_step-length (refusal pre (i ∷ m)) _ (execute rc sc (i ∷ m) env (bundle b))
      (dispatch rc sc m (i + 1) env pre ss) (children ss)
      (λ cause. skip_all-length env cause (cons (bundle b) ss)) refl
      (dispatch-length rc sc m (i + 1) env pre ss h)
dispatch-length rc sc m i env pre (cons (pipeline n over rest) ss) h = absurd h
dispatch-length rc sc m i env pre (cons (parallel n over w p rest) ss) h = absurd h

-- A parallel stage of bundles returns one result for each of them, also when `PreDispatch` stops
-- the dispatch on the way, in a dry run, and after panics.
pub parallel-length :
    (rc : RunCtx) (sc : Scheduler) (m : Moment) (env : RuntimeEnv) (n : Bytes)
    (over : Option RuntimeEnv) (workers : ℤ) (pre : PreDispatch) (ss : Steps)
    → AllBundles ss
    → length (execute rc sc m env (parallel n over workers pre ss)).0 ≡ children ss
unfolding execute
parallel-length rc sc m env n over workers pre ss h =
    sym (
      count_all (
        gather sc m (is_sequential (override over env) ss) (worker_count workers (children ss))
          (dispatch rc sc m 0 (override over env) pre ss).0))
    ∙ gather-count sc m (is_sequential (override over env) ss) (worker_count workers (children ss))
        (dispatch rc sc m 0 (override over env) pre ss).0 (λ _. true)
    ∙ count_all (concat (dispatch rc sc m 0 (override over env) pre ss).0)
    ∙ dispatch-length rc sc m 0 (override over env) pre ss h
