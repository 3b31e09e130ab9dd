-- ===== src/Flow/Compose/DryRun.antt =====
-- A dry run of a whole tree of steps.
use ateam.Prelude.{
  true, false, List, [], ◌∷◌, ◌++◌, ◌≡◌, refl, sym, ◌∙◌, arith, any, count, count-append,
  count_none, Bool-cases, inl, inr,
}
use ateam.Flow.Types.{
  Moment, RuntimeEnv, PromptBundle, Step, Event, RunCtx, Result, BundleInfo, with_bundle_overrides,
  bundle_start, bundle_end,
}
use ateam.Flow.Bundle.{override, execute_bundle, bundle_body, bundle_env, bundle_info}
use ateam.Flow.Bundle.Trails.{is_effect}
use ateam.Flow.Bundle.Order.{never}
use ateam.Flow.Bundle.Outcome.{effect-AllContinue}
use ateam.Flow.Schedule.{Scheduler}
use ateam.Flow.Compose.{execute}
use ateam.Flow.Compose.Balance.{Within, Pair, execute-pair}

abbrev pub IsDry : RuntimeEnv → Type 0
IsDry env = env.dry_run ≡ true

count-never : (log : List Event) → count never log ≡ 0
count-never [] = refl
count-never (e ∷ log) = omega (arith, count-never log)

bundle_env-IsDry :
    (b : PromptBundle) (env : RuntimeEnv) → IsDry (override b.env env) → IsDry (bundle_env b env)
unfolding with_bundle_overrides
bundle_env-IsDry b env h = h

body-no_effect :
    (rc : RunCtx) (m : Moment) (b : PromptBundle) (bi : BundleInfo) (env : RuntimeEnv)
    → IsDry env
    → any is_effect (bundle_body rc m b bi env).1 ≡ false
body-no_effect rc m b bi env h = elim (Bool-cases (any is_effect (bundle_body rc m b bi env).1)) [
  | inl some_effect ↦ let live = (effect-AllContinue rc m b bi env some_effect).1 in cc
  | inr none ↦ none
]

framed-no_effect :
    (bi : BundleInfo) (r : Result) (inside : List Event)
    → any is_effect inside ≡ false
    → count is_effect (bundle_start bi ∷ (inside ++ bundle_end bi r ∷ [])) ≡ 0
framed-no_effect bi r inside h =
    omega
      (arith, count_none is_effect inside h, count-append is_effect inside (bundle_end bi r ∷ []))

execute_bundle-no_effect :
    (rc : RunCtx) (m : Moment) (b : PromptBundle) (env : RuntimeEnv)
    → IsDry (override b.env env)
    → count is_effect (execute_bundle rc m b env).1 ≡ 0
unfolding execute_bundle
execute_bundle-no_effect rc m b env h =
    framed-no_effect _ _
      (bundle_body rc m b (bundle_info b (bundle_env b env)) (bundle_env b env)).1
      (body-no_effect rc m b _ (bundle_env b env) (bundle_env-IsDry b env h))

effect-Pair : (rc : RunCtx) → Pair rc IsDry is_effect never
effect-Pair rc = record {
  in_bundle = λ m b env h.
      execute_bundle-no_effect rc m b env h ∙ sym (count-never (execute_bundle rc m b env).1);
  in_stage = λ si so. refl;
  in_skip = λ si n why. refl;
}

-- If the environment asks for a dry run, and so does every environment that a step of the tree
-- puts in its place, then flow itself calls no executor, neither `Prepare` nor `ExecutePrepared`,
-- and marks no run as failed in the call database, in every interleaving. What hooks, resolvers and
-- `PreDispatch` call themselves is not counted.
pub execute_dry :
    (rc : RunCtx) (sc : Scheduler) (m : Moment) (env : RuntimeEnv) (s : Step)
    → IsDry env
    → Within IsDry s
    → count is_effect (execute rc sc m env s).1 ≡ 0
execute_dry rc sc m env s h w =
    execute-pair rc IsDry is_effect never (effect-Pair rc) sc m env s w h
    ∙ count-never (execute rc sc m env s).1
