-- ===== src/Flow/Bundle/Trails.antt =====
-- What the log of a bundle holds, and when.
use ateam.Prelude.{
  ℕ, ◌+◌, Bool, true, false, not, none, some, List, [], ◌∷◌, map, ◌≡◌, refl, arith, Bytes, any, ◌⊎◌,
  inl, inr,
}
use ateam.Runner.Types.{RunOpts, PreparedRun, Call, returns, panics}
use ateam.Flow.Types.{
  Moment, RunProgress, Flow, RuntimeEnv, Result, Action, PromptBundle, BundleInfo, pre_exec,
  post_exec, Event, bundle_start, bundle_end, stage_start, stage_end, agent_event, action_start,
  action_end, agent_exec_end, prepare_called, execute_called, mark_exec_failed, is_continue,
  ActionPhase,
}
use ateam.Flow.Bundle.{run_pre, run_post, dry_run, run_agent, upgrade}

-- The reporter's boundaries of bundles and stages.
abbrev pub is_boundary : Event → Bool
is_boundary (bundle_start _) = true
is_boundary (bundle_end _ _) = true
is_boundary (stage_start _) = true
is_boundary (stage_end _ _) = true
is_boundary _ = false

-- Calls of the executor and of the database.
abbrev pub is_effect : Event → Bool
is_effect (prepare_called _) = true
is_effect (execute_called _ _) = true
is_effect (mark_exec_failed _ _) = true
is_effect _ = false

abbrev pub is_execution : Event → Bool
is_execution (execute_called _ _) = true
is_execution _ = false

abbrev pub is_post_phase : ActionPhase → Bool
is_post_phase pre_exec = false
is_post_phase post_exec = true

abbrev pub same : ActionPhase → ActionPhase → Bool
same pre_exec q = not (is_post_phase q)
same post_exec q = is_post_phase q

abbrev pub is_post_start : Event → Bool
is_post_start (action_start _ phase _ _) = is_post_phase phase
is_post_start _ = false

-- The agent came back without an error.
abbrev pub is_clean_end : Event → Bool
is_clean_end (agent_exec_end _ s) = not s.is_error
is_clean_end _ = false

abbrev pub Continues : Call Flow → Type 0
Continues (returns f) = is_continue f.state ≡ true
Continues (panics v) = ⊥

-- Every action before the agent answers `StateContinue`.
abbrev pub AllContinue : Moment → RuntimeEnv → ℕ → List Action → Type 0
AllContinue m env i [] = Unit
AllContinue m env i (a ∷ later) =
    Continues (a.run (i ∷ m) env none) × AllContinue m env (i + 1) later

pub Call-cases :
    {A : Type 0} (c : Call A) → ((a : A) × (c ≡ returns a)) ⊎ ((v : Bytes) × (c ≡ panics v))
Call-cases (returns a) = inl (a, refl)
Call-cases (panics v) = inr (v, refl)

-- Where the events of each part of a bundle come from.
abbrev pub from_hook : ActionPhase → Event → Bool
from_hook phase (action_start _ q _ _) = same phase q
from_hook phase (action_end _ q _ _ _) = same phase q
from_hook phase _ = false

abbrev pub from_agent : Event → Bool
from_agent (execute_called _ _) = true
from_agent (agent_event _ _) = true
from_agent _ = false

any-map_agent_event :
    (bi : BundleInfo) (xs : List RunProgress)
    → any (λ e. not (from_agent e)) (map (agent_event bi) xs) ≡ false
any-map_agent_event bi [] = refl
any-map_agent_event bi (x ∷ xs) = any-map_agent_event bi xs

-- A test that no event of a kind passes fails on a log of that kind.
pub any-weaken :
    (p kind : Event → Bool) (log : List Event)
    → ((e : Event) → kind e ≡ true → p e ≡ false)
    → any (λ e. not (kind e)) log ≡ false
    → any p log ≡ false
any-weaken p kind [] h k = refl
any-weaken p kind (e ∷ log) h k = ground (arith, h e, any-weaken p kind log h)

module _ (m : Moment) (bi : BundleInfo) (env : RuntimeEnv) where
  pub run_pre-from_hook :
      (i : ℕ) (hooks : List Action)
      → any (λ e. not (from_hook pre_exec e)) (run_pre m bi env i hooks).1 ≡ false
  unfolding run_pre
  run_pre-from_hook i [] = refl
  run_pre-from_hook i (a ∷ later) = ground (arith, run_pre-from_hook (i + 1) later)

  pub run_post-from_hook :
      (i : ℕ) (r : Result) (hooks : List Action)
      → any (λ e. not (from_hook post_exec e)) (run_post m bi env i r hooks).1 ≡ false
  unfolding run_post
  run_post-from_hook i r [] = refl
  run_post-from_hook i r (a ∷ later) = elim (Call-cases (a.run (i ∷ m) env (some r))) [
    | inl (f, e) ↦ rw e (run_post-from_hook (i + 1) (upgrade r f) later)
    | inr (v, e) ↦ rw e
  ]

  pub run_agent-from_agent :
      (prepared : PreparedRun) (prompt : Bytes)
      → any (λ e. not (from_agent e)) (run_agent m bi env prepared prompt).1 ≡ false
  unfolding run_agent
  run_agent-from_agent prepared prompt =
      any-map_agent_event bi (env.executor.execute_prepared m prepared prompt).0

pub dry_run_silent :
    (m : Moment) (b : PromptBundle) (env : RuntimeEnv) (opts : RunOpts)
    → (dry_run m b env opts).1 ≡ []
unfolding dry_run
dry_run_silent m b env opts = ground arith
