-- ===== src/Flow/Bundle/Outcome.antt =====
-- internal/flow/flow.go: when a bundle reaches the agent, what it marks in the database, and the
-- result it ends with.
use ateam.Prelude.{
  ℕ, ◌+◌, Bool, true, false, ◌&&◌, Option, none, some, List, [], ◌∷◌, ◌≡◌, refl, sym, ◌∙◌, arith,
  if◌then◌else◌, Bytes, any, any-append, ◌⊎◌, inl, inr, length, Bool-cases,
}
use ateam.Runner.Types.{RunOpts, PreparedRun, RunSummary, Call, returns, panics, Fallible, ok, err}
use ateam.Flow.Types.{
  Moment, Flow, RuntimeEnv, Result, Action, PromptBundle, BundleInfo, pre_exec, post_exec, Event,
  RunCtx, action_end, execute_called, mark_exec_failed, error, continue, is_error, is_continue,
  is_error-true,
}
use mathlib.Core.Path.{subst}
use ateam.Flow.Trace.{M, pure, ◌>>=◌, ◌>>◌, report, call}
use ateam.Flow.Bundle.{
  leaf, flow_of, fine, fill_opts, upgrade, bundle_env, bundle_info, run_opts, run_pre, run_post,
  dry_run, run_agent, after_agent, run_prepared, after_resolve, after_prepare, live_run, after_opts,
  after_pre, bundle_body, recovered, execute_bundle, resolve_prompt,
}
use ateam.Flow.Bundle.Trails.{is_effect, AllContinue, from_hook}
use ateam.Flow.Bundle.Order.{quiet_pre, Implies-after_pre, never, any-never}

-- The loop over the hooks goes on to the end only if all of them answer `StateContinue`.
run_pre-AllContinue :
    (m : Moment) (bi : BundleInfo) (env : RuntimeEnv) (i : ℕ) (hooks : List Action)
    → (run_pre m bi env i hooks).0 ≡ returns none
    → AllContinue m env i hooks
unfolding run_pre
run_pre-AllContinue m bi env i [] h = tt
run_pre-AllContinue m bi env i (a ∷ later) h =
    ground (arith, run_pre-AllContinue m bi env (i + 1) later)

quiet_effect : (e : Event) → from_hook pre_exec e ≡ true → is_effect e ≡ false
quiet_effect e h = ground arith

module _ (rc : RunCtx) (m : Moment) (b : PromptBundle) (bi : BundleInfo) (env : RuntimeEnv) where
  dry_quiet :
      (stop : Option Flow)
      → env.dry_run ≡ true
      → any is_effect (after_pre rc m b bi env stop).1 ≡ false
  dry_quiet stop dry =
      Implies-after_pre is_effect never rc m b bi env stop (λ opts live. cc)
        (any-never (after_pre rc m b bi env stop).1)

  effect-after_pre :
      (c : M (Option Flow))
      → any is_effect c.1 ≡ false
      → any is_effect (c >>= after_pre rc m b bi env).1 ≡ true
      → (c.0 ≡ returns none) × (env.dry_run ≡ false)
  unfolding after_pre
  effect-after_pre (panics v, log) q h = cc
  effect-after_pre (returns (some f), log) q h = ground (arith, any-append is_effect log [])
  effect-after_pre (returns none, log) q h = elim (Bool-cases env.dry_run) [
    | inl dry ↦
        ground
          (arith, dry_quiet none dry, any-append is_effect log (after_pre rc m b bi env none).1)
    | inr live ↦ (refl, live)
  ]

  -- The body of a bundle itself calls `Prepare` or `ExecutePrepared` of its executor, or marks the
  -- run as failed in the call database, only if every hook before the agent answered
  -- `StateContinue` and the environment asks for no dry run. What the hooks call themselves is not
  -- counted.
  pub effect-AllContinue :
      any is_effect (bundle_body rc m b bi env).1 ≡ true
      → AllContinue m env 0 b.pre_exec × (env.dry_run ≡ false)
  unfolding bundle_body
  effect-AllContinue h =
      let (c, live) =
        effect-after_pre (run_pre m bi env 0 b.pre_exec)
          (quiet_pre rc m b bi env is_effect quiet_effect) h in
      (run_pre-AllContinue m bi env 0 b.pre_exec c, live)

abbrev pub is_closing : Event → Bool
is_closing (execute_called _ _) = true
is_closing (mark_exec_failed _ _) = true
is_closing _ = false

abbrev pub returned : {A : Type 0} → Call A → Bool
returned (returns _) = true
returned (panics _) = false

-- What a hook behind the agent returned on a result that has the agent's summary; the hooks are
-- given from one index on.
abbrev pub FromHook : Moment → RuntimeEnv → RunSummary → ℕ → List Action → Flow → Type 0
FromHook m env s i [] flow = ⊥
FromHook m env s i (a ∷ hooks) flow =
    ((r : Result) × (r.summary ≡ some s) × (a.run (i ∷ m) env (some r) ≡ returns flow))
    ⊎ FromHook m env s (i + 1) hooks flow

-- Behind a run that ended well: success, or an error of some origin.
abbrev pub Settled : (Flow → Type 0) → Flow → Type 0
Settled Origin flow =
    ((flow.state ≡ continue) × (flow.reason ≡ []) × (flow.err ≡ none))
    ⊎ ((flow.state ≡ error) × Origin flow)

-- A flow that agrees with the agent's summary: a failed run's cause and error; behind a run that
-- ended well, success, or the error that a hook returned.
abbrev pub Agrees : Moment → RuntimeEnv → List Action → Option RunSummary → Flow → Type 0
Agrees m env hooks none flow = Unit
Agrees m env hooks (some s) flow =
    if s.is_error
    then (flow.state ≡ error) × (flow.reason ≡ s.error_cause) × (flow.err ≡ s.err)
    else Settled (FromHook m env s 0 hooks) flow

abbrev Post : (Result → Type 0) → Call Result → Type 0
Post P (returns r) = P r
Post P (panics v) = Unit

Post->>= :
    (P : Result → Type 0) {A : Type 0} (c : M A) (f : A → M Result)
    → ((a : A) → c.0 ≡ returns a → Post P (f a).0)
    → Post P (c >>= f).0
Post->>= P (returns a, log) f h = h a refl
Post->>= P (panics v, log) f h = tt

upgrade-Settled :
    (Origin : Flow → Type 0) (r : Result) (pf : Flow)
    → Settled Origin r.flow
    → Origin pf
    → Settled Origin (upgrade r pf).flow
upgrade-Settled Origin r pf h from =
    elim (Bool-cases (is_error pf.state && is_continue r.flow.state)) [
      | inl up ↦
          let e : is_error pf.state ≡ true = ground arith in
          rw up (inr (is_error-true pf.state e, from))
      | inr same ↦ rw same h
    ]

upgrade-summary : (r : Result) (pf : Flow) → (upgrade r pf).summary ≡ r.summary
upgrade-summary r pf = ground arith

-- The hooks behind the agent keep its summary, and settle the flow.
run_post-Settled :
    (m : Moment) (bi : BundleInfo) (env : RuntimeEnv) (s : RunSummary) (Origin : Flow → Type 0)
    (i : ℕ) (r : Result) (hooks : List Action)
    → ((flow : Flow) → FromHook m env s i hooks flow → Origin flow)
    → r.summary ≡ some s
    → Settled Origin r.flow
    → Post (λ t. (t.summary ≡ some s) × Settled Origin t.flow) (run_post m bi env i r hooks).0
unfolding run_post
run_post-Settled m bi env s Origin i r [] from e h = (e, h)
run_post-Settled m bi env s Origin i r (a ∷ later) from e h =
    Post->>= (λ t. (t.summary ≡ some s) × Settled Origin t.flow) (call (a.run (i ∷ m) env (some r)))
      (λ pf.
        report (action_end bi post_exec a.type_name i pf)
        >> run_post m bi env (i + 1) (upgrade r pf) later)
      (λ pf answer.
        run_post-Settled m bi env s Origin (i + 1) (upgrade r pf) later
          (λ flow k. from flow (inr k)) (upgrade-summary r pf ∙ e)
          (upgrade-Settled Origin r pf h (from pf (inl (r, e, answer)))))

if-well : (A B : Type 0) (flag : Bool) → flag ≡ false → B → if flag then A else B
if-well A B true h y = cc
if-well A B false h y = y

if-bad : (A B : Type 0) (flag : Bool) → flag ≡ true → A → if flag then A else B
if-bad A B true h x = x
if-bad A B false h x = cc

flow_of-fine : (s : RunSummary) → s.is_error ≡ false → flow_of s ≡ fine []
flow_of-fine s h = ground arith

flow_of-failed :
    (s : RunSummary)
    → s.is_error ≡ true
    → flow_of s ≡ record { state = error; reason = s.error_cause; err = s.err }
flow_of-failed s h = ground arith

module _ (rc : RunCtx) (m : Moment) (b : PromptBundle) (bi : BundleInfo) (env : RuntimeEnv) where
  abbrev Sound : Call Result → Type 0
  Sound c = Post (λ r. Agrees m env b.post_exec r.summary r.flow) c

  Settled-Sound :
      (s : RunSummary) (c : Call Result)
      → s.is_error ≡ false
      → Post (λ t. (t.summary ≡ some s) × Settled (FromHook m env s 0 b.post_exec) t.flow) c
      → Sound c
  Settled-Sound s (panics v) well h = tt
  Settled-Sound s (returns t) well (e, h) =
      subst (λ o. Agrees m env b.post_exec o t.flow) (sym e) (if-well _ _ s.is_error well h)

  -- From the flow that the summary gives on.
  abbrev settle : RunSummary → Flow → Call Result
  settle s flow =
      let r = leaf b env flow (some s) in
      (if is_continue flow.state then run_post m bi env 0 r b.post_exec else pure r).0

  after_agent-Sound : (s : RunSummary) → Sound (after_agent m b bi env s).0
  unfolding after_agent
  after_agent-Sound s = elim (Bool-cases s.is_error) [
    | inl bad ↦
        subst (λ flow. Sound (settle s flow)) (sym (flow_of-failed s bad))
          (if-bad _ _ s.is_error bad (refl, refl, refl))
    | inr well ↦
        subst (λ flow. Sound (settle s flow)) (sym (flow_of-fine s well))
          (Settled-Sound s (run_post m bi env 0 (leaf b env (fine []) (some s)) b.post_exec).0 well
            (run_post-Settled m bi env s (FromHook m env s 0 b.post_exec) 0
              (leaf b env (fine []) (some s)) b.post_exec (λ flow k. k) refl
              (inl (refl, refl, refl))))
  ]

  after_resolve-Sound :
      (prepared : PreparedRun) (t : Fallible Bytes)
      → Sound (after_resolve rc m b bi env prepared t).0
  unfolding after_resolve run_prepared
  after_resolve-Sound prepared (err e) = ground arith
  after_resolve-Sound prepared (ok prompt) =
      let sized = record prepared { prompt_bytes = length prompt } in
      Post->>= (λ r. Agrees m env b.post_exec r.summary r.flow) (run_agent m bi env sized prompt)
        (after_agent m b bi env) (λ s e. after_agent-Sound s)

  after_prepare-Sound :
      (opts : RunOpts) (o : Fallible PreparedRun) → Sound (after_prepare rc m b bi env opts o).0
  unfolding after_prepare
  after_prepare-Sound opts (err e) = tt
  after_prepare-Sound opts (ok r) =
      Post->>= (λ r. Agrees m env b.post_exec r.summary r.flow)
        (call (resolve_prompt m b env opts (some r))) (after_resolve rc m b bi env r)
        (λ t e. after_resolve-Sound r t)

  after_opts-Sound : (given : RunOpts) → Sound (after_opts rc m b bi env given).0
  unfolding after_opts live_run dry_run
  after_opts-Sound given = either env.dry_run
    where
      either :
          (dry : Bool)
          → Sound
              (if dry
                then dry_run m b env (fill_opts env given)
                else live_run rc m b bi env (fill_opts env given)).0
      either true = ground arith
      either false =
          Post->>= (λ r. Agrees m env b.post_exec r.summary r.flow)
            (call (env.executor.prepare m (fill_opts env given)))
            (after_prepare rc m b bi env (fill_opts env given))
            (λ o e. after_prepare-Sound (fill_opts env given) o)

  after_pre-Sound : (stop : Option Flow) → Sound (after_pre rc m b bi env stop).0
  unfolding after_pre
  after_pre-Sound (some f) = tt
  after_pre-Sound none =
      Post->>= (λ r. Agrees m env b.post_exec r.summary r.flow) (run_opts b env)
        (after_opts rc m b bi env) (λ given e. after_opts-Sound given)

  bundle_body-Sound : Sound (bundle_body rc m b bi env).0
  unfolding bundle_body
  bundle_body-Sound =
      Post->>= (λ r. Agrees m env b.post_exec r.summary r.flow) (run_pre m bi env 0 b.pre_exec)
        (after_pre rc m b bi env) (λ stop e. after_pre-Sound stop)

recovered-Agrees :
    (rc : RunCtx) (m : Moment) (b : PromptBundle) (env : RuntimeEnv) (c : Call Result)
    → Post (λ r. Agrees m env b.post_exec r.summary r.flow) c
    → Agrees m env b.post_exec (recovered rc b env c).summary (recovered rc b env c).flow
unfolding recovered
recovered-Agrees rc m b env (returns r) h = h
recovered-Agrees rc m b env (panics v) h = tt

-- If the result of a bundle has the agent's summary, its flow agrees with it: a failed run gives
-- the error state with the summary's cause and error, whatever the hooks; behind a run without an
-- error the flow is success, with no reason and no error, or it is in the error state and is what
-- one of the bundle's hooks behind the agent returned on a result with this summary.
pub execute_bundle-Agrees :
    (rc : RunCtx) (m : Moment) (b : PromptBundle) (env : RuntimeEnv)
    → let r = (execute_bundle rc m b env).0 in
      Agrees m (bundle_env b env) b.post_exec r.summary r.flow
unfolding execute_bundle
execute_bundle-Agrees rc m b env =
    recovered-Agrees rc m b (bundle_env b env) _
      (bundle_body-Sound rc m b (bundle_info b (bundle_env b env)) (bundle_env b env))
