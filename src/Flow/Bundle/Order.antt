-- ===== src/Flow/Bundle/Order.antt =====
-- The order of the events in the log of a bundle.
use ateam.Prelude.{
  ℕ, Bool, true, false, Option, none, some, List, [], ◌∷◌, ◌≡◌, refl, arith, if◌then◌else◌, Bytes,
  any, any-append, length,
}
use ateam.Runner.Types.{
  RunOpts, PreparedRun, RunSummary, Call, returns, panics, Fallible, ok, err, Error,
}
use ateam.Flow.Types.{
  Moment, Flow, RuntimeEnv, Result, PromptBundle, BundleInfo, pre_exec, post_exec, Event, RunCtx,
  agent_exec_start, prepare_called, mark_exec_failed,
}
use ateam.Flow.Trace.{M, ◌>>=◌, call, pure}
use ateam.Flow.Bundle.{
  base_opts, fill_opts, flow_of, leaf, run_opts, run_pre, run_post, dry_run, run_agent, after_agent,
  run_prepared, after_resolve, after_prepare, live_run, after_opts, after_pre, bundle_body,
  resolve_prompt, mark_failed,
}
use ateam.Flow.Bundle.Trails.{
  is_boundary, is_post_start, is_clean_end, any-weaken, run_pre-from_hook, run_post-from_hook,
  run_agent-from_agent, dry_run_silent, from_hook, from_agent,
}

-- An event that passes `p` comes with one that passes `q`.
abbrev pub Implies : {A : Type 0} → (Event → Bool) → (Event → Bool) → M A → Type 0
Implies p q c = any q c.1 ≡ false → any p c.1 ≡ false

Implies->>= :
    {A B : Type 0} (p q : Event → Bool) (c : M A) (f : A → M B)
    → Implies p q c
    → ((a : A) → Implies p q (f a))
    → Implies p q (c >>= f)
Implies->>= p q (returns a, log) f h k n =
    ground (arith, any-append p log (f a).1, any-append q log (f a).1, h, k a)
Implies->>= p q (panics v, log) f h k n = h n

module _ (p q : Event → Bool) (rc : RunCtx) (m : Moment) (b : PromptBundle) (bi : BundleInfo)
    (env : RuntimeEnv) where
  pub Implies-run_prepared :
      (prepared : PreparedRun) (prompt : Bytes)
      → ((r : PreparedRun) → p (agent_exec_start bi r) ≡ false)
      → ((r : PreparedRun) → Implies p q (run_agent m bi env r prompt))
      → ((s : RunSummary) → Implies p q (after_agent m b bi env s))
      → Implies p q (run_prepared m b bi env prepared prompt)
  unfolding run_prepared
  Implies-run_prepared prepared prompt hs ha hf n =
      let sized = record prepared { prompt_bytes = length prompt } in
      let rest =
        Implies->>= p q (run_agent m bi env sized prompt) (after_agent m b bi env) (ha sized) hf in
      ground (arith, hs sized, rest)

  pub Implies-after_resolve :
      (prepared : PreparedRun) (t : Fallible Bytes)
      → ((e : Error) → Implies p q (mark_failed rc prepared e))
      → ((prompt : Bytes) → Implies p q (run_prepared m b bi env prepared prompt))
      → Implies p q (after_resolve rc m b bi env prepared t)
  unfolding after_resolve
  Implies-after_resolve prepared (err e) hm hr =
      Implies->>= p q (mark_failed rc prepared e) (λ _. pure _) (hm e) (λ _ _. refl)
  Implies-after_resolve prepared (ok prompt) hm hr = hr prompt

  pub Implies-after_prepare :
      (opts : RunOpts) (o : Fallible PreparedRun)
      → ((prepared : PreparedRun) (e : Error) → Implies p q (mark_failed rc prepared e))
      → ((prepared : PreparedRun) (prompt : Bytes)
          → Implies p q (run_prepared m b bi env prepared prompt))
      → Implies p q (after_prepare rc m b bi env opts o)
  unfolding after_prepare
  Implies-after_prepare opts (err e) hm hr = λ n. refl
  Implies-after_prepare opts (ok r) hm hr =
      Implies->>= p q (call (resolve_prompt m b env opts (some r))) (after_resolve rc m b bi env r)
        (λ _. refl) (λ t. Implies-after_resolve r t (hm r) (hr r))

  -- The rest of a body keeps the implication if its parts do.
  pub Implies-live_run :
      (opts : RunOpts)
      → p (prepare_called opts) ≡ false
      → ((prepared : PreparedRun) (e : Error) → Implies p q (mark_failed rc prepared e))
      → ((prepared : PreparedRun) (prompt : Bytes)
          → Implies p q (run_prepared m b bi env prepared prompt))
      → Implies p q (live_run rc m b bi env opts)
  unfolding live_run
  Implies-live_run opts hp hm hr n =
      let rest =
        Implies->>= p q (call (env.executor.prepare m opts)) (after_prepare rc m b bi env opts)
          (λ _. refl) (λ o. Implies-after_prepare opts o hm hr) in
      ground (arith, hp, rest)

  pub Implies-either :
      (dry : Bool) (opts : RunOpts)
      → (dry ≡ false → Implies p q (live_run rc m b bi env opts))
      → Implies p q (if dry then dry_run m b env opts else live_run rc m b bi env opts)
  Implies-either true opts h n = rw dry_run_silent
  Implies-either false opts h n = h refl n

  pub Implies-after_pre :
      (stop : Option Flow)
      → ((opts : RunOpts) → env.dry_run ≡ false → Implies p q (live_run rc m b bi env opts))
      → Implies p q (after_pre rc m b bi env stop)
  unfolding after_pre after_opts
  Implies-after_pre (some f) h = λ n. refl
  Implies-after_pre none h =
      Implies->>= p q (run_opts b env) (after_opts rc m b bi env) (λ _. no_events b.run_opts)
        (λ given. Implies-either env.dry_run (fill_opts env given) (h (fill_opts env given)))
    where
      no_events :
          (o : Option (RuntimeEnv → Call RunOpts))
          → any p (elim o as (λ _. M RunOpts) [ none ↦ pure base_opts | some f ↦ call (f env) ]).1
            ≡ false
      no_events none = refl
      no_events (some f) = refl

  pub Implies-bundle_body :
      Implies p q (run_pre m bi env 0 b.pre_exec)
      → ((opts : RunOpts) → env.dry_run ≡ false → Implies p q (live_run rc m b bi env opts))
      → Implies p q (bundle_body rc m b bi env)
  unfolding bundle_body
  Implies-bundle_body hp hl =
      Implies->>= p q (run_pre m bi env 0 b.pre_exec) (after_pre rc m b bi env) hp
        (λ stop. Implies-after_pre stop hl)

abbrev pub never : Event → Bool
never _ = false

pub any-never : (log : List Event) → any never log ≡ false
any-never [] = refl
any-never (e ∷ log) = any-never log

pub mark_failed-any :
    (p : Event → Bool) (rc : RunCtx) (prepared : PreparedRun) (e : Error)
    → ((i : ℕ) (x : Error) → p (mark_exec_failed i x) ≡ false)
    → any p (mark_failed rc prepared e).1 ≡ false
mark_failed-any p rc prepared e h = ground (arith, h prepared.exec_id e)

module _ (rc : RunCtx) (m : Moment) (b : PromptBundle) (bi : BundleInfo) (env : RuntimeEnv) where
  pub quiet_pre :
      (p : Event → Bool)
      → ((e : Event) → from_hook pre_exec e ≡ true → p e ≡ false)
      → any p (run_pre m bi env 0 b.pre_exec).1 ≡ false
  quiet_pre p h = any-weaken p (from_hook pre_exec) _ h (run_pre-from_hook m bi env 0 b.pre_exec)

  pub quiet_post :
      (p : Event → Bool) (r : Result)
      → ((e : Event) → from_hook post_exec e ≡ true → p e ≡ false)
      → any p (run_post m bi env 0 r b.post_exec).1 ≡ false
  quiet_post p r h =
      any-weaken p (from_hook post_exec) _ h (run_post-from_hook m bi env 0 r b.post_exec)

  pub quiet_agent :
      (p : Event → Bool) (prepared : PreparedRun) (prompt : Bytes)
      → ((e : Event) → from_agent e ≡ true → p e ≡ false)
      → any p (run_agent m bi env prepared prompt).1 ≡ false
  quiet_agent p prepared prompt h =
      any-weaken p from_agent _ h (run_agent-from_agent m bi env prepared prompt)

  -- No boundary event is reported between the two of the bundle itself.
  pub bundle_body_inside : any is_boundary (bundle_body rc m b bi env).1 ≡ false
  bundle_body_inside =
      Implies-bundle_body is_boundary never rc m b bi env
        (λ _. quiet_pre is_boundary (λ e h. inner e h))
        (λ opts _.
          Implies-live_run is_boundary never rc m b bi env opts refl
            (λ prepared e _. mark_failed-any is_boundary rc prepared e (λ _ _. refl))
            (λ prepared prompt.
              Implies-run_prepared is_boundary never rc m b bi env prepared prompt (λ _. refl)
                (λ r _. quiet_agent is_boundary r prompt inner_agent) (λ s _. after s)))
        (any-never (bundle_body rc m b bi env).1)
    where
      inner : (e : Event) → from_hook pre_exec e ≡ true → is_boundary e ≡ false
      inner e h = ground arith

      inner_post : (e : Event) → from_hook post_exec e ≡ true → is_boundary e ≡ false
      inner_post e h = ground arith

      inner_agent : (e : Event) → from_agent e ≡ true → is_boundary e ≡ false
      inner_agent e h = ground arith

      after : (s : RunSummary) → any is_boundary (after_agent m b bi env s).1 ≡ false
      after s =
          unfold after_agent in
          ground (arith, quiet_post is_boundary (leaf b env (flow_of s) (some s)) inner_post)

  -- If no agent came back without an error, no hook of the second phase is started.
  pub post_after_clean :
      any is_clean_end (bundle_body rc m b bi env).1 ≡ false
      → any is_post_start (bundle_body rc m b bi env).1 ≡ false
  post_after_clean =
      Implies-bundle_body is_post_start is_clean_end rc m b bi env
        (λ _. quiet_pre is_post_start inner)
        (λ opts _.
          Implies-live_run is_post_start is_clean_end rc m b bi env opts refl
            (λ prepared e _. mark_failed-any is_post_start rc prepared e (λ _ _. refl))
            (λ prepared prompt.
              Implies-run_prepared is_post_start is_clean_end rc m b bi env prepared prompt
                (λ _. refl) (λ r _. quiet_agent is_post_start r prompt inner_agent) after))
    where
      inner : (e : Event) → from_hook pre_exec e ≡ true → is_post_start e ≡ false
      inner e h = ground arith

      inner_agent : (e : Event) → from_agent e ≡ true → is_post_start e ≡ false
      inner_agent e h = ground arith

      after : (s : RunSummary) → Implies is_post_start is_clean_end (after_agent m b bi env s)
      after s n = unfold after_agent in ground arith
