-- ===== src/Flow/Bundle.antt =====
-- `PromptBundle.execute` of internal/flow/flow.go, with what it calls.
pub mod Trails
pub mod Order
pub mod Outcome
use ateam.Prelude.{
  ℕ, suc, ◌+◌, Bool, true, false, not, ◌&&◌, Option, none, some, List, [], ◌∷◌, ◌++◌, if◌then◌else◌,
  Bytes, codes, is_empty, length, map,
}
use ateam.Prelude.FilePath.{join_path}
use ateam.Runner.Types.{
  Error, no_prompt, panic_in_step, RunOpts, PreparedRun, RunSummary, Call, returns, panics,
  Fallible, ok, err, primary_output_name,
}
use ateam.Flow.Types.{
  Moment, RunProgress, Flow, continue, error, is_continue, is_error, RuntimeEnv, or_else,
  with_bundle_overrides, Result, Action, Mode, preview, real, Runtime, PromptBundle, BundleInfo,
  ActionPhase, pre_exec, post_exec, Event, bundle_start, bundle_end, agent_event, action_start,
  action_end, agent_exec_start, agent_exec_end, prepare_called, execute_called, mark_exec_failed,
  RunCtx,
}
use ateam.Flow.Trace.{M, ◌>>=◌, ◌>>◌, pure, report, call}

-- `NewRuntime`: preview mode, every scalar of the run empty.
abbrev pub new_runtime : Bytes → Runtime
new_runtime work_dir = record {
  mode = preview;
  work_dir = work_dir;
  exec_id = 0;
  batch = [];
  output_dir = [];
  output_file = [];
  prompt_file = [];
  timestamp = [];
  agent = [];
  model = [];
  sub_run_args = [];
  debug_context = [];
  auto_roles_commands_output = [];
}

unfoldable pub primary_output_file : Option PreparedRun → RunOpts → Bytes
primary_output_file none opts = []
primary_output_file (some prepared) opts =
    let primary = primary_output_name opts.output_kind opts.prompt_name in
    if is_empty primary
    then []
    else if is_empty prepared.runtime_dir
    then []
    else join_path (prepared.runtime_dir ∷ primary ∷ [])

unfoldable pub new_bundle_runtime : RuntimeEnv → RunOpts → Option PreparedRun → Runtime
unfolding primary_output_file
new_bundle_runtime env opts none = new_runtime env.work_dir
new_bundle_runtime env opts (some prepared) = record {
  mode = real;
  work_dir = env.work_dir;
  exec_id = prepared.exec_id;
  batch = opts.batch;
  output_dir = prepared.runtime_dir;
  output_file = primary_output_file (some prepared) opts;
  prompt_file = prepared.prompt_file;
  timestamp = prepared.started_at;
  agent = prepared.agent_name;
  model = prepared.model;
  sub_run_args = opts.sub_run_args;
  debug_context = opts.debug_context;
  auto_roles_commands_output = opts.auto_roles_commands_output;
}

unfoldable pub resolve_prompt :
    Moment → PromptBundle → RuntimeEnv → RunOpts → Option PreparedRun → Call (Fallible Bytes)
resolve_prompt m b env opts prepared = elim b.prompt [
  | none ↦ returns (err no_prompt)
  | some resolve ↦ resolve m (new_bundle_runtime env opts prepared)
]

abbrev pub leaf : PromptBundle → RuntimeEnv → Flow → Option RunSummary → Result
leaf b env flow summary = record { bundle = b.name; env = some env; flow = flow; summary = summary }

abbrev pub failed : Bytes → Error → Flow
failed why e = record { state = error; reason = why; err = some e }

abbrev pub fine : Bytes → Flow
fine why = record { state = continue; reason = why; err = none }

unfoldable pub panic_result : RunCtx → Bytes → RuntimeEnv → Bytes → Result
panic_result rc name env v = record {
  bundle = name;
  env = some env;
  flow = failed (codes "panic: " ++ (v ++ (codes "\n\n" ++ rc.stack))) (panic_in_step name v);
  summary = none;
}

-- The loop over `PreExec`, from index `i`: none if every action returned `StateContinue`.
unfoldable pub run_pre : Moment → BundleInfo → RuntimeEnv → ℕ → List Action → M (Option Flow)
run_pre m bi env i [] = pure none
run_pre m bi env i (a ∷ later) = do
  report (action_start bi pre_exec a.type_name i)
  f ← call (a.run (i ∷ m) env none)
  report (action_end bi pre_exec a.type_name i f)
  if not (is_continue f.state) then pure (some f) else run_pre m bi env (i + 1) later

-- The first error of an action replaces the flow of the result.
abbrev pub upgrade : Result → Flow → Result
upgrade r pf = if is_error pf.state && is_continue r.flow.state then record r { flow = pf } else r

-- The loop over `PostExec`.
unfoldable pub run_post : Moment → BundleInfo → RuntimeEnv → ℕ → Result → List Action → M Result
run_post m bi env i r [] = pure r
run_post m bi env i r (a ∷ later) = do
  report (action_start bi post_exec a.type_name i)
  pf ← call (a.run (i ∷ m) env (some r))
  report (action_end bi post_exec a.type_name i pf)
  run_post m bi env (i + 1) (upgrade r pf) later

abbrev pub base_opts : RunOpts
base_opts = record {
  role_id = [];
  action = [];
  work_dir = [];
  batch = [];
  output_kind = [];
  prompt_name = [];
  auto_roles_commands_output = [];
  sub_run_args = [];
  debug_context = [];
}

unfoldable pub fill_opts : RuntimeEnv → RunOpts → RunOpts
fill_opts env opts = record opts {
  role_id = or_else opts.role_id env.role;
  action = or_else opts.action env.action;
  work_dir = or_else opts.work_dir env.work_dir;
  batch = or_else opts.batch env.batch;
}

abbrev pub run_opts : PromptBundle → RuntimeEnv → M RunOpts
run_opts b env = elim b.run_opts [ none ↦ pure base_opts | some f ↦ call (f env) ]

abbrev pub flow_of : RunSummary → Flow
flow_of s =
    if s.is_error then record { state = error; reason = s.error_cause; err = s.err } else fine []

unfoldable pub dry_run : Moment → PromptBundle → RuntimeEnv → RunOpts → M Result
dry_run m b env opts = do
  resolved ← call (resolve_prompt m b env opts none)
  elim resolved [
    | err e ↦ pure (leaf b env (failed (codes "render failed") e) none)
    | ok _ ↦ pure (leaf b env (fine (codes "dry-run")) none)
  ]

-- What the executor reports while it runs, and the summary that it returns.
unfoldable pub run_agent : Moment → BundleInfo → RuntimeEnv → PreparedRun → Bytes → M RunSummary
run_agent m bi env prepared prompt =
    let (progress, c) = env.executor.execute_prepared m prepared prompt in
    (c, execute_called prepared prompt ∷ map (agent_event bi) progress)

-- From the agent's summary on.
unfoldable pub after_agent : Moment → PromptBundle → BundleInfo → RuntimeEnv → RunSummary → M Result
after_agent m b bi env summary = do
  report (agent_exec_end bi summary)
  let r = leaf b env (flow_of summary) (some summary)
  if is_continue r.flow.state then run_post m bi env 0 r b.post_exec else pure r

-- From the resolved prompt on.
unfoldable pub run_prepared :
    Moment → PromptBundle → BundleInfo → RuntimeEnv → PreparedRun → Bytes → M Result
run_prepared m b bi env prepared prompt = do
  let sized = record prepared { prompt_bytes = length prompt }
  report (agent_exec_start bi sized)
  run_agent m bi env sized prompt >>= after_agent m b bi env

abbrev pub mark_failed : RunCtx → PreparedRun → Error → M (Unit {0})
mark_failed rc prepared e =
    if rc.has_db then report (mark_exec_failed prepared.exec_id e) else pure tt

unfoldable pub after_resolve :
    RunCtx
    → Moment
    → PromptBundle
    → BundleInfo
    → RuntimeEnv
    → PreparedRun
    → Fallible Bytes
    → M Result
after_resolve rc m b bi env prepared (err e) = do
  mark_failed rc prepared e
  pure (leaf b env (failed (codes "render failed") e) none)
after_resolve rc m b bi env prepared (ok prompt) = run_prepared m b bi env prepared prompt

unfoldable pub after_prepare :
    RunCtx
    → Moment
    → PromptBundle
    → BundleInfo
    → RuntimeEnv
    → RunOpts
    → Fallible PreparedRun
    → M Result
after_prepare rc m b bi env opts (err e) =
    pure (leaf b env (failed (codes "prepare failed") e) none)
after_prepare rc m b bi env opts (ok prepared) =
    call (resolve_prompt m b env opts (some prepared)) >>= after_resolve rc m b bi env prepared

unfoldable pub live_run :
    RunCtx → Moment → PromptBundle → BundleInfo → RuntimeEnv → RunOpts → M Result
live_run rc m b bi env opts = do
  report (prepare_called opts)
  call (env.executor.prepare m opts) >>= after_prepare rc m b bi env opts

unfoldable pub after_opts :
    RunCtx → Moment → PromptBundle → BundleInfo → RuntimeEnv → RunOpts → M Result
after_opts rc m b bi env given =
    let opts = fill_opts env given in
    if env.dry_run then dry_run m b env opts else live_run rc m b bi env opts

unfoldable pub after_pre :
    RunCtx → Moment → PromptBundle → BundleInfo → RuntimeEnv → Option Flow → M Result
after_pre rc m b bi env (some f) = pure (leaf b env f none)
after_pre rc m b bi env none = run_opts b env >>= after_opts rc m b bi env

-- The body, up to the result that is emitted.
unfoldable pub bundle_body : RunCtx → Moment → PromptBundle → BundleInfo → RuntimeEnv → M Result
bundle_body rc m b bi env = run_pre m bi env 0 b.pre_exec >>= after_pre rc m b bi env

-- A step's own environment replaces the one handed down.
abbrev pub override : Option RuntimeEnv → RuntimeEnv → RuntimeEnv
override none env = env
override (some e) env = e

abbrev pub bundle_env : PromptBundle → RuntimeEnv → RuntimeEnv
bundle_env b env = with_bundle_overrides (override b.env env) b.role b.action

abbrev pub bundle_info : PromptBundle → RuntimeEnv → BundleInfo
bundle_info b env = record {
  name = b.name;
  role = env.role;
  action = env.action;
  work_dir = env.work_dir;
  batch = env.batch;
}

-- The deferred `recover`: a panic becomes an error result.
unfoldable pub recovered : RunCtx → PromptBundle → RuntimeEnv → Call Result → Result
unfolding panic_result
recovered rc b env (returns r) = r
recovered rc b env (panics v) = panic_result rc b.name env v

unfoldable pub execute_bundle : RunCtx → Moment → PromptBundle → RuntimeEnv → Result × List Event
execute_bundle rc m b env0 =
    let env = bundle_env b env0 in
    let bi = bundle_info b env in
    let (c, log) = bundle_body rc m b bi env in
    let r = recovered rc b env c in (r, bundle_start bi ∷ (log ++ bundle_end bi r ∷ []))
