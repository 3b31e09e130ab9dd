-- ===== src/Tests/Flows.antt =====
-- internal/flow on a stage of two bundles, one whose agent fails, and on a prompt that does not
-- resolve.
use ateam.Prelude.{Bool, true, false, none, some, [], ◌∷◌, ◌≡◌, refl, codes, any, count, concat}
use ateam.Prelude.Int.{pos}
use ateam.Runner.Types.{external, returns, ok, err, PreparedRun, RunSummary}
use ateam.Flow.Types.{
  Executor, RuntimeEnv, PromptBundle, Step, Steps, bundle, pipeline, parallel, nil, cons, RunCtx,
  is_error, StageInfo,
}
use ateam.Flow.Bundle.{
  execute_bundle, bundle_body, live_run, resolve_prompt, bundle_info, bundle_env, override,
}
use ateam.Flow.Bundle.Trails.{is_effect, is_clean_end, AllContinue}
use ateam.Flow.Bundle.Outcome.{effect-AllContinue, execute_bundle-Agrees, Agrees}
use ateam.Flow.Schedule.{Scheduler}
use ateam.Flow.Compose.{execute, in_state, pipeline_info}
use ateam.Flow.Compose.DryRun.{execute_dry}
use ateam.Flow.Compose.Stages.{parallel-each, each}
use ateam.Flow.Verify.{run}
use ateam.Flow.Verify.Gate.{run_index, Points}

-- The second worker appends its results first, and the workers take turns at the reporter.
abbrev crossed : Scheduler
crossed = record {
  overtaken = λ m workers i. 1;
  turns = λ m workers i. true ∷ false ∷ false ∷ true ∷ [];
}

abbrev prepared : PreparedRun
prepared = record {
  exec_id = 7;
  runtime_dir = codes "run";
  prompt_file = codes "prompt.md";
  started_at = [];
  agent_name = codes "claude";
  model = [];
  prompt_bytes = 0;
}

abbrev failure : RunSummary
failure = record {
  role_id = [];
  exit_code = pos 1;
  output = [];
  is_error = true;
  error_source = codes "agent_process";
  error_cause = codes "exit 1";
  err = some (external (codes "exit 1"));
}

abbrev executor : Executor
executor = record {
  prepare = λ m opts. returns (ok prepared);
  execute_prepared = λ m p prompt. ([], returns failure);
}

abbrev env : Bool → RuntimeEnv
env dry = record {
  executor = executor;
  work_dir = codes "work";
  role = codes "reviewer";
  action = codes "run";
  dry_run = dry;
  batch = [];
  prompt_dir = [];
}

abbrev plain : PromptBundle
plain = record {
  name = codes "plain";
  role = [];
  action = [];
  env = none;
  prompt = some (λ m rt. returns (ok (codes "review")));
  run_opts = none;
  pre_exec = [];
  post_exec = [];
}

abbrev typo : PromptBundle
typo = record plain {
  name = codes "typo";
  prompt = some (λ m rt. returns (err (external (codes "unknown key"))));
}

abbrev ctx : RunCtx
ctx = record { has_db = true; stack = [] }

abbrev both : Steps
both = cons (bundle plain) (cons (bundle plain) nil)

abbrev stage : Step
stage = parallel (codes "roles") none (pos 2) none both

abbrev chain : Step
chain = pipeline (codes "all") none (cons stage (cons (bundle typo) nil))

run_index_example :
    Points
      (run ctx crossed (env false) stage).0.first_error_index
      (run ctx crossed (env false) stage).0.steps
run_index_example = run_index ctx crossed (env false) stage

execute_dry_example : count is_effect (execute ctx crossed [] (env true) chain).1 ≡ 0
execute_dry_example =
    execute_dry ctx crossed [] (env true) chain refl (tt, ((tt, (tt, (tt, tt))), (tt, tt)))

abbrev chain_info : StageInfo
chain_info = pipeline_info (codes "all") both

parallel-each_example :
    count (in_state is_error) (execute ctx crossed [] (env false) stage).0
    ≡ count (in_state is_error) (concat (each ctx crossed [] 0 (env false) both))
parallel-each_example =
    parallel-each ctx crossed [] (env false) (codes "roles") none (pos 2) none both
      (in_state is_error) (λ k. refl)

execute_bundle-Agrees_example :
    Agrees []
      (bundle_env plain (env false))
      []
      (execute_bundle ctx [] plain (env false)).0.summary
      (execute_bundle ctx [] plain (env false)).0.flow
execute_bundle-Agrees_example = execute_bundle-Agrees ctx [] plain (env false)

no_clean_end :
    any is_clean_end (bundle_body ctx [] plain (bundle_info plain (env false)) (env false)).1
    ≡ false
unfolding bundle_body ateam.Flow.Bundle.run_pre ateam.Flow.Bundle.after_pre
    ateam.Flow.Bundle.after_opts live_run ateam.Flow.Bundle.after_prepare resolve_prompt
    ateam.Flow.Bundle.after_resolve ateam.Flow.Bundle.run_prepared ateam.Flow.Bundle.run_agent
    ateam.Flow.Bundle.after_agent
no_clean_end = refl

has_effect :
    any is_effect (bundle_body ctx [] plain (bundle_info plain (env false)) (env false)).1 ≡ true
unfolding bundle_body ateam.Flow.Bundle.run_pre ateam.Flow.Bundle.after_pre
    ateam.Flow.Bundle.after_opts live_run
has_effect = refl

effect-AllContinue_example : AllContinue [] (env false) 0 plain.pre_exec × (false ≡ false)
effect-AllContinue_example =
    effect-AllContinue ctx [] plain (bundle_info plain (env false)) (env false) has_effect
