-- ===== src/Tests/Pools.antt =====
-- internal/runner/pool.go with two tasks: one agent answers, the other panics.
use ateam.Prelude.{
  ℕ, zero, suc, ◌+◌, ◌*◌, ◌≤◌, ◌≡◌, ◌⊎◌, refl, arith, Bool, Option, none, some, List, [], ◌∷◌,
  Bytes, codes, length, count, eq, All, ◌++◌,
}
use ateam.Runner.Types.{RunOpts, RunSummary, panics}
use ateam.Runner.Pool.{
  Pool, PoolExec, AgentExecutor, State, Steps, stay, then, admit, acquire, finish, release,
  skip_one, refuse, Done, slots, start, run_pool, checking, skipping, Entry, work, skipped_summary,
}
use ateam.Runner.Pool.Slots.{slots-bounded, results-Earned, Earned}
use ateam.Runner.Pool.Finish.{
  pool-progress, pool-finishes, pool_complete, steps-bounded, steps_taken, Moves,
}

abbrev opts : Bytes → RunOpts
opts role = record {
  role_id = role;
  action = codes "run";
  work_dir = [];
  batch = [];
  output_kind = [];
  prompt_name = [];
  auto_roles_commands_output = [];
  sub_run_args = [];
  debug_context = [];
}

abbrev broken : AgentExecutor
broken = record { execute = λ time prompt o. panics (codes "nil map") }

abbrev task : Bytes → PoolExec
task role = record { prompt = codes "go"; run_opts = opts role; agent_executor = none }

abbrev tasks : List PoolExec
tasks = task (codes "a") ∷ task (codes "b") ∷ []

-- `PreDispatch` refuses the last task.
abbrev budget : ℕ → List RunSummary → Option Bytes
budget (suc zero) done = some (codes "budget")
budget _ done = none

abbrev pool : Pool
pool = record {
  executor = broken;
  max_parallel = 1;
  completed_cap = some 2;
  pre_dispatch = some budget;
  stack = codes "stack";
}

started : run_pool pool tasks ≡ some (start tasks)
unfolding run_pool
started = refl

abbrev first_done : List Entry
first_done = (task (codes "a"), work pool 0 (task (codes "a"))) ∷ []

-- The second task waits for `PreDispatch`, the first one's worker has released its slot.
abbrev between : State
between = record {
  phase = checking;
  pending = task (codes "b") ∷ [];
  working = [];
  releasing = 0;
  results = first_done;
  cancelled = none;
}

first_run : Steps pool (start tasks) between
first_run =
    then
      (then
        (then (then stay (admit (task (codes "a")) (task (codes "b") ∷ []) refl refl refl))
          (acquire (task (codes "a")) (task (codes "b") ∷ []) refl refl (omega arith)))
        (finish [] (task (codes "a")) [] refl refl))
      (release 0 refl)

abbrev final : State
final = record between {
  phase = skipping (codes "budget");
  pending = [];
  results =
      first_done ++ (task (codes "b"), skipped_summary (task (codes "b")) (codes "budget")) ∷ [];
}

full_run : Steps pool (start tasks) final
full_run =
    then (then first_run (refuse (task (codes "b")) [] (codes "budget") refl refl refl))
      (skip_one (task (codes "b")) [] (codes "budget") refl refl refl)

pool-progress_example : Done between ⊎ Moves pool between
pool-progress_example =
    pool-progress pool tasks (start tasks) between (omega arith) started first_run

pool-finishes_example : (t : State) × Steps pool between t × Done t × (t.cancelled ≡ none)
pool-finishes_example =
    pool-finishes pool tasks (start tasks) between (omega arith) started first_run

is_b : PoolExec → Bool
is_b t = eq t.run_opts.role_id (codes "b")

pool_complete_example : count (λ e. is_b e.0) final.results ≡ count is_b tasks
pool_complete_example =
    pool_complete pool tasks (start tasks) final is_b started full_run (refl, refl, refl)

steps-bounded_example : steps_taken full_run ≤ 6 * length tasks + 3
steps-bounded_example = steps-bounded pool tasks final full_run

slots-bounded_example : slots between ≤ pool.max_parallel
slots-bounded_example = slots-bounded pool tasks between first_run

results-Earned_example : All (Earned pool) final.results
results-Earned_example = results-Earned pool tasks final full_run
