-- ===== src/Runner/Pool.antt =====
-- The worker pool of internal/runner/pool.go, `RunPoolWithOpts`, as a step relation: the dispatch
-- loop and the workers interleave in any order that the channels allow.
pub mod Slots
pub mod Finish
use ateam.Prelude.{
  ℕ, ◌+◌, ◌<◌, Bool, true, Option, none, some, List, [], ◌∷◌, ◌++◌, ◌≡◌, Bytes, codes, length, ltb,
  if◌then◌else◌, map,
}
use ateam.Prelude.Int.{negsuc}
use ateam.Runner.Types.{RunOpts, RunSummary, panicked, Call, returns, panics}

-- `AgentExecutor.Execute`: its answer may depend on when it is asked, which is counted in the
-- summaries that exist by then.
pub record AgentExecutor : Type 0 where
  pub execute : ℕ → Bytes → RunOpts → Call RunSummary

pub record PoolExec : Type 0 where
  pub prompt : Bytes
  pub run_opts : RunOpts
  pub agent_executor : Option AgentExecutor

-- What a call of the pool fixes: the shared executor, the slots, the buffer of `completed` if there
-- is such a channel, `PreDispatch`, which sees how far the batch is and what it has cost, and the
-- text of the stack at a recovered panic.
pub record Pool : Type 0 where
  pub executor : AgentExecutor
  pub max_parallel : ℕ
  pub completed_cap : Option ℕ
  pub pre_dispatch : Option (ℕ → List RunSummary → Option Bytes)
  pub stack : Bytes

unfoldable pub skipped_summary : PoolExec → Bytes → RunSummary
skipped_summary t cause = record {
  role_id = t.run_opts.role_id;
  exit_code = negsuc 0;
  output = [];
  is_error = true;
  error_source = codes "skipped";
  error_cause = codes "skipped: " ++ cause;
  err = none;
}

unfoldable pub panic_summary : Pool → PoolExec → Bytes → RunSummary
panic_summary p t v = record {
  role_id = t.run_opts.role_id;
  exit_code = negsuc 0;
  output = [];
  is_error = true;
  error_source = codes "ateam_internal";
  error_cause = codes "panic: " ++ (v ++ (codes "\n\n" ++ p.stack));
  err = some (panicked v);
}

-- What a worker records for its task, the panic recovered.
abbrev pub summary_of : Pool → PoolExec → Call RunSummary → RunSummary
summary_of p t (returns s) = s
summary_of p t (panics v) = panic_summary p t v

abbrev pub task_runner : Option AgentExecutor → AgentExecutor → AgentExecutor
task_runner none shared = shared
task_runner (some own) shared = own

unfoldable pub work : Pool → ℕ → PoolExec → RunSummary
unfolding panic_summary
work p time t =
    summary_of p t ((task_runner t.agent_executor p.executor).execute time t.prompt t.run_opts)

-- Where the dispatch loop stands: before `PreDispatch`, at the `select`, or recording the rest as
-- skipped.
pub data Phase : Type 0 where
  checking selecting : Phase
  skipping : Bytes → Phase

-- A summary with the task that it was recorded for, which the code does not keep.
abbrev pub Entry : Type 0
Entry = PoolExec × RunSummary

-- `releasing` counts the workers that have recorded their summary and still hold their slot;
-- `cancelled` is `ctx.Err()`.
pub record State : Type 0 where
  pub phase : Phase
  pub pending : List PoolExec
  pub working : List PoolExec
  pub releasing : ℕ
  pub results : List Entry
  pub cancelled : Option Bytes

abbrev pub summaries : State → List RunSummary
summaries s = map (λ e. e.1) s.results

-- The send on `completed` does not block, even if nobody has read from the channel yet.
abbrev pub has_room : Option ℕ → ℕ → Bool
has_room none sent = true
has_room (some cap) sent = ltb sent cap

abbrev pub refusal : Pool → State → Option Bytes
refusal p s = elim p.pre_dispatch [ none ↦ none | some f ↦ f (length s.pending) (summaries s) ]

-- Slots taken of the semaphore.
abbrev pub slots : State → ℕ
slots s = length s.working + s.releasing

abbrev pub start : List PoolExec → State
start tasks = record {
  phase = checking;
  pending = tasks;
  working = [];
  releasing = 0;
  results = [];
  cancelled = none;
}

-- The check up front: none is the refusal to dispatch.
abbrev pub admitted : Option ℕ → List PoolExec → Option State
admitted none tasks = some (start tasks)
admitted (some cap) tasks = if ltb cap (length tasks) then none else some (start tasks)

unfoldable pub run_pool : Pool → List PoolExec → Option State
run_pool p tasks = admitted p.completed_cap tasks

pub data Step (p : Pool) (s : State) : State → Type 0 where
  admit :
      (t : PoolExec) (ts : List PoolExec)
      → s.phase ≡ checking
      → s.pending ≡ t ∷ ts
      → refusal p s ≡ none
      → Step p s (record s { phase = selecting })
  refuse :
      (t : PoolExec) (ts : List PoolExec) (cause : Bytes)
      → s.phase ≡ checking
      → s.pending ≡ t ∷ ts
      → refusal p s ≡ some cause
      → Step p s (record s { phase = skipping cause })
  acquire :
      (t : PoolExec) (ts : List PoolExec)
      → s.phase ≡ selecting
      → s.pending ≡ t ∷ ts
      → slots s < p.max_parallel
      → Step p s (record s { phase = checking; pending = ts; working = t ∷ s.working })
  give_up :
      (cause : Bytes)
      → s.phase ≡ selecting
      → s.cancelled ≡ some cause
      → Step p s (record s { phase = skipping cause })
  skip_one :
      (t : PoolExec) (ts : List PoolExec) (cause : Bytes)
      → s.phase ≡ skipping cause
      → s.pending ≡ t ∷ ts
      → has_room p.completed_cap (length s.results) ≡ true
      → Step p s
          (record s { pending = ts; results = s.results ++ (t, skipped_summary t cause) ∷ [] })
  finish :
      (before : List PoolExec) (t : PoolExec) (after : List PoolExec)
      → s.working ≡ before ++ t ∷ after
      → has_room p.completed_cap (length s.results) ≡ true
      → Step p s (record s {
        working = before ++ after;
        releasing = s.releasing + 1;
        results = s.results ++ (t, work p (length s.results) t) ∷ [];
      })
  release : (n : ℕ) → s.releasing ≡ n + 1 → Step p s (record s { releasing = n })
  cancel : (cause : Bytes) → s.cancelled ≡ none → Step p s (record s { cancelled = some cause })

-- What the pool can get to.
pub data Steps (p : Pool) (s : State) : State → Type 0 where
  stay : Steps p s s
  then : {t u : State} → Steps p s t → Step p t u → Steps p s u

-- The loop has ended and `wg.Wait()` returns.
abbrev pub Done : State → Type 0
Done s = (s.pending ≡ []) × (s.working ≡ []) × (s.releasing ≡ 0)
