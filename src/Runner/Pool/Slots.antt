-- ===== src/Runner/Pool/Slots.antt =====
-- What holds in every state of the pool: its bounds, and that no task is lost or run twice.
use ateam.Prelude.{
  ℕ, ◌+◌, ◌≤◌, Bool, List, [], ◌∷◌, ◌≡◌, refl, ap, ◌∙◌, arith, length, count, count-append, map,
  length-append, Bytes, codes, true, Option, none, some, ◌++◌, ◌⊎◌, inl, inr, All, All-append,
}
use ateam.Runner.Pool.{
  Pool, PoolExec, State, Step, Steps, stay, then, admit, refuse, acquire, give_up, skip_one,
  skipped_summary, finish, release, cancel, slots, start, Entry, work, AgentExecutor, summary_of,
  panic_summary, task_runner,
}
use ateam.Prelude.Int.{negsuc}
use ateam.Runner.Types.{RunSummary, Call, returns, panics, panicked, Error}

abbrev tasks_of : List Entry → List PoolExec
tasks_of es = map (λ e. e.0) es

map-count : (q : PoolExec → Bool) (es : List Entry) → count (λ e. q e.0) es ≡ count q (tasks_of es)
map-count q [] = refl
map-count q (e ∷ es) = ground (arith, map-count q es)

-- Tasks that pass a test: waiting, at work, or with a summary.
abbrev tasks_in : (PoolExec → Bool) → State → ℕ
tasks_in q s = count q s.pending + count q s.working + count (λ e. q e.0) s.results

step-tasks :
    (p : Pool) (q : PoolExec → Bool) (s t : State) → Step p s t → tasks_in q t ≡ tasks_in q s
step-tasks p q s t (admit x xs hp hx h) = refl
step-tasks p q s t (refuse x xs cause hp hx h) = refl
step-tasks p q s t (acquire x xs hp hx h) = rw hx (omega arith)
step-tasks p q s t (give_up cause hp h) = refl
step-tasks p q s t (skip_one x xs cause hp hx h) =
    rw (hx, count-append (λ e. q e.0) s.results ((x, _) ∷ [])) (omega arith)
step-tasks p q s t (finish before x after hx h) =
    rw
      (
        hx,
        count-append q before (x ∷ after),
        count-append q before after,
        count-append (λ e. q e.0) s.results ((x, work p (length s.results) x) ∷ []),
      )
      (omega arith)
step-tasks p q s t (release n h) = refl
step-tasks p q s t (cancel cause h) = refl

step-slots :
    (p : Pool) (s t : State) → Step p s t → slots s ≤ p.max_parallel → slots t ≤ p.max_parallel
step-slots p s t (admit x xs hp hx h) b = b
step-slots p s t (refuse x xs cause hp hx h) b = b
step-slots p s t (acquire x xs hp hx h) b = omega arith
step-slots p s t (give_up cause hp h) b = b
step-slots p s t (skip_one x xs cause hp hx h) b = b
step-slots p s t (finish before x after hx h) b =
    omega (arith, ap length hx, length-append before (x ∷ after), length-append before after)
step-slots p s t (release n h) b = omega arith
step-slots p s t (cancel cause h) b = b

-- However the dispatch loop and the workers interleave, never more than `maxParallel` workers
-- hold a slot.
pub slots-bounded :
    (p : Pool) (tasks : List PoolExec) (s : State)
    → Steps p (start tasks) s
    → slots s ≤ p.max_parallel
slots-bounded p tasks s stay = omega arith
slots-bounded p tasks s (then h l) = step-slots p _ s l (slots-bounded p tasks _ h)

-- In every state each task of the batch is in exactly one place: waiting, at work, or with a
-- summary; this is said by counting the tasks that pass any given test.
pub tasks-accounted :
    (p : Pool) (q : PoolExec → Bool) (tasks : List PoolExec) (s : State)
    → Steps p (start tasks) s
    → count q s.pending + count q s.working + count (λ e. q e.0) s.results ≡ count q tasks
tasks-accounted p q tasks s stay = omega arith
tasks-accounted p q tasks s (then {t = t} h l) =
    step-tasks p q t s l ∙ tasks-accounted p q tasks t h

-- The executor that a task is given to: its own, or else the shared one.
abbrev Asked : Pool → PoolExec → AgentExecutor → Type 0
Asked p t f = (t.agent_executor ≡ some f) ⊎ ((t.agent_executor ≡ none) × (f ≡ p.executor))

-- A summary that was made up for a task, of a given source, cause and error.
abbrev Failed : PoolExec → RunSummary → Bytes → Bytes → Option Error → Type 0
Failed t s source cause e =
    (s.role_id ≡ t.run_opts.role_id)
    × (s.exit_code ≡ negsuc 0)
    × (s.output ≡ [])
    × (s.is_error ≡ true)
    × (s.error_source ≡ source)
    × (s.error_cause ≡ cause)
    × (s.err ≡ e)

-- What an executor returned is the summary; what it panicked with is in the cause, with the stack.
abbrev Recorded : Pool → PoolExec → RunSummary → Call RunSummary → Type 0
Recorded p t s (returns r) = s ≡ r
Recorded p t s (panics v) =
    Failed t s (codes "ateam_internal") (codes "panic: " ++ (v ++ (codes "\n\n" ++ p.stack)))
      (some (panicked v))

-- A summary is what its executor made of the task, or says that the task was skipped.
abbrev pub Earned : Pool → Entry → Type 0
Earned p (t, s) =
    ((f : AgentExecutor) × (time : ℕ) × Asked p t f
      × Recorded p t s (f.execute time t.prompt t.run_opts))
    ⊎ ((cause : Bytes) × Failed t s (codes "skipped") (codes "skipped: " ++ cause) none)

summary_of-Recorded :
    (p : Pool) (t : PoolExec) (c : Call RunSummary) → Recorded p t (summary_of p t c) c
unfolding panic_summary
summary_of-Recorded p t (returns r) = refl
summary_of-Recorded p t (panics v) = (refl, refl, refl, refl, refl, refl, refl)

task_runner-Asked :
    (p : Pool) (t : PoolExec) (own : Option AgentExecutor)
    → t.agent_executor ≡ own
    → Asked p t (task_runner own p.executor)
task_runner-Asked p t none h = inr (h, refl)
task_runner-Asked p t (some f) h = inl h

work-Earned : (p : Pool) (time : ℕ) (t : PoolExec) → Earned p (t, work p time t)
unfolding work
work-Earned p time t = inl (
    (
      task_runner t.agent_executor p.executor,
      time,
      task_runner-Asked p t t.agent_executor refl,
      summary_of-Recorded p t
          ((task_runner t.agent_executor p.executor).execute time t.prompt t.run_opts),
    ))

skipped-Earned : (p : Pool) (t : PoolExec) (cause : Bytes) → Earned p (t, skipped_summary t cause)
unfolding skipped_summary
skipped-Earned p t cause = inr (cause, (refl, refl, refl, refl, refl, refl, refl))

step-Earned :
    (p : Pool) (s t : State) → Step p s t → All (Earned p) s.results → All (Earned p) t.results
step-Earned p s t (skip_one x xs cause hp hx h) a =
    All-append (Earned p) s.results ((x, skipped_summary x cause) ∷ []) a
      (skipped-Earned p x cause, tt)
step-Earned p s t (finish before x after hx h) a =
    All-append (Earned p) s.results ((x, work p (length s.results) x) ∷ []) a
      (work-Earned p (length s.results) x, tt)
step-Earned p s t (admit x xs hp hx h) a = a
step-Earned p s t (refuse x xs cause hp hx h) a = a
step-Earned p s t (acquire x xs hp hx h) a = a
step-Earned p s t (give_up cause hp h) a = a
step-Earned p s t (release n h) a = a
step-Earned p s t (cancel cause h) a = a

-- Each summary was earned by its task: it is what the task's own executor, or the shared one if
-- the task has none, returned on the task's prompt and options; or that executor panicked, and the
-- summary is an error of source `ateam_internal`, with exit code -1 and the task's role, whose
-- cause has the panic's value and the stack; or it is an error of source `skipped`, with exit code
-- -1, the task's role and the cause of the skip.
pub results-Earned :
    (p : Pool) (tasks : List PoolExec) (s : State)
    → Steps p (start tasks) s
    → All (Earned p) s.results
results-Earned p tasks s stay = tt
results-Earned p tasks s (then {t = t} h l) = step-Earned p t s l (results-Earned p tasks t h)
