-- ===== src/Runner/Pool/Finish.antt =====
-- The pool comes to an end, whatever the agents return, and leaves one summary for every task.
use ateam.Prelude.{
  ℕ, suc, zero, ◌+◌, ◌*◌, ◌≤◌, ◌<◌, Bytes, Bool, true, Option, none, some, List, [], ◌∷◌, ◌≡◌, refl,
  sym, ap, ◌∙◌, arith, length, count, length-append, count_all, ◌⊎◌, inl, inr, Option-cases,
}
use mathlib.Core.Path.{subst}
use ateam.Runner.Pool.{
  Pool, PoolExec, State, Step, Steps, stay, then, admit, refuse, acquire, give_up, skip_one, finish,
  release, cancel, slots, start, run_pool, admitted, Phase, checking, selecting, skipping, Done,
  has_room, refusal,
}
use ateam.Runner.Pool.Slots.{tasks-accounted}

abbrev phase_weight : Phase → ℕ
phase_weight checking = 2
phase_weight selecting = 1
phase_weight (skipping _) = 0

abbrev cancel_weight : Option Bytes → ℕ
cancel_weight none = 1
cancel_weight (some _) = 0

-- A bound on the steps that are left.
abbrev measure : State → ℕ
measure s =
    6 * length s.pending
    + phase_weight s.phase
    + 2 * length s.working
    + s.releasing
    + cancel_weight s.cancelled

step-measure : (p : Pool) (s t : State) → Step p s t → measure t < measure s
step-measure p s t (admit x xs hp hx h) = omega (arith, ap phase_weight hp)
step-measure p s t (refuse x xs cause hp hx h) = omega (arith, ap phase_weight hp)
step-measure p s t (acquire x xs hp hx h) = omega (arith, ap phase_weight hp, ap length hx)
step-measure p s t (give_up cause hp h) = omega (arith, ap phase_weight hp)
step-measure p s t (skip_one x xs cause hp hx h) = omega (arith, ap length hx)
step-measure p s t (finish before x after hx h) =
    omega (arith, ap length hx, length-append before (x ∷ after), length-append before after)
step-measure p s t (release n h) = omega arith
step-measure p s t (cancel cause h) = omega (arith, ap cancel_weight h)

abbrev pub steps_taken : {p : Pool} {s t : State} → Steps p s t → ℕ
steps_taken stay = 0
steps_taken (then h l) = suc (steps_taken h)

taken-measure :
    (p : Pool) (s t : State) (run : Steps p s t) → steps_taken run + measure t ≤ measure s
taken-measure p s t stay = omega arith
taken-measure p s t (then {t = u} h l) = omega (arith, taken-measure p s u h, step-measure p u t l)

-- No run of the pool is longer than six steps for each task and three more, so the dispatch loop
-- and the workers cannot go on for ever.
pub steps-bounded :
    (p : Pool) (tasks : List PoolExec) (s : State) (run : Steps p (start tasks) s)
    → steps_taken run ≤ 6 * length tasks + 3
steps-bounded p tasks s run = omega (arith, taken-measure p (start tasks) s run)

-- The buffer of `completed`, if there is one, holds a summary for each task.
abbrev Roomy : Option ℕ → ℕ → Type 0
Roomy none n = Unit
Roomy (some cap) n = n ≤ cap

Roomy-room : (cap : Option ℕ) (n sent : ℕ) → Roomy cap n → sent < n → has_room cap sent ≡ true
Roomy-room none n sent r h = refl
Roomy-room (some cap) n sent r h = ground arith

-- The pool itself has a step to take: the context is not cancelled by it, which the environment
-- alone does.
abbrev pub Moves : Pool → State → Type 0
Moves p s = (t : State) × Step p s t × (t.cancelled ≡ s.cancelled)

check-Moves :
    (p : Pool) (s : State) (x : PoolExec) (xs : List PoolExec)
    → s.phase ≡ checking
    → s.pending ≡ x ∷ xs
    → Moves p s
check-Moves p s x xs hp hx = elim (Option-cases (refusal p s)) [
  | inl free ↦ (_, admit x xs hp hx free, refl)
  | inr (cause, h) ↦ (_, refuse x xs cause hp hx h, refl)
]

loop-Moves :
    (p : Pool) (s : State) (ph : Phase) (x : PoolExec) (xs : List PoolExec)
    → s.phase ≡ ph
    → s.pending ≡ x ∷ xs
    → slots s ≡ 0
    → 0 < p.max_parallel
    → has_room p.completed_cap (length s.results) ≡ true
    → Moves p s
loop-Moves p s checking x xs hp hx free pos room = check-Moves p s x xs hp hx
loop-Moves p s selecting x xs hp hx free pos room = (_, acquire x xs hp hx (omega arith), refl)
loop-Moves p s (skipping cause) x xs hp hx free pos room = (_, skip_one x xs cause hp hx room, refl)

-- Unless it has ended the pool has a step: the slot of a finished worker is released first, then
-- those at work finish, then the loop goes on.
moves :
    (p : Pool) (s : State) (pending working : List PoolExec) (releasing n : ℕ)
    → s.pending ≡ pending
    → s.working ≡ working
    → s.releasing ≡ releasing
    → 0 < p.max_parallel
    → Roomy p.completed_cap n
    → length s.pending + length s.working + length s.results ≡ n
    → Done s ⊎ Moves p s
moves p s pending working (suc k) n hp hw hr pos room total = inr (_, release k (omega arith), refl)
moves p s pending (x ∷ xs) zero n hp hw hr pos room total = inr (
  _,
  finish [] x xs hw
      (Roomy-room p.completed_cap n (length s.results) room (omega (arith, ap length hw))),
  refl,
)
moves p s (x ∷ xs) [] zero n hp hw hr pos room total = inr (
    loop-Moves p s s.phase x xs refl hp (omega (arith, ap length hw)) pos
      (Roomy-room p.completed_cap n (length s.results) room (omega (arith, ap length hp))))
moves p s [] [] zero n hp hw hr pos room total = inl (hp, hw, hr)

lengths-accounted :
    (p : Pool) (tasks : List PoolExec) (s : State)
    → Steps p (start tasks) s
    → length s.pending + length s.working + length s.results ≡ length tasks
lengths-accounted p tasks s h = omega (
  arith,
  tasks-accounted p (λ _. true) tasks s h,
  count_all s.pending,
  count_all s.working,
  count_all s.results,
  count_all tasks,
)

progress :
    (p : Pool) (tasks : List PoolExec) (s : State)
    → 0 < p.max_parallel
    → Roomy p.completed_cap (length tasks)
    → Steps p (start tasks) s
    → Done s ⊎ Moves p s
progress p tasks s pos room h =
    moves p s s.pending s.working s.releasing (length tasks) refl refl refl pos room
      (lengths-accounted p tasks s h)

admitted-Roomy :
    (cap : Option ℕ) (tasks : List PoolExec) (s : State)
    → admitted cap tasks ≡ some s
    → (start tasks ≡ s) × Roomy cap (length tasks)
admitted-Roomy none tasks s h = ground arith
admitted-Roomy (some cap) tasks s h = ground arith

-- A pool that was not refused for an undersized channel, with a slot at least, never blocks: in
-- every state that it gets to, also after a panic, a refusal or a cancelled context, it is at its
-- end, or the dispatch loop or a worker has a step to take, one that leaves the context as it is;
-- so no state waits for a cancellation.
pub pool-progress :
    (p : Pool) (tasks : List PoolExec) (s0 s : State)
    → 0 < p.max_parallel
    → run_pool p tasks ≡ some s0
    → Steps p s0 s
    → Done s ⊎ Moves p s
unfolding run_pool
pool-progress p tasks s0 s pos h run =
    let (same, room) = admitted-Roomy p.completed_cap tasks s0 h in
    progress p tasks s pos room (subst (λ z. Steps p z s) (sym same) run)

append-Steps : {p : Pool} {s t u : State} → Step p s t → Steps p t u → Steps p s u
append-Steps h stay = then stay h
append-Steps h (then r l) = then (append-Steps h r) l

-- A run to the end, without a cancellation on the way.
abbrev Ends : Pool → State → Type 0
Ends p s = (t : State) × Steps p s t × Done t × (t.cancelled ≡ s.cancelled)

pool_run :
    (p : Pool) (tasks : List PoolExec) (fuel : ℕ) (s : State)
    → 0 < p.max_parallel
    → Roomy p.completed_cap (length tasks)
    → measure s ≤ fuel
    → Steps p (start tasks) s
    → Ends p s
pool_run p tasks zero s pos room le h = elim (progress p tasks s pos room h) [
  | inl done ↦ (s, stay, done, refl)
  | inr (t, l, same) ↦ absurd (omega (arith, step-measure p s t l))
]
pool_run p tasks (suc fuel) s pos room le h = elim (progress p tasks s pos room h) [
  | inl done ↦ (s, stay, done, refl)
  | inr (t, l, same) ↦
      let (u, r, done, keeps) =
        pool_run p tasks fuel t pos room (omega (arith, step-measure p s t l)) (then h l) in
      (u, append-Steps l r, done, keeps ∙ same)
]

Done-count :
    (p : Pool) (q : PoolExec → Bool) (tasks : List PoolExec) (s : State)
    → Steps p (start tasks) s
    → Done s
    → count (λ e. q e.0) s.results ≡ count q tasks
Done-count p q tasks s h (hp, hw, hr) =
    omega (arith, tasks-accounted p q tasks s h, ap (count q) hp, ap (count q) hw)

-- A pool that was not refused for an undersized channel, with a slot at least, can be run to its
-- end from every state that it gets to, whatever was refused or panicked on the way, by steps of
-- the dispatch loop and of the workers alone: the context is in the end as it was.
pub pool-finishes :
    (p : Pool) (tasks : List PoolExec) (s0 s : State)
    → 0 < p.max_parallel
    → run_pool p tasks ≡ some s0
    → Steps p s0 s
    → (t : State) × Steps p s t × Done t × (t.cancelled ≡ s.cancelled)
unfolding run_pool
pool-finishes p tasks s0 s pos h run =
    let (same, room) = admitted-Roomy p.completed_cap tasks s0 h in
    pool_run p tasks (measure s) s pos room (omega arith) (subst (λ z. Steps p z s) (sym same) run)

-- Wherever a pool ends it has recorded exactly one summary for each task, dispatched or skipped:
-- the tasks of its summaries and those of the batch have equal counts under every test.
pub pool_complete :
    (p : Pool) (tasks : List PoolExec) (s0 s : State) (q : PoolExec → Bool)
    → run_pool p tasks ≡ some s0
    → Steps p s0 s
    → Done s
    → count (λ e. q e.0) s.results ≡ count q tasks
unfolding run_pool
pool_complete p tasks s0 s q h run done =
    let (same, room) = admitted-Roomy p.completed_cap tasks s0 h in
    Done-count p q tasks s (subst (λ z. Steps p z s) (sym same) run) done
