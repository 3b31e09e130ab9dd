-- ===== src/Flow/Trace.antt =====
-- A computation that makes calls and may panic: the calls made, in order, and how it ended.
use ateam.Prelude.{List, [], ◌∷◌, ◌++◌}
use ateam.Runner.Types.{Call, returns, panics}
use ateam.Flow.Types.{Event}

abbrev pub M : Type 0 → Type 0
M A = Call A × List Event

infixl 5 ◌>>=◌ ◌>>◌
abbrev pub ◌>>=◌ : {A B : Type 0} → M A → (A → M B) → M B
(returns a, calls) >>= next = ((next a).0, calls ++ (next a).1)
(panics v, calls) >>= next = (panics v, calls)

abbrev pub ◌>>◌ : {B : Type 0} → M (Unit {0}) → M B → M B
before >> after = before >>= λ _. after

abbrev pub pure : {A : Type 0} → A → M A
pure a = (returns a, [])

abbrev pub report : Event → M (Unit {0})
report e = (returns tt, e ∷ [])

abbrev pub call : {A : Type 0} → Call A → M A
call c = (c, [])
