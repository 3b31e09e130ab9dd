-- ===== src/Flow/Compose/Pipelines.antt =====
-- Where a pipeline stops.
use ateam.Prelude.{
  ℕ, zero, suc, ◌+◌, true, false, Option, none, some, List, [], ◌∷◌, ◌≡◌, refl, Bool-cases, inl,
  inr, arith, All, Member, first, later, ◌⊎◌,
}
use ateam.Flow.Types.{
  Step, Steps, nil, cons, name, StepOutcome, Result, continue, skip, error, is_error, is_error-true,
  is_error-false,
}
use ateam.Flow.Compose.{has_error, one_step, skipped_step}

-- All steps from here on are marked skipped, in order, and have no results.
abbrev AllSkipped : Steps → List StepOutcome → Type 0
AllSkipped nil [] = Unit
AllSkipped nil (o ∷ os) = ⊥
AllSkipped (cons s ss) [] = ⊥
AllSkipped (cons s ss) (o ∷ os) = (o ≡ skipped_step (name s)) × AllSkipped ss os

-- Some result is in the error state, or all of them are in another one.
abbrev pub AnyError : List Result → Type 0
AnyError rs = (r : Result) × Member r rs × (r.flow.state ≡ error)

abbrev pub NoError : List Result → Type 0
NoError rs = All (λ r. (r.flow.state ≡ continue) ⊎ (r.flow.state ≡ skip)) rs

pub has_error-AnyError : (rs : List Result) → has_error rs ≡ true → AnyError rs
unfolding has_error
has_error-AnyError [] h = cc
has_error-AnyError (r ∷ rs) h = elim (Bool-cases (is_error r.flow.state)) [
  | inl bad ↦ (r, first refl, is_error-true r.flow.state bad)
  | inr well ↦
      let rest : has_error rs ≡ true = ground arith in
      let (q, m, e) = has_error-AnyError rs rest in (q, later m, e)
]

pub has_error-NoError : (rs : List Result) → has_error rs ≡ false → NoError rs
unfolding has_error
has_error-NoError [] h = tt
has_error-NoError (r ∷ rs) h = elim (Bool-cases (is_error r.flow.state)) [
  | inl bad ↦ absurd (ground arith)
  | inr well ↦
      let rest : has_error rs ≡ false = ground arith in
      (is_error-false r.flow.state well, has_error-NoError rs rest)
]

-- The outcomes of a pipeline whose `FirstErrorIndex` is given: the steps before it ran without an
-- error result, the step there has one, and the steps behind it were skipped.
abbrev pub StopsAt : (ℕ → Step → List Result) → ℕ → Steps → List StepOutcome → Option ℕ → Type 0
StopsAt ran i nil [] none = Unit
StopsAt ran i nil _ _ = ⊥
StopsAt ran i (cons s ss) [] index = ⊥
StopsAt ran i (cons s ss) (o ∷ os) none =
    (o ≡ one_step (name s) (ran i s)) × NoError o.results × StopsAt ran (i + 1) ss os none
StopsAt ran i (cons s ss) (o ∷ os) (some zero) =
    (o ≡ one_step (name s) (ran i s)) × AnyError o.results × AllSkipped ss os
StopsAt ran i (cons s ss) (o ∷ os) (some (suc k)) =
    (o ≡ one_step (name s) (ran i s)) × NoError o.results × StopsAt ran (i + 1) ss os (some k)
