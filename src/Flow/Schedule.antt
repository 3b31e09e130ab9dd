-- ===== src/Flow/Schedule.antt =====
-- The interleavings of `Parallel.runConcurrently` of internal/flow/flow.go: in which order the
-- workers append their results under the mutex, and in which order they call the reporter.
use ateam.Prelude.{
  ℕ, zero, suc, ◌+◌, Bool, true, false, List, [], ◌∷◌, ◌++◌, ◌≡◌, refl, arith, concat, count,
  count-append,
}
use ateam.Flow.Types.{Moment}

-- What the goroutines of a stage with so many workers decide: behind how many of the later steps'
-- results those of a step are appended, and whose turn it is when the calls of a step and those of
-- the later steps meet, true for the step. Every order of appends and every interleaving of calls
-- is given by such choices; so are some that the semaphore rules out.
pub record Scheduler : Type 0 where
  pub overtaken : Moment → ℕ → ℕ → ℕ
  pub turns : Moment → ℕ → ℕ → List Bool

-- The results so far with those of one more step, which so many others overtake.
unfoldable pub emit {ℓ} : {A : Type ℓ} → ℕ → List A → List (List A) → List (List A)
emit zero rs chunks = rs ∷ chunks
emit (suc k) rs [] = rs ∷ []
emit (suc k) rs (c ∷ chunks) = c ∷ emit k rs chunks

unfoldable pub emit_all {ℓ} : {A : Type ℓ} → (ℕ → ℕ) → ℕ → List (List A) → List (List A)
unfolding emit
emit_all by i [] = []
emit_all by i (c ∷ chunks) = emit (by i) c (emit_all by (i + 1) chunks)

-- Two sequences of calls, by turns until the turns are used up.
unfoldable pub weave {ℓ} : {A : Type ℓ} → List Bool → List A → List A → List A
weave [] xs ys = xs ++ ys
weave (b ∷ bs) [] ys = ys
weave (true ∷ bs) (x ∷ xs) ys = x ∷ weave bs xs ys
weave (false ∷ bs) (x ∷ xs) [] = x ∷ xs
weave (false ∷ bs) (x ∷ xs) (y ∷ ys) = y ∷ weave bs (x ∷ xs) ys

unfoldable pub weave_all {ℓ} : {A : Type ℓ} → (ℕ → List Bool) → ℕ → List (List A) → List A
unfolding weave
weave_all by i [] = []
weave_all by i (l ∷ logs) = weave (by i) l (weave_all by (i + 1) logs)

count-emit {ℓ} :
    {A : Type ℓ} (p : A → Bool) (k : ℕ) (rs : List A) (chunks : List (List A))
    → count p (concat (emit k rs chunks)) ≡ count p rs + count p (concat chunks)
unfolding emit
count-emit p zero rs chunks = count-append p rs (concat chunks)
count-emit p (suc k) rs [] = count-append p rs []
count-emit p (suc k) rs (c ∷ chunks) = omega (
  arith,
  count-append p c (concat (emit k rs chunks)),
  count-append p c (concat chunks),
  count-emit p k rs chunks,
)

-- However the workers overtake each other, no result is lost and none is added.
pub count-emit_all {ℓ} :
    {A : Type ℓ} (p : A → Bool) (by : ℕ → ℕ) (i : ℕ) (chunks : List (List A))
    → count p (concat (emit_all by i chunks)) ≡ count p (concat chunks)
unfolding emit_all
count-emit_all p by i [] = refl
count-emit_all p by i (c ∷ chunks) = omega (
  arith,
  count-emit p (by i) c (emit_all by (i + 1) chunks),
  count-emit_all p by (i + 1) chunks,
  count-append p c (concat chunks),
)

count-weave {ℓ} :
    {A : Type ℓ} (p : A → Bool) (bs : List Bool) (xs ys : List A)
    → count p (weave bs xs ys) ≡ count p xs + count p ys
unfolding weave
count-weave p [] xs ys = count-append p xs ys
count-weave p (b ∷ bs) [] ys = omega arith
count-weave p (true ∷ bs) (x ∷ xs) ys = ground (arith, count-weave p bs xs ys)
count-weave p (false ∷ bs) (x ∷ xs) [] = omega arith
count-weave p (false ∷ bs) (x ∷ xs) (y ∷ ys) = ground (arith, count-weave p bs (x ∷ xs) ys)

-- However the calls interleave, none is lost and none is added.
pub count-weave_all {ℓ} :
    {A : Type ℓ} (p : A → Bool) (by : ℕ → List Bool) (i : ℕ) (logs : List (List A))
    → count p (weave_all by i logs) ≡ count p (concat logs)
unfolding weave_all
count-weave_all p by i [] = refl
count-weave_all p by i (l ∷ logs) = omega (
  arith,
  count-weave p (by i) l (weave_all by (i + 1) logs),
  count-weave_all p by (i + 1) logs,
  count-append p l (concat logs),
)
