-- ===== src/Prompts/Orphan/Hint.antt =====
-- The hint is the nearest of the roles that are near enough.
use ateam.Prelude.{
  ℕ, ◌+◌, ◌/◌, ◌≤◌, none, some, List, [], ◌∷◌, ◌≡◌, sym, arith, Bytes, length, Member, first, later,
}
use mathlib.Core.Path.{subst}
use ateam.Prompts.Orphan.{levenshtein, Best, improve, closest, closest_role, best_name}

-- The best so far carries its own distance, which is at most `n`.
abbrev Covers : Bytes → ℕ → Best → Type 0
Covers t n none = ⊥
Covers t n (some e) = (levenshtein t e.0 ≡ e.1) × (e.1 ≤ n)

abbrev Measured : Bytes → Best → Type 0
Measured t none = Unit
Measured t (some e) = levenshtein t e.0 ≡ e.1

improve-Measured :
    (t : Bytes) (threshold : ℕ) (best : Best) (c : Bytes)
    → Measured t best
    → Measured t (improve threshold best c (levenshtein t c))
unfolding improve
improve-Measured t threshold none c h = ground arith
improve-Measured t threshold (some e) c h = ground arith

improve-Covers :
    (t : Bytes) (threshold n : ℕ) (best : Best) (c : Bytes)
    → Covers t n best
    → Covers t n (improve threshold best c (levenshtein t c))
unfolding improve
improve-Covers t threshold n none c h = absurd h
improve-Covers t threshold n (some e) c h = ground arith

improve-Covers_new :
    (t : Bytes) (threshold : ℕ) (best : Best) (c : Bytes)
    → Measured t best
    → levenshtein t c ≤ threshold
    → Covers t (levenshtein t c) (improve threshold best c (levenshtein t c))
unfolding improve
improve-Covers_new t threshold none c h le = ground arith
improve-Covers_new t threshold (some e) c h le = ground arith

closest-Covers :
    (t : Bytes) (threshold n : ℕ) (best : Best) (cs : List Bytes)
    → Covers t n best
    → Covers t n (closest t threshold best cs)
unfolding closest
closest-Covers t threshold n best [] h = h
closest-Covers t threshold n best (c ∷ cs) h =
    closest-Covers t threshold n (improve threshold best c (levenshtein t c)) cs
      (improve-Covers t threshold n best c h)

closest-Member :
    (t : Bytes) (threshold : ℕ) (best : Best) (c : Bytes) (cs : List Bytes)
    → Measured t best
    → Member c cs
    → levenshtein t c ≤ threshold
    → Covers t (levenshtein t c) (closest t threshold best cs)
unfolding closest
closest-Member t threshold best c [] h m le = elim m [ ]
closest-Member t threshold best c (x ∷ cs) h (first e) le =
    closest-Covers t threshold (levenshtein t c) (improve threshold best x (levenshtein t x)) cs (
      subst (λ z. Covers t (levenshtein t z) (improve threshold best x (levenshtein t x))) e
        (improve-Covers_new t threshold best x h
          (subst (λ z. levenshtein t z ≤ threshold) (sym e) le)))
closest-Member t threshold best c (x ∷ cs) h (later m) le =
    closest-Member t threshold (improve threshold best x (levenshtein t x)) c cs
      (improve-Measured t threshold best x h) m le

Covers-name :
    (t : Bytes) (n : ℕ) (best : Best) → Covers t n best → levenshtein t (best_name best) ≤ n
Covers-name t n none h = absurd h
Covers-name t n (some e) h = omega (arith, h.0, h.1)

-- If some candidate is within the threshold, half the length of the name and one, then no such
-- candidate is nearer to the name than the hint.
pub closest_role_nearest :
    (target c : Bytes) (candidates : List Bytes)
    → Member c candidates
    → levenshtein target c ≤ length target / 2 + 1
    → levenshtein target (closest_role target candidates) ≤ levenshtein target c
unfolding closest_role
closest_role_nearest target c candidates m le =
    Covers-name target (levenshtein target c)
      (closest target (length target / 2 + 1) none candidates)
      (closest-Member target (length target / 2 + 1) none c candidates tt m le)
