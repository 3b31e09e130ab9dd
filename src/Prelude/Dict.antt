-- ===== src/Prelude/Dict.antt =====
-- A Go map with string keys as an association list: one binding for a key.
use mathlib.Core.Path.{◌≡◌, refl}
use mathlib.Core.List.{List, [], ◌∷◌}
use mathlib.Core.Option.{Option, none, some}
use native.Mathlib.Omega.{arith}
use ateam.Prelude.Tests.{if◌then◌else◌}
use ateam.Prelude.Text.{Bytes, eq, eq_iff, eq_refl}

abbrev pub Dict {ℓ} : Type ℓ → Type ℓ
Dict V = List (Bytes × V)

module _ {ℓ} {V : Type ℓ} where
  unfoldable pub lookup : Bytes → Dict V → Option V
  lookup k [] = none
  lookup k ((j, v) ∷ m) = if eq j k then some v else lookup k m

  unfoldable pub insert : Bytes → V → Dict V → Dict V
  insert k v [] = (k, v) ∷ []
  insert k v ((j, w) ∷ m) = if eq j k then (k, v) ∷ m else (j, w) ∷ insert k v m

  -- A binding replaced or added shows under its own key and under no other.
  pub lookup-insert :
      (new key : Bytes) (value : V) (dict : Dict V)
      → lookup key (insert new value dict) ≡ (if eq new key then some value else lookup key dict)
  unfolding lookup insert
  lookup-insert new key value [] = refl
  lookup-insert new key value ((there, held) ∷ dict) =
      ground (
        arith,
        lookup-insert new key value dict,
        eq_iff there new,
        eq_iff there key,
        eq_iff new key,
      )

  pub lookup-insert_self : (k : Bytes) (v : V) (m : Dict V) → lookup k (insert k v m) ≡ some v
  lookup-insert_self k v m = simp (lookup-insert, eq_refl)
