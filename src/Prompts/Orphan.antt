-- ===== src/Prompts/Orphan.antt =====
-- internal/prompts/assembler/orphan.go: the hint that goes with a fragment without a role. Orphan.Find
-- has the search for such fragments.
pub mod Distance
pub mod Hint
pub mod Find
use ateam.Prelude.{
  ℕ, ◌+◌, ◌/◌, Option, none, some, List, [], ◌∷◌, Bytes, length, ltb, ◌==◌, is_empty, if◌then◌else◌,
}

unfoldable pub min3 : ℕ → ℕ → ℕ → ℕ
min3 a b c = let m = if ltb b a then b else a in if ltb c m then c else m

-- The inner loop from some column on: the entry to the left, the byte of the row, the rest of the
-- row above from the entry above the left one on, and the bytes of the columns.
unfoldable pub fill : ℕ → ℕ → List ℕ → Bytes → List ℕ
unfolding min3
fill left x (diagonal ∷ (above ∷ prev)) (y ∷ ys) =
    let d = min3 (above + 1) (left + 1) (diagonal + (if x == y then 0 else 1)) in
    d ∷ fill d x (above ∷ prev) ys
fill left x _ _ = []

-- `prev[j] = j`
unfoldable pub first_row : ℕ → Bytes → List ℕ
first_row j [] = j ∷ []
first_row j (y ∷ ys) = j ∷ first_row (j + 1) ys

-- The outer loop from row `i` on.
unfoldable pub fill_rows : ℕ → List ℕ → Bytes → Bytes → List ℕ
unfolding fill
fill_rows i prev [] b = prev
fill_rows i prev (x ∷ a) b = fill_rows (i + 1) (i ∷ fill i x prev b) a b

-- `prev[lb]`
abbrev pub last_entry : List ℕ → ℕ
last_entry [] = 0
last_entry (n ∷ []) = n
last_entry (n ∷ (k ∷ row)) = last_entry (k ∷ row)

unfoldable pub levenshtein : Bytes → Bytes → ℕ
unfolding fill_rows first_row
levenshtein a b =
    if is_empty a
    then length b
    else if is_empty b
    then length a
    else last_entry (fill_rows 1 (first_row 0 b) a b)

-- `best` and `bestDist`; none for a `bestDist` below 0.
abbrev pub Best : Type 0
Best = Option (Bytes × ℕ)

unfoldable pub improve : ℕ → Best → Bytes → ℕ → Best
improve threshold best c d =
    if ltb threshold d
    then best
    else elim best [ none ↦ some (c, d) | some e ↦ if ltb d e.1 then some (c, d) else some e ]

unfoldable pub closest : Bytes → ℕ → Best → List Bytes → Best
unfolding improve levenshtein
closest target threshold best [] = best
closest target threshold best (c ∷ cs) =
    closest target threshold (improve threshold best c (levenshtein target c)) cs

abbrev pub best_name : Best → Bytes
best_name none = []
best_name (some e) = e.0

unfoldable pub closest_role : Bytes → List Bytes → Bytes
unfolding closest
closest_role target candidates = best_name (closest target (length target / 2 + 1) none candidates)
