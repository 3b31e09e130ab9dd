-- ===== src/Prompts/Assembler/Sorting.antt =====
-- `sort.Strings`: strings compare byte by byte.
use ateam.Prelude.{Bool, true, false, List, [], ◌∷◌, Bytes, ltb, ◌==◌, if◌then◌else◌}

unfoldable pub less : Bytes → Bytes → Bool
less [] [] = false
less [] (y ∷ b) = true
less (x ∷ a) [] = false
less (x ∷ a) (y ∷ b) =
    let rest = less a b in if ltb x y then true else if x == y then rest else false

unfoldable pub insert_string : Bytes → List Bytes → List Bytes
unfolding less
insert_string x [] = x ∷ []
insert_string x (y ∷ ys) =
    let rest = insert_string x ys in if less y x then y ∷ rest else x ∷ (y ∷ ys)

unfoldable pub sort_strings : List Bytes → List Bytes
unfolding insert_string
sort_strings [] = []
sort_strings (x ∷ xs) = insert_string x (sort_strings xs)
