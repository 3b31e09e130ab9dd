-- ===== src/Prelude/FilePath.antt =====
-- `filepath.Clean` and `filepath.Join` of Go's standard library, for slash-separated paths.
use mathlib.Core.Bool.{Bool, ◌||◌, ◌&&◌}
use mathlib.Core.List.{List, [], ◌∷◌, ◌++◌, reverse}
use ateam.Prelude.Tests.{◌==◌, if◌then◌else◌}
use ateam.Prelude.Text.{Bytes, codes, eq, is_empty, has_prefix, split, join, trim_right}

-- The elements kept so far, the last first.
clean_onto : Bool → List Bytes → List Bytes → List Bytes
clean_onto rooted out [] = out
clean_onto rooted out (p ∷ ps) = clean_onto rooted (next out) ps
  where
    next : List Bytes → List Bytes
    next [] = if is_empty p || eq p (codes ".") || (rooted && eq p (codes "..")) then [] else p ∷ []
    next (q ∷ qs) =
        if is_empty p || eq p (codes ".")
        then q ∷ qs
        else if eq p (codes "..")
        then (if eq q (codes "..") then p ∷ q ∷ qs else qs)
        else p ∷ q ∷ qs

unfoldable pub clean : Bytes → Bytes
unfolding clean_onto
clean path =
    let rooted = has_prefix path (codes "/") in
    let kept = join (codes "/") (reverse (clean_onto rooted [] (split b'/' path))) in
    if rooted then codes "/" ++ kept else if is_empty kept then codes "." else kept

drop_empty : List Bytes → List Bytes
drop_empty [] = []
drop_empty (p ∷ ps) = let rest = drop_empty ps in if is_empty p then rest else p ∷ ps

unfoldable pub join_path : List Bytes → Bytes
unfolding clean drop_empty
join_path parts =
    let kept = drop_empty parts in if is_empty kept then [] else clean (join (codes "/") kept)

-- `filepath.Dir` and `filepath.Base`
but_last : List Bytes → List Bytes
but_last [] = []
but_last (p ∷ []) = [] ∷ []
but_last (p ∷ (q ∷ ps)) = p ∷ but_last (q ∷ ps)

last_part : List Bytes → Bytes
last_part [] = []
last_part (p ∷ []) = p
last_part (p ∷ (q ∷ ps)) = last_part (q ∷ ps)

unfoldable pub dir_path : Bytes → Bytes
unfolding clean but_last
dir_path path = clean (join (codes "/") (but_last (split b'/' path)))

unfoldable pub base_name : Bytes → Bytes
unfolding last_part
base_name path =
    let kept = trim_right (λ c. c == b'/') path in
    if is_empty path
    then codes "."
    else if is_empty kept
    then codes "/"
    else last_part (split b'/' kept)
