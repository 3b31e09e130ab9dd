-- ===== src/Config/ProjectId.antt =====
-- internal/config/projectid.go: the names of project directories. A path is a sequence of bytes; the
-- loop over its code points reads a byte that starts no valid UTF-8 sequence as U+FFFD.
pub mod RoundTrip
use ateam.Prelude.{
  ℕ, zero, suc, not, ◌&&◌, ◌+◌, ◌-◌, ◌/◌, ◌%◌, Bool, true, false, ◌||◌, Option, none, some, List,
  [], ◌∷◌, ◌++◌, Bytes, codes, eq, is_empty, length, take, map, ltb, ◌==◌, if◌then◌else◌, split,
}

abbrev pub max_project_id_len : ℕ
max_project_id_len = 240

-- The ranges of the bytes behind the first one of a UTF-8 sequence.
abbrev pub continuation : ℕ → Option (List (ℕ × ℕ))
continuation c =
    if ltb c 128
    then some []
    else if ltb c 194
    then none
    else if ltb c 224
    then some ((128, 191) ∷ [])
    else if c == 224
    then some ((160, 191) ∷ ((128, 191) ∷ []))
    else if c == 237
    then some ((128, 159) ∷ ((128, 191) ∷ []))
    else if ltb c 240
    then some ((128, 191) ∷ ((128, 191) ∷ []))
    else if c == 240
    then some ((144, 191) ∷ ((128, 191) ∷ ((128, 191) ∷ [])))
    else if ltb c 244
    then some ((128, 191) ∷ ((128, 191) ∷ ((128, 191) ∷ [])))
    else if c == 244
    then some ((128, 143) ∷ ((128, 191) ∷ ((128, 191) ∷ [])))
    else none

abbrev pub fits : List (ℕ × ℕ) → Bytes → Bool
fits [] s = true
fits (r ∷ rs) [] = false
fits (r ∷ rs) (c ∷ s) = not (ltb c r.0) && not (ltb r.1 c) && fits rs s

-- The bytes behind the first one of the sequence that a text starts with; none for no sequence.
abbrev pub sequence_tail : ℕ → Bytes → Option ℕ
sequence_tail c s = elim (continuation c) [
  | none ↦ none
  | some rs ↦ if fits rs s then some (length rs) else none
]

-- The code points of a text, each as the bytes that `WriteRune` writes for it; the number counts
-- the bytes that the current one still has.
unfoldable pub runes_from : ℕ → Bytes → Bytes
runes_from n [] = []
runes_from (suc n) (c ∷ s) = c ∷ runes_from n s
runes_from zero (c ∷ s) = elim (sequence_tail c s) [
  | none ↦ 239 ∷ (191 ∷ (189 ∷ runes_from 0 s))
  | some n ↦ c ∷ runes_from n s
]

abbrev pub runes : Bytes → Bytes
runes s = runes_from 0 s

-- The `switch` on a code point: `_` and `/` are single bytes, and no other sequence has them.
unfoldable pub escape : Bytes → Bytes
escape [] = []
escape (c ∷ s) =
    let rest = escape s in
    if c == 95 then 95 ∷ (95 ∷ rest) else if c == 47 then 95 ∷ rest else c ∷ rest

-- The loop over the path, what it writes.
unfoldable pub encode : Bytes → Bytes
unfolding runes_from escape
encode s = escape (runes s)

-- `%x`
unfoldable pub nibble : ℕ → ℕ
nibble n = if ltb n 10 then 48 + n else 87 + n

unfoldable pub hex : Bytes → Bytes
unfolding nibble
hex [] = []
hex (b ∷ bs) = nibble (b / 16) ∷ (nibble (b % 16) ∷ hex bs)

-- `sha256.Sum256` is of Go's library.
unfoldable pub path_to_project_id : (Bytes → Bytes) → Bytes → Bytes
unfolding encode hex
path_to_project_id sha256 rel_path =
    let key = encode rel_path in
    let suffix = 95 ∷ hex (take 4 (sha256 rel_path)) in
    if is_empty rel_path
    then []
    else if ltb max_project_id_len (length key)
    then take (max_project_id_len - length suffix) key ++ suffix
    else key

-- `strings.ReplaceAll(id, "__", "\x00")`, from the left and without overlap.
unfoldable pub collapse : Bytes → Bytes
collapse [] = []
collapse (x ∷ []) = x ∷ []
collapse (x ∷ (y ∷ s)) =
    let both = collapse s in
    let one = collapse (y ∷ s) in
    if x == 95 then (if y == 95 then 0 ∷ both else x ∷ one) else x ∷ one

-- `strings.ReplaceAll` of one byte by another.
abbrev pub replace_byte : ℕ → ℕ → Bytes → Bytes
replace_byte old new [] = []
replace_byte old new (x ∷ s) = (if x == old then new else x) ∷ replace_byte old new s

unfoldable pub project_id_to_path : Bytes → Bytes
unfolding collapse
project_id_to_path id =
    if is_empty id then [] else replace_byte 0 95 (replace_byte 95 47 (collapse id))

abbrev is_dots : Bytes → Bool
is_dots part = eq part (codes ".") || eq part (codes "..")

unfoldable pub first_dots : List Bytes → Option Bytes
first_dots [] = none
first_dots (p ∷ ps) = if is_dots p then some p else first_dots ps

-- On a system whose separator is `/`: the component that the path is rejected for.
unfoldable pub validate_project_path : Bytes → Option Bytes
unfolding first_dots split
validate_project_path rel_path = first_dots (split 47 rel_path)
