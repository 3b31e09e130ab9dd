-- ===== src/Runner/Tail.antt =====
-- `readNewLines` of internal/runner/progress_scan.go and `splitLines` of tailer.go: the lines of a
-- file that grows while it is read.
pub mod Chunks
use ateam.Prelude.{
  ℕ, ◌+◌, ◌-◌, Bool, true, false, not, ◌&&◌, Option, none, some, List, [], ◌∷◌, ◌++◌, Bytes, drop,
  take, length, leb, ltb, is_empty, ◌==◌, if◌then◌else◌,
}

-- What a round of polling meets: whether the file opens, its size if it is told, whether the seek
-- succeeds, the bytes of the file, and how many of them `Read` hands out.
pub record View : Type 0 where
  pub opens : Bool
  pub size : Option ℕ
  pub seeks : Bool
  pub content : Bytes
  pub reads : ℕ

-- The variables that the caller keeps between the rounds.
pub record Reading : Type 0 where
  pub offset : ℕ
  pub partial : Bytes

abbrev pub fresh : Reading
fresh = record { offset = 0; partial = [] }

-- A byte before the first line, or before the remainder.
abbrev pub put_front : ℕ → List Bytes × Bytes → List Bytes × Bytes
put_front c ([], rest) = ([], c ∷ rest)
put_front c (l ∷ ls, rest) = ((c ∷ l) ∷ ls, rest)

-- `splitLines`
unfoldable pub split_lines : Bytes → List Bytes × Bytes
split_lines [] = ([], [])
split_lines (c ∷ s) =
    let rest = split_lines s in if c == b'\n' then ([] ∷ rest.0, rest.1) else put_front c rest

-- What `Read` hands out, with a buffer for the bytes behind the offset.
abbrev pub behind_offset : View → ℕ → ℕ → Bytes
behind_offset v offset size =
    if leb size offset
    then []
    else if ltb 0 offset && not v.seeks
    then []
    else take v.reads (take (size - offset) (drop offset v.content))

abbrev pub of_size : View → ℕ → Option ℕ → Bytes
of_size v offset none = []
of_size v offset (some size) = behind_offset v offset size

unfoldable pub new_bytes : View → ℕ → Bytes
new_bytes v offset = if v.opens then of_size v offset v.size else []

-- The end of `readNewLines`, for the bytes that were read.
abbrev pub take_in : Reading → Bytes → List Bytes × Reading
take_in r [] = ([], r)
take_in r (c ∷ buf) =
    let split = split_lines (r.partial ++ c ∷ buf) in
    (split.0, record { offset = r.offset + length (c ∷ buf); partial = split.1 })

-- `readNewLines`
unfoldable pub read_new_lines : View → Reading → List Bytes × Reading
unfolding new_bytes split_lines
read_new_lines v r = take_in r (new_bytes v r.offset)
