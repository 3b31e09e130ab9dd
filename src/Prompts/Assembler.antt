-- ===== src/Prompts/Assembler.antt =====
-- internal/prompts/assembler/assembler.go: the chain of anchors in which prompt files are found.
pub mod Sorting
pub mod Overrides
pub mod Anchors
use ateam.Prelude.{
  Bool, true, false, Option, none, some, List, [], ◌∷◌, ◌++◌, Bytes, codes, eq, any, reverse,
  if◌then◌else◌,
}
use ateam.Prompts.Result.{PromptError, read_failed, glob_failed, Result, ok, err, ◌>>=◌}
use ateam.Prompts.Assembler.Sorting.{sort_strings}

-- What `fs.ReadFile` answers: `fs.ErrNotExist` apart from every other error.
pub data Read : Type 0 where
  contents : Bytes → Read
  not_exist : Read
  failed : Bytes → Read

pub data Globbed : Type 0 where
  names : List Bytes → Globbed
  bad_pattern : Bytes → Globbed

-- An `fs.FS` of Go's library, by what `fs.ReadFile` and `fs.Glob` answer on it.
pub record Fs : Type 0 where
  pub read_file : Bytes → Read
  pub glob : Bytes → Globbed

pub record Anchor : Type 0 where
  pub name : Bytes
  pub fs : Fs

pub record Match : Type 0 where
  pub anchor : Bytes
  pub path : Bytes
  pub content : Bytes

abbrev pub first_step : Anchor → Bytes → Read → Result (Option Match) → Result (Option Match)
first_step a path (contents text) rest =
    ok (some (record { anchor = a.name; path = path; content = text }))
first_step a path not_exist rest = rest
first_step a path (failed why) rest = err (read_failed path a.name why)

-- `FirstMatch`: none if no anchor has the file.
unfoldable pub first_match : List Anchor → Bytes → Result (Option Match)
first_match [] path = ok none
first_match (a ∷ later) path = first_step a path (a.fs.read_file path) (first_match later path)

abbrev pub mem : Bytes → List Bytes → Bool
mem x xs = any (λ y. eq y x) xs

-- Each name once, in the order of its first occurrence, behind those in `seen`.
unfoldable pub unseen : List Bytes → List Bytes → List Bytes
unseen seen [] = []
unseen seen (x ∷ xs) =
    let rest = unseen (if mem x seen then seen else x ∷ seen) xs in
    if mem x seen then rest else x ∷ rest

-- The matches of all patterns, before `globAny` drops what it has seen.
unfoldable pub glob_each : Fs → List Bytes → Globbed
glob_each fs [] = names []
glob_each fs (p ∷ ps) = elim (fs.glob p) [
  | bad_pattern why ↦ bad_pattern why
  | names found ↦ elim (glob_each fs ps) [
    | bad_pattern why ↦ bad_pattern why
    | names more ↦ names (found ++ more)
  ]
]

unfoldable pub glob_any : Fs → List Bytes → Globbed
unfolding glob_each unseen
glob_any fs ps = elim (glob_each fs ps) [
  | bad_pattern why ↦ bad_pattern why
  | names found ↦ names (unseen [] found)
]

abbrev pub Globs : Type 0
Globs = List (Anchor × List Bytes)

abbrev pub glob_step : List Bytes → Anchor → Globbed → Result Globs → Result Globs
glob_step ps a (bad_pattern why) rest = err (glob_failed ps a.name why)
glob_step ps a (names found) rest = rest >>= λ globs. ok ((a, found) ∷ globs)

-- The globs of the first pass, one for each anchor, in the order of the chain.
unfoldable pub glob_anchors : List Bytes → List Anchor → Result Globs
glob_anchors ps [] = ok []
glob_anchors ps (a ∷ later) = glob_step ps a (glob_any a.fs ps) (glob_anchors ps later)

-- `contentSrc`: the most specific anchor whose glob has the path.
unfoldable pub content_src : Globs → Bytes → Option Anchor
content_src [] path = none
content_src (g ∷ later) path = if mem path g.1 then some g.0 else content_src later path

abbrev pub read_result : Anchor → Bytes → Read → Result Match
read_result a path (contents text) = ok (record { anchor = a.name; path = path; content = text })
read_result a path not_exist = err (read_failed path a.name (codes "file does not exist"))
read_result a path (failed why) = err (read_failed path a.name why)

abbrev pub read_from : Anchor → Bytes → Result Match
read_from a path = read_result a path (a.fs.read_file path)

abbrev pub read_step : Bytes → Option Anchor → Result (List Match) → Result (List Match)
read_step path none rest = rest
read_step path (some a) rest = read_from a path >>= λ m. rest >>= λ ms. ok (m ∷ ms)

-- The reads of the second pass. `contentSrc` has every path that some glob has.
unfoldable pub read_all : Globs → List Bytes → Result (List Match)
read_all globs [] = ok []
read_all globs (path ∷ paths) = read_step path (content_src globs path) (read_all globs paths)

abbrev pub sorted_names : Globs → List Bytes
sorted_names [] = []
sorted_names (g ∷ later) = sort_strings g.1 ++ sorted_names later

-- The paths in the order of the second pass: most general anchor first, sorted within an anchor,
-- each at its first place. The second pass globs again, and gets what the first one got.
unfoldable pub emission : Globs → List Bytes
unfolding unseen
emission globs = unseen [] (sorted_names (reverse globs))

-- `AllMatches`
unfoldable pub all_matches : List Anchor → List Bytes → Result (List Match)
unfolding glob_anchors read_all emission
all_matches anchors ps = glob_anchors ps anchors >>= λ globs. read_all globs (emission globs)
