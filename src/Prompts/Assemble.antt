-- ===== src/Prompts/Assemble.antt =====
-- internal/prompts/assembler/assemble.go and resolve.go: the files that make up a prompt, and the
-- prompt that they make.
pub mod Files
pub mod Sections
use ateam.Prelude.{
  trim_left, trim_right, ℕ, Bool, true, false, Option, none, some, List, [], ◌∷◌, ◌++◌, Bytes,
  codes, eq, is_empty, length, map, reverse, split, join, trim_space, ◌==◌, if◌then◌else◌,
}
use ateam.Prompts.Result.{
  PromptError, empty_name, no_role_main, while_doing, in_frontmatter, rendering_file, globbing,
  empty_override, empty_main, Result, ok, err, ◌>>=◌, wrap,
}
use ateam.Prompts.Assembler.{Anchor, Fs, Match, first_match, all_matches}
use ateam.Prompts.Parser.{strip_suffix}
use ateam.Prompts.Frontmatter.{Frontmatter, parse_frontmatter}
use ateam.Prompts.Template.Render.{Engine, Vars, new_engine, render}

pub record AssemblyName : Type 0 where
  pub role : Bytes
  pub dirs : List Bytes

-- The last part of a path is the role, the others are directories.
abbrev pub name_of : List Bytes → AssemblyName
name_of [] = record { role = []; dirs = [] }
name_of (p ∷ []) = record { role = p; dirs = [] }
name_of (p ∷ (q ∷ ps)) = let n = name_of (q ∷ ps) in record n { dirs = p ∷ n.dirs }

abbrev pub or_whole : Bytes → Option Bytes → Bytes
or_whole s none = s
or_whole s (some before) = before

-- `parseAssemblyName`
unfoldable pub parse_assembly_name : Bytes → Result AssemblyName
unfolding strip_suffix trim_left trim_right split
parse_assembly_name name =
    let slash = λ (c : ℕ). c == b'/' in
    let path =
      trim_right slash (trim_left slash (or_whole name (strip_suffix name (codes ".prompt.md")))) in
    if is_empty path then err empty_name else ok (name_of (split b'/' path))

-- `joinName`, `fragmentGlobs`
abbrev pub join_name : Bytes → Bytes → Bytes
join_name dir name = if is_empty dir then name else dir ++ (codes "/" ++ name)

unfoldable pub fragment_globs : Bytes → Bytes → List Bytes
fragment_globs dir base =
    join_name dir (base ++ codes ".md") ∷ (join_name dir (base ++ codes ".*.md") ∷ [])

-- `dirs[:0]`, `dirs[:1]`, up to all of them, joined.
abbrev pub prefixes : List Bytes → List (List Bytes)
prefixes [] = [] ∷ []
prefixes (d ∷ ds) = [] ∷ map (λ ps. d ∷ ps) (prefixes ds)

unfoldable pub dir_paths : List Bytes → List Bytes
unfolding join
dir_paths dirs = map (join (codes "/")) (prefixes dirs)

-- The two framings, and their words in the names of files and of slots.
pub data Side : Type 0 where
  pre post : Side

abbrev pub word : Side → Bytes
word pre = codes "pre"
word post = codes "post"

abbrev pub dir_slot : Side → Bytes → Bytes
dir_slot side dir =
    if is_empty dir
    then codes "root_" ++ word side
    else codes "dir_" ++ (word side ++ (codes ":" ++ dir))

abbrev pub role_slot : Side → Bytes
role_slot side = codes "role_" ++ word side

-- The files of a slot in `Resolve`; the second text is for the message. `Assemble` has lookups of
-- its own below.
unfoldable pub dir_matches : List Anchor → Side → Bytes → Result (List Match)
unfolding fragment_globs
dir_matches anchors side dir =
    wrap (globbing (codes "dir " ++ word side) dir)
      (all_matches anchors (fragment_globs dir (codes "_" ++ word side)))

unfoldable pub role_matches : List Anchor → Side → AssemblyName → Result (List Match)
unfolding fragment_globs join
role_matches anchors side n =
    let dir = join (codes "/") n.dirs in
    wrap (globbing (codes "role " ++ word side) (join_name dir n.role))
      (all_matches anchors (fragment_globs dir (n.role ++ (codes "." ++ word side))))

abbrev pub required : Bytes → Option Match → Result Match
required path none = err (no_role_main path)
required path (some m) = ok m

unfoldable pub main_match : List Anchor → AssemblyName → Result Match
unfolding join
main_match anchors n =
    let path = join_name (join (codes "/") n.dirs) (n.role ++ codes ".prompt.md") in
    wrap (while_doing path) (first_match anchors path) >>= required path

pub record ResolvedFile : Type 0 where
  pub slot : Bytes
  pub anchor : Bytes
  pub path : Bytes
  pub fs : Option Fs

-- `FSByAnchor`: of two anchors of one name, the later one.
unfoldable pub fs_by_anchor : List Anchor → Bytes → Option Fs
fs_by_anchor [] name = none
fs_by_anchor (a ∷ later) name = elim (fs_by_anchor later name) [
  | some fs ↦ some fs
  | none ↦ if eq a.name name then some a.fs else none
]

abbrev pub file_of : List Anchor → Bytes → Match → ResolvedFile
file_of anchors slot m = record {
  slot = slot;
  anchor = m.anchor;
  path = m.path;
  fs = fs_by_anchor anchors m.anchor;
}

-- `matchesToFiles`
abbrev pub matches_to_files : List Anchor → Bytes → List Match → List ResolvedFile
matches_to_files anchors slot ms = map (file_of anchors slot) ms

abbrev pub Files : Type 0
Files = Result (List ResolvedFile)

abbrev pub followed_by : Files → Files → Files
followed_by r later = r >>= λ out. later >>= λ more. ok (out ++ more)

unfoldable pub dir_files : List Anchor → Side → List Bytes → Files
unfolding dir_matches
dir_files anchors side [] = ok []
dir_files anchors side (d ∷ ds) =
    followed_by
      (dir_matches anchors side d >>= λ ms. ok (matches_to_files anchors (dir_slot side d) ms))
      (dir_files anchors side ds)

unfoldable pub role_files : List Anchor → Side → AssemblyName → Files
unfolding role_matches
role_files anchors side n =
    role_matches anchors side n >>= λ ms. ok (matches_to_files anchors (role_slot side) ms)

-- `framingPre`, `framingPost`
unfoldable pub framing_pre : List Anchor → AssemblyName → Files
unfolding dir_files role_files dir_paths
framing_pre anchors n =
    followed_by (dir_files anchors pre (dir_paths n.dirs)) (role_files anchors pre n)

unfoldable pub framing_post : List Anchor → AssemblyName → Files
unfolding dir_files role_files dir_paths
framing_post anchors n =
    followed_by (role_files anchors post n) (dir_files anchors post (reverse (dir_paths n.dirs)))

-- `resolveRoleMain`
unfoldable pub resolve_role_main : List Anchor → AssemblyName → Result ResolvedFile
unfolding main_match
resolve_role_main anchors n =
    main_match anchors n >>= λ m. ok (file_of anchors (codes "role_main") m)

-- `Resolve`, `ResolveFramingOnly`
unfoldable pub resolve : List Anchor → Bytes → Files
unfolding framing_pre framing_post resolve_role_main
resolve anchors name = parse_assembly_name name >>= λ n. framing_pre anchors n >>= λ before.
    resolve_role_main anchors n >>= λ main.
    framing_post anchors n >>= λ after. ok (before ++ main ∷ after)

unfoldable pub resolve_framing_only : List Anchor → Bytes → Files
unfolding framing_pre framing_post
resolve_framing_only anchors name =
    parse_assembly_name name >>= λ n. followed_by (framing_pre anchors n) (framing_post anchors n)

pub record Section : Type 0 where
  pub anchor : Bytes
  pub path : Bytes
  pub slot : Bytes
  pub content : Bytes

pub record AssembleResult : Type 0 where
  pub prompt : Bytes
  pub sections : List Section

pub record AssembleOptions : Type 0 where
  pub replace_role_main : Bytes
  pub pre_prompt : Bytes
  pub post_prompt : Bytes

abbrev pub location : Match → Bytes
location m = if is_empty m.anchor then m.path else m.anchor ++ (codes ":" ++ m.path)

abbrev pub Sections : Type 0
Sections = Result (List Section)

abbrev pub unless_blank : Bytes → Section → List Section → List Section
unless_blank text s sections = if is_empty (trim_space text) then sections else sections ++ s ∷ []

-- `addRendered`
unfoldable pub add_rendered : Engine → Vars → Bytes → Match → List Section → Sections
unfolding parse_frontmatter render trim_space
add_rendered e vars slot m sections =
    wrap (in_frontmatter (location m)) (parse_frontmatter m.content) >>= λ parsed.
    wrap (rendering_file (location m)) (render e vars parsed.1) >>= λ rendered. ok (
      unless_blank rendered
        (record { anchor = m.anchor; path = m.path; slot = slot; content = rendered }) sections)

-- `addMatches`
unfoldable pub add_matches : Engine → Vars → Bytes → List Match → List Section → Sections
unfolding add_rendered
add_matches e vars slot [] sections = ok sections
add_matches e vars slot (m ∷ ms) sections =
    add_rendered e vars slot m sections >>= add_matches e vars slot ms

abbrev pub cli_section : Bytes → Bytes → Bytes → Section
cli_section slot source text = record {
  anchor = codes "cli";
  path = source;
  slot = slot;
  content = text;
}

-- `addCLI`, `addCLIRaw`
unfoldable pub add_cli : Engine → Vars → Bytes → Bytes → Bytes → List Section → Sections
unfolding render trim_space
add_cli e vars slot source body sections =
    if is_empty (trim_space body)
    then ok sections
    else wrap (rendering_file slot) (render e vars body) >>= λ rendered.
        ok (unless_blank rendered (cli_section slot source rendered) sections)

abbrev pub add_cli_raw : Bytes → Bytes → Bytes → List Section → List Section
add_cli_raw slot source body sections = unless_blank body (cli_section slot source body) sections

unfoldable pub add_dirs : Engine → Vars → List Anchor → Side → List Bytes → List Section → Sections
unfolding fragment_globs add_matches
add_dirs e vars anchors side [] sections = ok sections
add_dirs e vars anchors side (d ∷ ds) sections =
    wrap (globbing (codes "dir " ++ word side) d)
      (all_matches anchors (fragment_globs d (codes "_" ++ word side)))
    >>= λ ms. add_matches e vars (dir_slot side d) ms sections >>= add_dirs e vars anchors side ds

unfoldable pub add_role :
    Engine → Vars → List Anchor → Side → AssemblyName → List Section → Sections
unfolding fragment_globs join add_matches
add_role e vars anchors side n sections =
    let dir = join (codes "/") n.dirs in
    wrap (globbing (codes "role " ++ word side) (join_name dir n.role))
      (all_matches anchors (fragment_globs dir (n.role ++ (codes "." ++ word side))))
    >>= λ ms. add_matches e vars (role_slot side) ms sections

-- A main text that adds no section is an error.
abbrev pub grown : PromptError → List Section → List Section → Sections
grown why sections out = if length out == length sections then err why else ok out

unfoldable pub add_main :
    Engine → Vars → List Anchor → Bytes → AssemblyName → List Section → Sections
unfolding add_cli join add_rendered
add_main e vars anchors [] n sections =
    let path = join_name (join (codes "/") n.dirs) (n.role ++ codes ".prompt.md") in
    wrap (while_doing path) (first_match anchors path) >>= required path >>= λ m.
    add_rendered e vars (codes "role_main") m sections
    >>= grown (empty_main m.anchor m.path) sections
add_main e vars anchors (c ∷ text) n sections =
    add_cli e vars (codes "role_main") (codes "(--prompt)") (c ∷ text) sections
    >>= grown empty_override sections

abbrev pub opened : AssembleOptions → List Section
opened opts = add_cli_raw (codes "cli_pre_prompt") (codes "(--pre-prompt)") opts.pre_prompt []

abbrev pub joined : List Section → AssembleResult
joined sections = record {
  prompt = join (codes "\n\n---\n\n") (map (λ s. s.content) sections);
  sections = sections;
}

abbrev pub finished : AssembleOptions → List Section → AssembleResult
finished opts sections =
    joined
      (add_cli_raw (codes "cli_post_prompt") (codes "(--post-prompt)") opts.post_prompt sections)

-- All sections of the anchors, behind those that are there.
unfoldable pub add_all :
    Engine → Vars → List Anchor → Bytes → AssemblyName → List Section → Sections
unfolding add_dirs add_role add_main dir_paths
add_all e vars anchors replace n sections =
    add_dirs e vars anchors pre (dir_paths n.dirs) sections
    >>= add_role e vars anchors pre n
    >>= add_main e vars anchors replace n
    >>= add_role e vars anchors post n
    >>= add_dirs e vars anchors post (reverse (dir_paths n.dirs))

abbrev pub engine_or_default : List Anchor → Option Engine → Engine
engine_or_default anchors none = new_engine (some anchors) 0
engine_or_default anchors (some e) = e

-- `Assemble`; no options are those with empty texts.
unfoldable pub assemble :
    List Anchor → Bytes → Vars → Option Engine → AssembleOptions → Result AssembleResult
unfolding add_all parse_assembly_name new_engine join trim_space
assemble anchors name vars e opts = parse_assembly_name name >>= λ n.
    add_all (engine_or_default anchors e) vars anchors opts.replace_role_main n (opened opts)
    >>= λ sections. ok (finished opts sections)
