-- ===== src/Prompts/Orphan/Find.antt =====
-- `FindOrphans` of internal/prompts/assembler/orphan.go: the fragments whose role has no main file.
pub mod Complete
pub mod Walks
pub mod Visits
pub mod Unowned
use ateam.Prelude.{
  ℕ, Bool, true, false, not, ◌&&◌, Option, none, some, List, [], ◌∷◌, ◌++◌, ◌≡◌, ◌↔◌, refl, sym, ap,
  ◌∙◌, Bytes, codes, eq, any, is_empty, has_suffix, split, join, Member, first, later, Bool-cases,
  inl, inr, if◌then◌else◌,
}
use ateam.Prompts.Result.{PromptError, walk_failed, Result, ok, err, ◌>>=◌}
use ateam.Prompts.Assembler.{unseen}
use ateam.Prompts.Assembler.Sorting.{less, sort_strings}
use ateam.Prompts.Parser.{FileKind, role_main, role_pre, role_post, Parsed, parse}
use ateam.Prompts.Orphan.{closest_role}

-- What `fs.WalkDir` calls the function with: a directory, a file with its name, an entry that does
-- not exist, and an error of any other kind.
pub data Visit : Type 0 where
  directory missing_entry : Visit
  file : Bytes → Bytes → Visit
  refused : Bytes → Visit

-- An anchor by its name, and the walk of its file system.
pub record Walk : Type 0 where
  pub anchor : Bytes
  pub visits : List Visit

-- `fragmentEntry`
pub record FragmentEntry : Type 0 where
  pub anchor : Bytes
  pub path : Bytes
  pub dir : Bytes
  pub role : Bytes

-- `knownByDir`, by directory and role, and `fragments`.
pub record Scan : Type 0 where
  pub known : List (Bytes × Bytes)
  pub fragments : List FragmentEntry

pub record OrphanError : Type 0 where
  pub anchor : Bytes
  pub path : Bytes
  pub role : Bytes
  pub dir : Bytes
  pub hint : Bytes

-- `path.Dir` on a path of a file system, and "" for ".".
abbrev but_last : List Bytes → List Bytes
but_last [] = []
but_last (p ∷ []) = []
but_last (p ∷ (q ∷ ps)) = p ∷ but_last (q ∷ ps)

unfoldable pub dir_of : Bytes → Bytes
unfolding split join
dir_of path = join (codes "/") (but_last (split b'/' path))

abbrev pub empty_scan : Scan
empty_scan = record { known = []; fragments = [] }

-- The `switch` on the kind of a file.
abbrev pub by_kind : Bytes → Bytes → Bytes → FileKind → Scan
by_kind anchor path role role_main = record { known = (dir_of path, role) ∷ []; fragments = [] }
by_kind anchor path role role_pre = record {
  known = [];
  fragments = record { anchor = anchor; path = path; dir = dir_of path; role = role } ∷ [];
}
by_kind anchor path role role_post = record {
  known = [];
  fragments = record { anchor = anchor; path = path; dir = dir_of path; role = role } ∷ [];
}
by_kind anchor path role _ = empty_scan

unfoldable pub visit : Bytes → Visit → Result Scan
unfolding parse dir_of has_suffix
visit anchor directory = ok empty_scan
visit anchor missing_entry = ok empty_scan
visit anchor (refused why) = err (walk_failed anchor why)
visit anchor (file path base) =
    let parsed = parse base in
    ok (
      if has_suffix base (codes ".md")
      then by_kind anchor path parsed.role parsed.kind
      else empty_scan)

abbrev pub with_scan : Scan → Scan → Scan
with_scan s t = record { known = s.known ++ t.known; fragments = s.fragments ++ t.fragments }

unfoldable pub walk : Bytes → List Visit → Result Scan
unfolding visit
walk anchor [] = ok empty_scan
walk anchor (v ∷ vs) = visit anchor v >>= λ s. walk anchor vs >>= λ t. ok (with_scan s t)

unfoldable pub walk_anchors : List Walk → Result Scan
unfolding walk
walk_anchors [] = ok empty_scan
walk_anchors (w ∷ ws) = walk w.anchor w.visits >>= λ s. walk_anchors ws >>= λ t. ok (with_scan s t)

-- `knownByDir[f.dir][f.role]`
abbrev pub is_known : List (Bytes × Bytes) → FragmentEntry → Bool
is_known known f = any (λ k. eq k.0 f.dir && eq k.1 f.role) known

roles_in : Bytes → List (Bytes × Bytes) → List Bytes
roles_in dir [] = []
roles_in dir (k ∷ ks) = let rest = roles_in dir ks in if eq k.0 dir then k.1 ∷ rest else rest

-- `sortedKeys`
unfoldable pub sorted_keys : List (Bytes × Bytes) → Bytes → List Bytes
unfolding sort_strings unseen roles_in
sorted_keys known dir = sort_strings (unseen [] (roles_in dir known))

unfoldable pub orphan_of : List (Bytes × Bytes) → FragmentEntry → OrphanError
unfolding closest_role sorted_keys
orphan_of known f = record {
  anchor = f.anchor;
  path = f.path;
  role = f.role;
  dir = f.dir;
  hint = closest_role f.role (sorted_keys known f.dir);
}

unfoldable pub orphans_of : List (Bytes × Bytes) → List FragmentEntry → List OrphanError
unfolding orphan_of
orphans_of known [] = []
orphans_of known (f ∷ fs) =
    let rest = orphans_of known fs in if is_known known f then rest else orphan_of known f ∷ rest

abbrev pub is_before : OrphanError → OrphanError → Bool
is_before a b = if eq a.anchor b.anchor then less a.path b.path else less a.anchor b.anchor

unfoldable pub insert_orphan : OrphanError → List OrphanError → List OrphanError
unfolding less
insert_orphan o [] = o ∷ []
insert_orphan o (x ∷ xs) =
    let rest = insert_orphan o xs in if is_before x o then x ∷ rest else o ∷ (x ∷ xs)

unfoldable pub sort_orphans : List OrphanError → List OrphanError
unfolding insert_orphan
sort_orphans [] = []
sort_orphans (o ∷ os) = insert_orphan o (sort_orphans os)

-- `FindOrphans`
unfoldable pub find_orphans : List Walk → Result (List OrphanError)
unfolding walk_anchors orphans_of sort_orphans
find_orphans ws = walk_anchors ws >>= λ s. ok (sort_orphans (orphans_of s.known s.fragments))
