-- ===== src/Tests/FileNames.antt =====
-- internal/prompts/assembler: the parser on two file names, the hint for a misspelt role.
use ateam.Prelude.{
  Member, ◌↔◌, ◌≤◌, ◌+◌, ◌/◌, List, first, later, false, has_prefix, ℕ, suc, ◌≡◌, refl, arith,
  Bytes, codes, ◌∷◌, [], ◌++◌, true, length,
}
use ateam.Prompts.Orphan.{levenshtein, closest_role}
use ateam.Prompts.Orphan.Distance.{levenshtein-least, Script, onto}
use ateam.Prompts.Orphan.Hint.{closest_role_nearest}
use ateam.Prompts.Result.{ok}
use ateam.Prompts.Orphan.Find.{Walk, directory, file, FragmentEntry, OrphanError, find_orphans}
use ateam.Prompts.Orphan.Find.Unowned.{Reports, Unowned, find_orphans-Unowned}
use ateam.Prompts.Parser.{parse, scan_marker, role_main}
use ateam.Prompts.Parser.Names.{parse-told, is_known, body_of}

abbrev fragment_file : Bytes
fragment_file = codes "sec.pre.scope.md"

fragment_known : is_known (parse fragment_file).kind ≡ true
unfolding parse ateam.Prelude.eq ateam.Prelude.has_prefix ateam.Prompts.Parser.parse_role_level
    ateam.Prompts.Parser.split_marker ateam.Prompts.Parser.last_index
fragment_known = refl

parse-told_example :
    fragment_file
    ≡ body_of (parse fragment_file).kind (parse fragment_file).role (parse fragment_file).fragment
      ++ codes ".md"
parse-told_example = parse-told fragment_file fragment_known

abbrev roles : List Bytes
roles = codes "docs" ∷ codes "sec" ∷ []

near : levenshtein (codes "sek") (codes "sec") ≤ length (codes "sek") / 2 + 1
unfolding levenshtein
near = omega arith

closest_role_nearest_example :
    levenshtein (codes "sek") (closest_role (codes "sek") roles)
    ≤ levenshtein (codes "sek") (codes "sec")
closest_role_nearest_example =
    closest_role_nearest (codes "sek") (codes "sec") roles (later (first refl)) near

levenshtein-least_example :
    Script
      (onto (codes "sek") [])
      (onto (codes "docs") [])
      (levenshtein (codes "sek") (codes "docs"))
    × ((n : ℕ)
        → Script (onto (codes "sek") []) (onto (codes "docs") []) n
        → levenshtein (codes "sek") (codes "docs") ≤ n)
levenshtein-least_example = levenshtein-least (codes "sek") (codes "docs")

abbrev walks : List Walk
walks =
    record {
      anchor = codes "project";
      visits = directory ∷ (file (codes "code/sek.pre.md") (codes "sek.pre.md") ∷ []);
    }
    ∷ (record {
      anchor = codes "org";
      visits = file (codes "code/sec.prompt.md") (codes "sec.prompt.md") ∷ [];
    }
        ∷ [])

abbrev stray : OrphanError
stray = record {
  anchor = codes "project";
  path = codes "code/sek.pre.md";
  role = codes "sek";
  dir = codes "code";
  hint = codes "sec";
}

walks-orphans : find_orphans walks ≡ ok (stray ∷ [])
unfolding find_orphans ateam.Prelude.eq ateam.Prompts.Parser.parse_role_level
    ateam.Prompts.Parser.split_marker ateam.Prompts.Parser.last_index
walks-orphans = refl

abbrev sek : FragmentEntry
sek = record {
  anchor = codes "project";
  path = codes "code/sek.pre.md";
  dir = codes "code";
  role = codes "sek";
}

find_orphans-Unowned_example : Reports (stray ∷ []) sek ↔ Unowned walks sek
find_orphans-Unowned_example = find_orphans-Unowned walks (stray ∷ []) sek walks-orphans
