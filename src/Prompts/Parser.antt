-- ===== src/Prompts/Parser.antt =====
-- internal/prompts/assembler/parser.go: what the name of a prompt file says about it.
pub mod Markers
pub mod Names
pub mod Search
pub mod Validate
use ateam.Prelude.{
  ℕ, zero, suc, ◌+◌, Bool, true, false, Option, none, some, List, [], ◌∷◌, ◌++◌, Bytes, codes, eq,
  is_empty, has_prefix, length, take, drop, if◌then◌else◌,
}

pub data FileKind : Type 0 where
  unknown role_main role_pre role_post dir_pre dir_post : FileKind

pub record Parsed : Type 0 where
  pub kind : FileKind
  pub role : Bytes
  pub fragment : Bytes

abbrev pub no_kind : Parsed
no_kind = record { kind = unknown; role = []; fragment = [] }

-- `strings.HasSuffix` and `strings.TrimSuffix` in one: what stands before the suffix.
unfoldable pub strip_suffix : Bytes → Bytes → Option Bytes
strip_suffix [] p = if eq [] p then some [] else none
strip_suffix (x ∷ s) p =
    let rest = strip_suffix s p in
    if eq (x ∷ s) p then some [] else elim rest [ none ↦ none | some b ↦ some (x ∷ b) ]

-- `strings.LastIndex`, for a needle that is not empty.
unfoldable pub last_index : Bytes → Bytes → Option ℕ
last_index [] needle = none
last_index (x ∷ s) needle = elim (last_index s needle) [
  | some i ↦ some (suc i)
  | none ↦ if has_prefix (x ∷ s) needle then some 0 else none
]

-- What follows a marker at `idx`: the end, a fragment's name, or else the search goes on.
abbrev pub after_marker : Bytes → Bytes → Option (Bytes × Bytes) → Option (Bytes × Bytes)
after_marker before [] further = some (before, [])
after_marker before (c ∷ rest) further =
    if eq (c ∷ []) (codes ".")
    then (if is_empty rest then none else some (before, rest))
    else further

-- The loop of `splitMarker`; every round searches a shorter text, so that the length of the body
-- is fuel enough.
unfoldable pub scan_marker : ℕ → Bytes → Bytes → Bytes → Option (Bytes × Bytes)
scan_marker zero body needle search = none
scan_marker (suc fuel) body needle search = elim (last_index search needle) [
  | none ↦ none
  | some i ↦ elim i [
    | zero ↦ none
    | suc k ↦
        after_marker (take (suc k) body) (drop (suc k + length needle) body)
          (scan_marker fuel body needle (take (suc k) body))
  ]
]

unfoldable pub split_marker : Bytes → Bytes → Option (Bytes × Bytes)
unfolding scan_marker
split_marker body marker = scan_marker (length body) body (codes "." ++ marker) body

abbrev pub dir_fragment : FileKind → Bytes → Parsed
dir_fragment kind [] = no_kind
dir_fragment kind (c ∷ name) = record { kind = kind; role = []; fragment = c ∷ name }

unfoldable pub parse_dir_level : Bytes → Parsed
parse_dir_level body =
    if eq body (codes "_pre")
    then record { kind = dir_pre; role = []; fragment = [] }
    else if eq body (codes "_post")
    then record { kind = dir_post; role = []; fragment = [] }
    else if has_prefix body (codes "_pre.")
    then dir_fragment dir_pre (drop 5 body)
    else if has_prefix body (codes "_post.")
    then dir_fragment dir_post (drop 6 body)
    else no_kind

abbrev pub role_main_of : Bytes → Parsed
role_main_of [] = no_kind
role_main_of (c ∷ role) = record { kind = role_main; role = c ∷ role; fragment = [] }

unfoldable pub parse_role_level : Bytes → Parsed
parse_role_level body = elim (strip_suffix body (codes ".prompt")) [
  | some role ↦ role_main_of role
  | none ↦ elim (split_marker body (codes "pre")) [
    | some (role, fragment) ↦ record { kind = role_pre; role = role; fragment = fragment }
    | none ↦ elim (split_marker body (codes "post")) [
      | some (role, fragment) ↦ record { kind = role_post; role = role; fragment = fragment }
      | none ↦ no_kind
    ]
  ]
]

abbrev pub parse_body : Bytes → Bytes → Parsed
parse_body filename [] = no_kind
parse_body filename (c ∷ body) =
    if has_prefix filename (codes "_")
    then parse_dir_level (c ∷ body)
    else parse_role_level (c ∷ body)

abbrev pub parse_stripped : Bytes → Option Bytes → Parsed
parse_stripped filename none = no_kind
parse_stripped filename (some body) = parse_body filename body

-- `Parse`
unfoldable pub parse : Bytes → Parsed
unfolding strip_suffix
parse filename = parse_stripped filename (strip_suffix filename (codes ".md"))
