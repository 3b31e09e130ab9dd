-- ===== src/Codex/Output.antt =====
-- What internal/codex/adapter.go takes from the pane as the output of a turn.
use ateam.Prelude.{
  ℕ, zero, suc, Bool, true, false, not, ◌&&◌, ◌||◌, Option, none, some, List, [], ◌∷◌, ◌++◌, Bytes,
  codes, reverse, leb, is_empty, has_prefix, has_suffix, contains, split, join, trim_left,
  trim_right, trim_space, ◌==◌, if◌then◌else◌,
}
use ateam.Codex.Pane.{lines_of, normalize_line_for_match, is_input_prompt, is_status_line, is_echo}

abbrev is_newline : ℕ → Bool
is_newline c = c == b'\n'

abbrev is_input : Bytes → Bool
is_input l = is_input_prompt (normalize_line_for_match l)

abbrev is_status : Bytes → Bool
is_status l = is_status_line (normalize_line_for_match l)

-- The first of the next `n` lines, from the end, that is an input prompt: the lines before it.
above_prompt : ℕ → List Bytes → Option (List Bytes)
above_prompt zero ls = none
above_prompt (suc n) [] = none
above_prompt (suc n) (l ∷ ls) = let rest = above_prompt n ls in if is_input l then some ls else rest

or_else : Option (List Bytes) → Option (List Bytes) → Option (List Bytes)
or_else none later = later
or_else (some ls) later = some ls

-- The same for a status line of the next `n`, with a prompt among the four lines above it.
above_status : ℕ → List Bytes → Option (List Bytes)
unfolding above_prompt or_else
above_status zero ls = none
above_status (suc n) [] = none
above_status (suc n) (l ∷ ls) =
    let rest = above_status n ls in
    let prompt = above_prompt 4 ls in if is_status l then or_else prompt rest else rest

-- `StripTrailingPrompt`
unfoldable pub strip_trailing_prompt : Bytes → Bytes
unfolding above_status lines_of join trim_right trim_space
strip_trailing_prompt rendered = elim (above_status 12 (trailing (reverse (lines_of rendered)))) [
  | some above ↦ trim_right is_newline (join (codes "\n") (reverse above))
  | none ↦ trim_right is_newline rendered
]
  where
    -- Lines from the end, without the blank ones that come first.
    trailing : List Bytes → List Bytes
    trailing [] = []
    trailing (l ∷ ls) = let rest = trailing ls in if is_empty (trim_space l) then rest else l ∷ ls

-- `isDecorativeRune`, on the three bytes of a rune: U+2500 to U+259F, U+2014 and U+2015.
abbrev is_decorative_rune : ℕ → ℕ → ℕ → Bool
is_decorative_rune a b c =
    a == 0xe2
    && ((b == 0x94 && (leb 0x80 c && leb c 0xbf))
        || (b == 0x95 && (leb 0x80 c && leb c 0xbf))
        || (b == 0x96 && (leb 0x80 c && leb c 0x9f))
        || (b == 0x80 && (c == 0x94 || c == 0x95)))

-- The loop of `isEmptyOrDecorative`, which skips the rest of a rune.
all_decorative : Bytes → Bool
all_decorative [] = true
all_decorative (a ∷ []) = a == b' ' || a == b'\t'
all_decorative (a ∷ (b ∷ [])) = (a == b' ' || a == b'\t') && all_decorative (b ∷ [])
all_decorative (a ∷ (b ∷ (c ∷ s))) = elim (a == b' ' || a == b'\t') [
  | true ↦ all_decorative (b ∷ (c ∷ s))
  | false ↦ elim (is_decorative_rune a b c) [ true ↦ all_decorative s | false ↦ false ]
]

-- `isEmptyOrDecorative`
unfoldable pub is_empty_or_decorative : Bytes → Bool
unfolding all_decorative trim_space
is_empty_or_decorative line = is_empty (trim_space line) || all_decorative line

keep_content : List Bytes → List Bytes
unfolding is_empty_or_decorative
keep_content [] = []
keep_content (l ∷ ls) =
    let rest = keep_content ls in if is_empty_or_decorative l then rest else l ∷ rest

-- `CleanCapture`
unfoldable pub clean_capture : Bytes → Bytes
unfolding keep_content lines_of join
clean_capture s = join (codes "\n") (keep_content (lines_of s))

-- The lines behind the last one that passes a test.
behind_last : (Bytes → Bool) → List Bytes → Option (List Bytes)
behind_last f [] = none
behind_last f (l ∷ ls) = elim (behind_last f ls) [
  | some later ↦ some later
  | none ↦ if f l then some ls else none
]

-- The corners `╰` and `╯` of the banner.
abbrev corner : ℕ → Bytes
corner c = 0xe2 ∷ (0x95 ∷ (c ∷ []))

abbrev is_banner_end : Bytes → Bool
is_banner_end l = has_prefix (trim_space l) (corner 0xb0) && has_suffix (trim_space l) (corner 0xaf)

-- `postBannerContent`
unfoldable pub post_banner_content : List Bytes → Bytes
unfolding behind_last join trim_space has_prefix has_suffix
post_banner_content ls = elim (behind_last is_banner_end ls) [
  | some later ↦ join (codes "\n") later
  | none ↦ join (codes "\n") ls
]

pub record ExtractedOutput : Type 0 where
  pub output : Bytes
  pub command_echo_found : Bool

abbrev pub nothing_found : ExtractedOutput
nothing_found = record { output = []; command_echo_found = false }

abbrev pub cleaned : Bytes → ExtractedOutput
cleaned s = record { output = clean_capture s; command_echo_found = true }

abbrev after_echo : Option (List Bytes) → Bool → List Bytes → ExtractedOutput
after_echo (some later) is_slash_command ls =
    cleaned (trim_right is_newline (trim_left is_newline (join (codes "\n") later)))
after_echo none false ls = nothing_found
after_echo none true ls =
    let body = post_banner_content ls in
    if is_empty (trim_space body) then nothing_found else cleaned body

-- `ExtractCommandOutputWithStatus`
unfoldable pub extract_command_output_with_status : Bytes → Bytes → Bool → ExtractedOutput
unfolding strip_trailing_prompt clean_capture post_banner_content behind_last lines_of is_echo join
    trim_left trim_right trim_space
extract_command_output_with_status rendered [] is_slash_command = nothing_found
extract_command_output_with_status rendered (m ∷ marker) is_slash_command =
    let ls = lines_of (strip_trailing_prompt rendered) in
    after_echo (behind_last (is_echo (m ∷ marker) is_slash_command) ls) is_slash_command ls

-- `codexErrorLine`, with the bytes of `■`.
abbrev square : Bytes
square = 0xe2 ∷ (0x96 ∷ (0xa0 ∷ []))

abbrev is_error_line : Bytes → Bool
is_error_line l =
    (has_prefix l (square ++ codes " {") && contains l (codes "\"type\":\"error\""))
    || has_prefix l (codes "{\"type\":\"error\"")

first_error : List Bytes → Option Bytes
unfolding trim_space has_prefix contains
first_error [] = none
first_error (l ∷ ls) =
    let rest = first_error ls in if is_error_line (trim_space l) then some (trim_space l) else rest

unfoldable pub codex_error_line : Bytes → Option Bytes
unfolding first_error split
codex_error_line output = first_error (split b'\n' output)

-- The errors of `validateCommandOutput`.
pub data OutputError : Type 0 where
  not_accepted no_output : Bytes → OutputError
  returned_error : Bytes → Bytes → OutputError

-- `validateCommandOutput`: none if the output is accepted.
unfoldable pub validate_command_output : Bytes → ExtractedOutput → Option OutputError
unfolding codex_error_line trim_space
validate_command_output input extracted =
    if not extracted.command_echo_found
    then some (not_accepted input)
    else if is_empty (trim_space extracted.output)
    then some (no_output input)
    else elim (codex_error_line extracted.output) [
      | some line ↦ some (returned_error input line)
      | none ↦ none
    ]
