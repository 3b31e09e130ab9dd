-- ===== src/Codex/Pane.antt =====
-- What internal/codex/adapter.go reads from the text of a pane.
use ateam.Prelude.{
  ℕ, zero, suc, ◌-◌, Bool, false, not, ◌&&◌, ◌||◌, List, [], ◌∷◌, ◌++◌, Bytes, codes, eq, any, drop,
  take, length, leb, is_empty, has_prefix, contains, replace_crlf, split, trim_space, ◌==◌,
  if◌then◌else◌,
}

-- The bytes of `›`, `·` and `…`.
abbrev pub prompt_mark : Bytes
prompt_mark = 0xe2 ∷ (0x80 ∷ (0xba ∷ []))

abbrev middle_dot : Bytes
middle_dot = 0xc2 ∷ (0xb7 ∷ [])

abbrev ellipsis : Bytes
ellipsis = 0xe2 ∷ (0x80 ∷ (0xa6 ∷ []))

-- `normalizeLineForMatch`: U+00A0 and U+3000 become a blank.
abbrev wide_blank : Bytes → ℕ
wide_blank (a ∷ (b ∷ (c ∷ s))) =
    if a == 0xc2 && b == 0xa0 then 2 else if a == 0xe3 && b == 0x80 && c == 0x80 then 3 else 0
wide_blank (a ∷ (b ∷ [])) = if a == 0xc2 && b == 0xa0 then 2 else 0
wide_blank _ = 0

fold_blanks : ℕ → Bytes → Bytes
fold_blanks skip [] = []
fold_blanks (suc skip) (c ∷ s) = fold_blanks skip s
fold_blanks zero (c ∷ s) = elim (wide_blank (c ∷ s)) [
  | zero ↦ c ∷ fold_blanks zero s
  | suc more ↦ b' ' ∷ fold_blanks more s
]

unfoldable pub normalize_line_for_match : Bytes → Bytes
unfolding fold_blanks
normalize_line_for_match line = fold_blanks zero line

keep_lines : List Bytes → List Bytes
unfolding trim_space
keep_lines [] = []
keep_lines (l ∷ ls) = let rest = keep_lines ls in if is_empty (trim_space l) then rest else l ∷ rest

-- `strings.Split(strings.ReplaceAll(s, "\r\n", "\n"), "\n")`
unfoldable pub lines_of : Bytes → List Bytes
unfolding split replace_crlf
lines_of s = split b'\n' (replace_crlf s)

-- `nonEmptyTail`
unfoldable pub non_empty_tail : Bytes → ℕ → List Bytes
unfolding keep_lines lines_of
non_empty_tail rendered n = let ls = keep_lines (lines_of rendered) in drop (length ls - n) ls

-- `\s` of package regexp.
abbrev is_white : ℕ → Bool
is_white c = c == b' ' || c == b'\t' || c == b'\n' || c == 12 || c == b'\r'

skip_white : Bytes → Bytes
skip_white [] = []
skip_white (c ∷ s) = let rest = skip_white s in if is_white c then rest else c ∷ s

abbrev starts_white : Bytes → Bool
starts_white [] = false
starts_white (c ∷ s) = is_white c

-- The first run of what is not white, and what follows it.
word : Bytes → Bytes × Bytes
word [] = ([], [])
word (c ∷ s) = let (w, rest) = word s in if is_white c then ([], c ∷ s) else (c ∷ w, rest)

-- `codexInputPrompt`, on a line.
unfoldable pub is_input_prompt : Bytes → Bool
unfolding skip_white has_prefix
is_input_prompt line =
    let s = skip_white line in
    let rest = drop 3 s in has_prefix s prompt_mark && (is_empty rest || starts_white rest)

abbrev efforts : List Bytes
efforts = codes "low" ∷ codes "medium" ∷ codes "high" ∷ codes "xhigh" ∷ []

-- `codexStatusLine`, on a line: a word, an effort, a dot between white, and something more.
unfoldable pub is_status_line : Bytes → Bool
unfolding skip_white word has_prefix
is_status_line line =
    let (model, behind_model) = word (skip_white line) in
    let (effort, behind_effort) = word (skip_white behind_model) in
    let dot = skip_white behind_effort in
    let rest = drop 2 dot in
    not (is_empty model)
    && any (λ e. eq e effort) efforts
    && starts_white behind_effort
    && has_prefix dot middle_dot
    && starts_white rest
    && leb 2 (length rest)

-- `PromptReady`
unfoldable pub prompt_ready : Bytes → Bool
unfolding contains non_empty_tail is_input_prompt normalize_line_for_match
prompt_ready rendered =
    contains rendered (codes "OpenAI Codex")
    && any (λ l. is_input_prompt (normalize_line_for_match l)) (non_empty_tail rendered 10)

-- `codexBusyMarkers`, `busyScanLines`
abbrev pub busy_markers : List Bytes
busy_markers =
    codes "esc to interrupt"
    ∷ (codes "esc to cancel"
        ∷ ((codes "thinking" ++ ellipsis)
            ∷ ((codes "working" ++ ellipsis) ∷ ((codes "streaming" ++ ellipsis) ∷ []))))

abbrev pub busy_scan_lines : ℕ
busy_scan_lines = 10

-- `CodexBusy`; `strings.ToLower` of Go's library, with its tables for Unicode, is handed in.
unfoldable pub codex_busy : (Bytes → Bytes) → Bytes → Bool
unfolding contains non_empty_tail normalize_line_for_match
codex_busy to_lower rendered =
    any (λ l. any (λ m. contains (to_lower (normalize_line_for_match l)) m) busy_markers)
      (non_empty_tail rendered busy_scan_lines)

-- `echoVisible`, and the same test in `ExtractCommandOutputWithStatus`.
unfoldable pub is_echo : Bytes → Bool → Bytes → Bool
unfolding normalize_line_for_match trim_space has_prefix contains
is_echo marker is_slash_command line =
    let normalized = normalize_line_for_match line in
    if is_slash_command
    then has_prefix (trim_space normalized) (prompt_mark ++ (b' ' ∷ marker))
    else contains normalized marker

unfoldable pub echo_visible : Bytes → Bytes → Bool → Bool
unfolding non_empty_tail is_echo
echo_visible rendered marker is_slash_command =
    any (is_echo marker is_slash_command) (non_empty_tail rendered 20)

-- `heartbeatPreview`
abbrev pane_updated : Bytes
pane_updated = codes "(pane updated)"

abbrev preview_of : Bytes → Bytes
preview_of [] = pane_updated
preview_of (c ∷ s) = if leb (length (c ∷ s)) 80 then c ∷ s else take 80 (c ∷ s) ++ ellipsis

abbrev last_preview : List Bytes → Bytes
last_preview [] = pane_updated
last_preview (l ∷ ls) = preview_of (trim_space l)

unfoldable pub heartbeat_preview : Bytes → Bytes
unfolding non_empty_tail trim_space
heartbeat_preview rendered = last_preview (non_empty_tail rendered 1)
