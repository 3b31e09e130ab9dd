-- ===== src/Prompts/Frontmatter.antt =====
-- internal/prompts/assembler/frontmatter.go: the block of keys that a prompt file may begin with.
use ateam.Prelude.{
  trim_left, replace_crlf, ℕ, suc, ◌-◌, Bool, true, false, ◌&&◌, ◌||◌, Option, none, some, List, [],
  ◌∷◌, Bytes, codes, eq, any, drop, take, length, reverse, leb, is_empty, has_prefix, has_suffix,
  split, cut, trim_space, ◌==◌, if◌then◌else◌,
}
use ateam.Prompts.Result.{not_closed, no_key_value, bad_bool, unknown_key, Result, ok, err, ◌>>=◌}
use ateam.Prompts.Template.Scan.{Cut, behind}

pub record Frontmatter : Type 0 where
  pub description : Bytes
  pub deprecated : Bool
  pub legacy : Bool

abbrev pub no_frontmatter : Frontmatter
no_frontmatter = record { description = []; deprecated = false; legacy = false }

-- `strings.Index` for a text: what stands before its first occurrence, and behind it.
unfoldable pub cut_text : Bytes → Bytes → Cut
unfolding has_prefix
cut_text sep [] = none
cut_text sep (c ∷ s) =
    let rest = cut_text sep s in
    if has_prefix (c ∷ s) sep then some ([], drop (length sep) (c ∷ s)) else behind (c ∷ []) rest

-- The block and the body of a text whose opening `---` is taken off.
abbrev pub closing : Bytes → Cut → Result (Bytes × Bytes)
closing rest (some (block, after)) = ok (block, trim_left (λ c. c == b'\n') after)
closing rest none =
    if has_suffix rest (codes "\n---") then ok (take (length rest - 4) rest, []) else err not_closed

-- `unquoteValue`
unfoldable pub unquote_value : Bytes → Bytes
unquote_value s =
    if leb 2 (length s) && eq (take 1 s) (codes "\"") && eq (take 1 (reverse s)) (codes "\"")
    then take (length s - 2) (drop 1 s)
    else s

abbrev pub one_of : List Bytes → Bytes → Bool
one_of words s = any (λ w. eq s w) words

-- `parseBool`, with the key for the message.
unfoldable pub parse_bool : Bytes → Bytes → Result Bool
parse_bool key s =
    if one_of (codes "true" ∷ codes "True" ∷ codes "TRUE" ∷ codes "yes" ∷ codes "Yes" ∷ []) s
    then ok true
    else if one_of
        (codes "false" ∷ codes "False" ∷ codes "FALSE" ∷ codes "no" ∷ codes "No" ∷ [] ∷ []) s
    then ok false
    else err (bad_bool key s)

-- The `switch` on the key.
abbrev pub set_key : Bytes → Bytes → Frontmatter → Result Frontmatter
set_key key val fm =
    if eq key (codes "description")
    then ok (record fm { description = val })
    else if eq key (codes "deprecated")
    then (parse_bool key val >>= λ b. ok (record fm { deprecated = b }))
    else if eq key (codes "legacy")
    then (parse_bool key val >>= λ b. ok (record fm { legacy = b }))
    else err (unknown_key key)

abbrev pub key_value : ℕ → Bytes → Option (Bytes × Bytes) → Frontmatter → Result Frontmatter
key_value n trimmed none fm = err (no_key_value n trimmed)
key_value n trimmed (some (key, val)) fm =
    if is_empty key
    then err (no_key_value n trimmed)
    else set_key (trim_space key) (unquote_value (trim_space val)) fm

unfoldable pub parse_line : ℕ → Bytes → Frontmatter → Result Frontmatter
unfolding trim_space parse_bool unquote_value has_prefix cut
parse_line n line fm =
    let trimmed = trim_space line in
    if is_empty trimmed || has_prefix trimmed (codes "#")
    then ok fm
    else key_value n trimmed (cut b':' trimmed) fm

unfoldable pub parse_lines : ℕ → List Bytes → Frontmatter → Result Frontmatter
parse_lines n [] fm = ok fm
parse_lines n (line ∷ lines) fm = parse_line n line fm >>= parse_lines (suc n) lines

-- `ParseFrontmatter`: the keys and the body. With an error the code also returns the text, which
-- no caller reads.
unfoldable pub parse_frontmatter : Bytes → Result (Frontmatter × Bytes)
unfolding replace_crlf has_prefix cut_text parse_lines split
parse_frontmatter raw =
    let content = replace_crlf raw in
    let rest = drop 4 content in
    if has_prefix content (codes "---\n")
    then (closing rest (cut_text (codes "\n---\n") rest) >>= λ parts.
        parse_lines 1 (split b'\n' parts.0) no_frontmatter >>= λ fm. ok (fm, parts.1))
    else ok (no_frontmatter, content)
