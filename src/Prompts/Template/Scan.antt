-- ===== src/Prompts/Template/Scan.antt =====
-- The searches of internal/prompts/assembler/template.go: braces, the head of a directive, the
-- fallback of an include.
use ateam.Prelude.{
  trim_left, trim_right, ℕ, ◌+◌, ◌-◌, Bool, false, not, ◌&&◌, ◌||◌, Option, none, some, [], ◌∷◌,
  ◌++◌, Bytes, ◌==◌, ltb, if◌then◌else◌,
}

-- `isASCIISpace`
abbrev pub is_ascii_space : ℕ → Bool
is_ascii_space c = c == b' ' || c == b'\t' || c == b'\n'

abbrev pub is_blank : ℕ → Bool
is_blank c = c == b' ' || c == b'\t'

-- What stands before a place, and behind it.
abbrev pub Cut : Type 0
Cut = Option (Bytes × Bytes)

abbrev pub behind : Bytes → Cut → Cut
behind before none = none
behind before (some (l, r)) = some (before ++ l, r)

-- Up to the first `{{`, and from behind it on.
unfoldable pub cut_open : Bytes → Cut
cut_open [] = none
cut_open (c ∷ []) = none
cut_open (c ∷ (d ∷ s)) =
    let rest = cut_open (d ∷ s) in
    if c == b'{' && d == b'{' then some ([], s) else behind (c ∷ []) rest

-- `findClosingBrace`, with the depth so far: the text up to the balancing `}}`, and the text from
-- behind it on.
unfoldable pub cut_close : ℕ → Bytes → Cut
cut_close depth [] = none
cut_close depth (c ∷ []) = none
cut_close depth (c ∷ (d ∷ s)) =
    let deeper = cut_close (depth + 1) s in
    let higher = cut_close (depth - 1) s in
    let next = cut_close depth (d ∷ s) in
    if c == b'{' && d == b'{'
    then behind (c ∷ d ∷ []) deeper
    else if c == b'}' && d == b'}'
    then (if depth == 1 then some ([], s) else behind (c ∷ d ∷ []) higher)
    else behind (c ∷ []) next

-- `splitHead`
unfoldable pub split_head : Bytes → Bytes × Bytes
unfolding trim_left
split_head [] = ([], [])
split_head (c ∷ s) =
    let (head, rest) = split_head s in
    if is_ascii_space c then ([], trim_left is_ascii_space s) else (c ∷ head, rest)

-- Where the loop of `splitFallback` stands.
pub record Quoting : Type 0 where
  pub in_single : Bool
  pub in_double : Bool
  pub brace_depth : ℕ

abbrev pub quoted : Quoting → Bool
quoted q = q.in_single || q.in_double

-- The byte at the loop's index against the state: the new state, or a `?` that may separate.
pub data Seen : Type 0 where
  single : Quoting → Seen
  mark : Seen

abbrev pub brace_step : Quoting → ℕ → ℕ → Option Quoting
brace_step q c d =
    if quoted q
    then none
    else if c == b'{' && d == b'{'
    then some (record q { brace_depth = q.brace_depth + 1 })
    else if c == b'}' && d == b'}' && ltb 0 q.brace_depth
    then some (record q { brace_depth = q.brace_depth - 1 })
    else none

abbrev pub byte_step : Quoting → ℕ → Seen
byte_step q c =
    if ltb 0 q.brace_depth
    then single q
    else if not q.in_double && c == b'\''
    then single (record q { in_single = not q.in_single })
    else if not q.in_single && c == b'"'
    then single (record q { in_double = not q.in_double })
    else if quoted q
    then single q
    else if c == b'?'
    then mark
    else single q

-- The loop of `splitFallback`, with the byte before the index: what stands before the separator's
-- first blank, and the text from behind its second one on. The separator takes three bytes.
abbrev pub separates : Option ℕ → ℕ → Bool
separates none d = false
separates (some before) d = is_ascii_space before && is_ascii_space d

unfoldable pub cut_fallback : Quoting → Option ℕ → Bytes → Cut
cut_fallback q before [] = none
cut_fallback q before (c ∷ []) = none
cut_fallback q before (c ∷ (d ∷ s)) = elim (brace_step q c d) [
  | some r ↦ behind (c ∷ d ∷ []) (cut_fallback r (some d) s)
  | none ↦ elim (byte_step q c) [
    | single r ↦ behind (c ∷ []) (cut_fallback r (some c) (d ∷ s))
    | mark ↦
        if separates before d
        then some ([], s)
        else behind (c ∷ []) (cut_fallback q (some c) (d ∷ s))
  ]
]

abbrev pub outside : Quoting
outside = record { in_single = false; in_double = false; brace_depth = 0 }

-- `splitFallback`: the head, and the tail if there is one. What stands before the `?` ends with the
-- separator's first blank, which the trimming takes off.
unfoldable pub split_fallback : Bytes → Bytes × Option Bytes
unfolding cut_fallback trim_left trim_right
split_fallback s = elim (cut_fallback outside none s) [
  | none ↦ (s, none)
  | some (head, tail) ↦ (trim_right is_ascii_space head, some (trim_left is_ascii_space tail))
]
