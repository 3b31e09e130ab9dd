-- ===== src/Prompts/Template/Tokens.antt =====
-- `tokenize` of internal/prompts/assembler/template.go, and that it reads back what is quoted.
use ateam.Prelude.{
  ℕ, Bool, true, false, ◌&&◌, ◌||◌, List, [], ◌∷◌, ◌++◌, Bytes, ◌==◌, if◌then◌else◌,
}
use ateam.Prompts.Template.Scan.{is_ascii_space}

-- The arguments, or the quote that was not closed.
pub data Tokens : Type 0 where
  tokens : List Bytes → Tokens
  unterminated : ℕ → Tokens

abbrev pub front : Bytes → Tokens → Tokens
front t (tokens ts) = tokens (t ∷ ts)
front t (unterminated q) = unterminated q

-- What the loop does with the byte at its index: it stands in a quote, between tokens, or in one.
pub data Mode : Type 0 where
  quoted : ℕ → Mode
  between inside : Mode

abbrev pub mode_of : ℕ → Mode
mode_of c =
    if is_ascii_space c then between else if c == b'"' || c == b'\'' then quoted c else inside

abbrev pub flush : Bool → Bytes → Tokens → Tokens
flush in_token cur rest = if in_token then front cur rest else rest

abbrev pub is_escape : ℕ → ℕ → ℕ → Bool
is_escape q c d = c == b'\\' && (d == b'\\' || d == q)

-- The loop of `tokenize`: the quote that it is in, if any, whether it is in a token, and the bytes
-- of this token.
unfoldable mutual
  pub token_loop : Bool → Bytes → Bytes → Tokens
  token_loop in_token cur [] = flush in_token cur (tokens [])
  token_loop in_token cur (c ∷ s) = elim (mode_of c) [
    | between ↦ flush in_token cur (token_loop false [] s)
    | quoted q ↦ quote_loop q cur s
    | inside ↦ token_loop true (cur ++ c ∷ []) s
  ]

  pub quote_loop : ℕ → Bytes → Bytes → Tokens
  quote_loop q cur [] = unterminated q
  quote_loop q cur (c ∷ []) = if c == q then token_loop true cur [] else unterminated q
  quote_loop q cur (c ∷ (d ∷ s)) =
      if is_escape q c d
      then quote_loop q (cur ++ d ∷ []) s
      else if c == q
      then token_loop true cur (d ∷ s)
      else quote_loop q (cur ++ c ∷ []) (d ∷ s)

unfoldable pub tokenize : Bytes → Tokens
unfolding token_loop
tokenize s = token_loop false [] s
