-- ===== src/Prompts/Template/Quote.antt =====
-- `tokenize` reads back arguments that were quoted.
use ateam.Prelude.{
  ℕ, Bool, true, false, ◌||◌, List, [], ◌∷◌, ◌++◌, ◌≡◌, refl, sym, ap, ◌∙◌, Bool-cases, inl, inr,
  arith, Bytes, codes, join, map, ◌==◌, is_empty, if◌then◌else◌, append-nil, append_assoc,
}
use ateam.Prompts.Template.Tokens.{tokens, front, token_loop, quote_loop, tokenize}

-- A double quote and a backslash take a backslash.
unfoldable pub escape : Bytes → Bytes
escape [] = []
escape (c ∷ s) =
    let rest = escape s in if c == b'\\' || c == b'"' then b'\\' ∷ (c ∷ rest) else c ∷ rest

unfoldable pub quote : Bytes → Bytes
unfolding escape
quote a = b'"' ∷ (escape a ++ b'"' ∷ [])

quote_loop-end : (cur rest : Bytes) → quote_loop b'"' cur (b'"' ∷ rest) ≡ token_loop true cur rest
unfolding token_loop
quote_loop-end cur [] = refl
quote_loop-end cur (d ∷ s) = refl

quote_loop-plain :
    (cur : Bytes) (c : ℕ) (text : Bytes)
    → is_empty text ≡ false
    → (c == b'\\') ≡ false
    → (c == b'"') ≡ false
    → quote_loop b'"' cur (c ∷ text) ≡ quote_loop b'"' (cur ++ c ∷ []) text
unfolding token_loop
quote_loop-plain cur c [] h hb hq = cc
quote_loop-plain cur c (d ∷ s) h hb hq = rw (hb, hq) refl

quote_loop-escaped :
    (cur : Bytes) (c : ℕ) (text : Bytes)
    → (c == b'\\' || c == b'"') ≡ true
    → quote_loop b'"' cur (b'\\' ∷ (c ∷ text)) ≡ quote_loop b'"' (cur ++ c ∷ []) text
unfolding token_loop
quote_loop-escaped cur c text h = rw h refl

closed_ne : (s rest : Bytes) → is_empty (s ++ b'"' ∷ rest) ≡ false
closed_ne [] rest = refl
closed_ne (c ∷ s) rest = refl

step_assoc : (cur : Bytes) (c : ℕ) (a : Bytes) → (cur ++ c ∷ []) ++ a ≡ cur ++ c ∷ a
step_assoc cur c a = append_assoc cur (c ∷ []) a

escape-cons :
    (c : ℕ) (a rest : Bytes) (special : Bool)
    → (c == b'\\' || c == b'"') ≡ special
    → escape (c ∷ a) ++ rest
      ≡ (if special then b'\\' ∷ (c ∷ (escape a ++ rest)) else c ∷ (escape a ++ rest))
unfolding escape
escape-cons c a rest true h = rw h refl
escape-cons c a rest false h = rw h refl

escape_nil :
    (cur rest : Bytes) → quote_loop b'"' cur (escape [] ++ b'"' ∷ rest) ≡ token_loop true cur rest
unfolding escape
escape_nil cur rest = quote_loop-end cur rest

quote_loop-escape :
    (cur a rest : Bytes)
    → quote_loop b'"' cur (escape a ++ b'"' ∷ rest) ≡ token_loop true (cur ++ a) rest
quote_loop-escape cur [] rest =
    escape_nil cur rest ∙ ap (λ t. token_loop true t rest) (sym (append-nil cur))
quote_loop-escape cur (c ∷ a) rest = elim (Bool-cases (c == b'\\' || c == b'"')) [
  | inl special ↦
      ap (quote_loop b'"' cur) (escape-cons c a (b'"' ∷ rest) true special)
      ∙ quote_loop-escaped cur c (escape a ++ b'"' ∷ rest) special
      ∙ quote_loop-escape (cur ++ c ∷ []) a rest
      ∙ ap (λ t. token_loop true t rest) (step_assoc cur c a)
  | inr ordinary ↦
      ap (quote_loop b'"' cur) (escape-cons c a (b'"' ∷ rest) false ordinary)
      ∙ quote_loop-plain cur c (escape a ++ b'"' ∷ rest) (closed_ne (escape a) rest)
          (ground (arith, ordinary)) (ground (arith, ordinary))
      ∙ quote_loop-escape (cur ++ c ∷ []) a rest
      ∙ ap (λ t. token_loop true t rest) (step_assoc cur c a)
]

quote_front : (a rest : Bytes) → quote a ++ rest ≡ b'"' ∷ (escape a ++ b'"' ∷ rest)
unfolding quote
quote_front a rest = ap (◌∷◌ b'"') (append_assoc (escape a) (b'"' ∷ []) rest)

open_quote : (s : Bytes) → token_loop false [] (b'"' ∷ s) ≡ quote_loop b'"' [] s
unfolding token_loop
open_quote s = refl

token_loop-nil : token_loop false [] [] ≡ tokens []
unfolding token_loop
token_loop-nil = refl

token_loop-quote : (a rest : Bytes) → token_loop false [] (quote a ++ rest) ≡ token_loop true a rest
token_loop-quote a rest =
    ap (token_loop false []) (quote_front a rest)
    ∙ open_quote (escape a ++ b'"' ∷ rest)
    ∙ quote_loop-escape [] a rest

token_loop-flush :
    (a : Bytes) (rest : Bytes)
    → token_loop true a (b' ' ∷ rest) ≡ front a (token_loop false [] rest)
unfolding token_loop
token_loop-flush a rest = refl

token_loop-last : (a : Bytes) → token_loop true a [] ≡ tokens (a ∷ [])
unfolding token_loop
token_loop-last a = refl

tokenize_join :
    (args : List Bytes) → token_loop false [] (join (codes " ") (map quote args)) ≡ tokens args
unfolding join
tokenize_join [] = token_loop-nil
tokenize_join (a ∷ []) =
    ap (token_loop false []) (sym (append-nil (quote a)))
    ∙ token_loop-quote a []
    ∙ token_loop-last a
tokenize_join (a ∷ (b ∷ args)) =
    token_loop-quote a (b' ' ∷ join (codes " ") (quote b ∷ map quote args))
    ∙ token_loop-flush a (join (codes " ") (quote b ∷ map quote args))
    ∙ ap (front a) (tokenize_join (b ∷ args))

-- `tokenize` takes arguments that are put in double quotes, with a backslash before every double
-- quote and every backslash in them, and joined by blanks, back to these arguments, whatever they
-- contain.
pub tokenize-quote :
    (args : List Bytes) → tokenize (join (codes " ") (map quote args)) ≡ tokens args
unfolding tokenize
tokenize-quote args = tokenize_join args
