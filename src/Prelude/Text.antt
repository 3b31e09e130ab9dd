-- ===== src/Prelude/Text.antt =====
-- Texts as lists of bytes, and what the program uses of Go's package `strings`.
use Prim.Native.Char.{code}
use Prim.Native.String.{String}
use Prim.Native.Nat.{ℕ, zero, suc, ◌+◌, ◌/◌, ◌%◌}
use mathlib.Core.Path.{◌≡◌, refl}
use mathlib.Core.Logic.{◌↔◌}
use mathlib.Core.Bool.{Bool, true, false, ◌&&◌, ◌||◌}
use mathlib.Core.List.{List, [], ◌∷◌, ◌++◌, reverse}
use mathlib.Core.Option.{Option, none, some}
use native.Mathlib.Omega.{arith}
use ateam.Prelude.Tests.{leb, ltb, ◌==◌, if◌then◌else◌}
use ateam.Prelude.Lists.{length, drop}

abbrev pub Bytes : Type 0
Bytes = List ℕ

-- A literal; every literal of the development is ASCII.
abbrev pub codes : String → Bytes
codes String.[] = []
codes (String.◌∷◌ c s) = code c ∷ codes s

-- `==` on strings.
unfoldable pub eq : Bytes → Bytes → Bool
eq [] [] = true
eq (x ∷ xs) (y ∷ ys) = x == y && eq xs ys
eq _ _ = false

pub eq_iff : (a b : Bytes) → (eq a b ≡ true) ↔ (a ≡ b)
unfolding eq
eq_iff (x ∷ a) (y ∷ b) = ground (arith, eq_iff a b)
eq_iff _ _ = ground arith

pub eq_refl : (a : Bytes) → eq a a ≡ true
eq_refl a = (eq_iff a a).1 refl

-- `s == ""`
abbrev pub is_empty {ℓ} : {A : Type ℓ} → List A → Bool
is_empty [] = true
is_empty (_ ∷ _) = false

-- `strings.HasPrefix(s, p)`
unfoldable pub has_prefix : Bytes → Bytes → Bool
has_prefix s [] = true
has_prefix [] (_ ∷ _) = false
has_prefix (x ∷ s) (y ∷ p) = x == y && has_prefix s p

-- `strings.HasSuffix(s, p)`
unfoldable pub has_suffix : Bytes → Bytes → Bool
unfolding has_prefix
has_suffix s p = has_prefix (reverse s) (reverse p)

-- `strings.Split(s, sep)` for a separator of one byte: never the empty list.
abbrev pub on_head : ℕ → List Bytes → List Bytes
on_head x [] = (x ∷ []) ∷ []
on_head x (p ∷ ps) = (x ∷ p) ∷ ps

unfoldable pub split : ℕ → Bytes → List Bytes
split c [] = [] ∷ []
split c (x ∷ s) = let rest = split c s in if x == c then [] ∷ rest else on_head x rest

-- `strings.Cut(s, sep)` for a separator of one byte: none if it does not occur.
unfoldable pub cut : ℕ → Bytes → Option (Bytes × Bytes)
cut c [] = none
cut c (x ∷ s) =
    if x == c
    then some ([], s)
    else elim (cut c s) [ none ↦ none | some (before, after) ↦ some (x ∷ before, after) ]

-- `strings.Join(parts, sep)`
unfoldable pub join : Bytes → List Bytes → Bytes
join sep [] = []
join sep (p ∷ []) = p
join sep (p ∷ (q ∷ ps)) = p ++ (sep ++ join sep (q ∷ ps))

-- The length of the white space that a text begins with: 1 for the ASCII spaces, else the width
-- in UTF-8 of a code point in `unicode.IsSpace`, 0 for none.
abbrev pub ascii_space : ℕ → Bool
ascii_space c = (leb 9 c && leb c 13) || c == 32

abbrev wide_space : Bytes → ℕ
wide_space (a ∷ (b ∷ (c ∷ _))) =
    if a == 0xc2 && (b == 0x85 || b == 0xa0)
    then 2
    else if (a == 0xe1 && b == 0x9a && c == 0x80)
        || (a == 0xe2
            && b == 0x80
            && ((leb 0x80 c && leb c 0x8a) || c == 0xa8 || c == 0xa9 || c == 0xaf))
        || (a == 0xe2 && b == 0x81 && c == 0x9f)
        || (a == 0xe3 && b == 0x80 && c == 0x80)
    then 3
    else 0
wide_space (a ∷ (b ∷ [])) = if a == 0xc2 && (b == 0x85 || b == 0xa0) then 2 else 0
wide_space _ = 0

leading_space : Bytes → ℕ
leading_space [] = 0
leading_space (c ∷ s) = if ascii_space c then 1 else wide_space (c ∷ s)

-- The same at the end of a text, read backwards.
abbrev wide_space_back : Bytes → ℕ
wide_space_back (c ∷ (b ∷ (a ∷ _))) =
    let two = wide_space (b ∷ c ∷ []) in
    if two == 2 then 2 else let three = wide_space (a ∷ b ∷ c ∷ []) in if three == 3 then 3 else 0
wide_space_back (b ∷ (a ∷ [])) = wide_space (a ∷ b ∷ [])
wide_space_back _ = 0

trailing_space : Bytes → ℕ
trailing_space [] = 0
trailing_space (c ∷ s) = if ascii_space c then 1 else wide_space_back (c ∷ s)

-- Every round removes a byte at least, so the length is fuel enough.
strip : (Bytes → ℕ) → ℕ → Bytes → Bytes
strip space zero s = s
strip space (suc f) s =
    let rest = strip space f (drop (space s) s) in if space s == 0 then s else rest

-- `strings.TrimSpace(s)`
unfoldable pub trim_space : Bytes → Bytes
unfolding strip leading_space trailing_space
trim_space s =
    let left = strip leading_space (length s) s in
    reverse (strip trailing_space (length left) (reverse left))

-- `strings.TrimLeft` and `strings.TrimRight` for a set of bytes.
unfoldable pub trim_left : (ℕ → Bool) → Bytes → Bytes
trim_left p [] = []
trim_left p (c ∷ s) = let rest = trim_left p s in if p c then rest else c ∷ s

unfoldable pub trim_right : (ℕ → Bool) → Bytes → Bytes
trim_right p [] = []
trim_right p (c ∷ s) = let rest = trim_right p s in if is_empty rest && p c then [] else c ∷ rest

-- `strings.ReplaceAll(s, "\r\n", "\n")`
unfoldable pub replace_crlf : Bytes → Bytes
replace_crlf [] = []
replace_crlf (c ∷ []) = c ∷ []
replace_crlf (c ∷ (d ∷ s)) =
    let rest = replace_crlf (d ∷ s) in if c == b'\r' && d == b'\n' then rest else c ∷ rest

-- `strings.Contains(s, part)`
unfoldable pub contains : Bytes → Bytes → Bool
unfolding has_prefix
contains [] part = is_empty part
contains (c ∷ s) part = has_prefix (c ∷ s) part || contains s part

-- `strings.Fields(s)`, with the bytes of the field so far, and what is left of a wide space.
flush_field : Bytes → List Bytes → List Bytes
flush_field [] fs = fs
flush_field (c ∷ cur) fs = (c ∷ cur) ∷ fs

fields_onto : Bytes → ℕ → Bytes → List Bytes
unfolding flush_field
fields_onto cur skip [] = flush_field cur []
fields_onto cur (suc skip) (c ∷ s) = fields_onto cur skip s
fields_onto cur zero (c ∷ s) = elim (leading_space (c ∷ s)) [
  | zero ↦ fields_onto (cur ++ c ∷ []) zero s
  | suc more ↦ flush_field cur (fields_onto [] more s)
]

unfoldable pub fields : Bytes → List Bytes
unfolding fields_onto leading_space
fields s = fields_onto [] zero s

-- `%d` for a number that is not negative: a number has no more digits than its size.
decimal_digits : ℕ → ℕ → Bytes
decimal_digits zero n = []
decimal_digits (suc fuel) n =
    let rest = decimal_digits fuel (n / 10) in
    if ltb n 10 then (48 + n) ∷ [] else rest ++ (48 + n % 10) ∷ []

unfoldable pub decimal : ℕ → Bytes
unfolding decimal_digits
decimal n = decimal_digits (suc n) n
