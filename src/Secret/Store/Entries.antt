-- ===== src/Secret/Store/Entries.antt =====
-- What `Set` and `Delete` do to the lines of the file, as `readAll` reads them.
use ateam.Prelude.{
  ℕ, ◌≤◌, false, not, Option, none, some, List, [], ◌∷◌, ◌++◌, ◌≡◌, ◌≢◌, refl, arith, ◌==◌, leb,
  if◌then◌else◌, Bytes, codes, eq, eq_iff, eq_refl, is_empty, has_prefix, cut, trim_space, count,
  All, All-append, Bool-cases, inl, inr,
}
use ateam.Prelude.Dict.{Dict, lookup, insert, lookup-insert}
use ateam.Secret.Store.{
  parse_line, key_of, value_of, assignment, read_entries, replace_first, set_lines, delete_lines,
}
use ateam.Secret.Store.Lines.{IsPlain}

-- The value on the last line of a key: what a map filled line by line holds in the end.
abbrev pub last_value : Bytes → List Bytes → Option Bytes
last_value name [] = none
last_value name (line ∷ lines) = elim (last_value name lines) [
  | some v ↦ some v
  | none ↦ if eq (key_of line) name then some (value_of line) else none
]

abbrev pub lines_of : Bytes → List Bytes → ℕ
lines_of name = count (λ line. eq (key_of line) name)

pub lookup-read_entries :
    (name : Bytes) (lines : List Bytes) (m : Dict Bytes)
    → is_empty name ≡ false
    → lookup name (read_entries lines m)
      ≡ elim (last_value name lines) [ some v ↦ some v | none ↦ lookup name m ]
unfolding read_entries
lookup-read_entries name [] m h = refl
lookup-read_entries name (line ∷ lines) m h = ground (
  arith,
  lookup-read_entries name lines m h,
  lookup-read_entries name lines (insert (key_of line) (value_of line) m) h,
  lookup-insert (key_of line) name (value_of line) m,
  eq_iff (key_of line) name,
)

-- A name and a value that one line can hold.
pub record IsStorable (name value : Bytes) : Type 0 where
  pub name_ne : is_empty name ≡ false
  pub no_equals : cut b'=' name ≡ none
  pub no_comment : has_prefix (assignment name value) (codes "#") ≡ false
  pub whole_trimmed : trim_space (assignment name value) ≡ assignment name value
  pub name_trimmed : trim_space name ≡ name
  pub value_trimmed : trim_space value ≡ value
  pub plain : IsPlain (assignment name value)

cut-append : (c : ℕ) (k v : Bytes) → cut c k ≡ none → cut c (k ++ c ∷ v) ≡ some (k, v)
unfolding cut
cut-append c [] v h = ground arith
cut-append c (x ∷ k) v h = ground (arith, cut-append c k v)

is_empty-append : (xs ys : Bytes) → is_empty xs ≡ false → is_empty (xs ++ ys) ≡ false
is_empty-append [] ys h = cc
is_empty-append (x ∷ xs) ys h = refl

parse_line-assignment :
    (name value : Bytes)
    → IsStorable name value
    → parse_line (assignment name value) ≡ (name, value)
unfolding parse_line
parse_line-assignment name value s = rw s.whole_trimmed (
    ground (
      arith,
      s.name_ne,
      s.no_comment,
      is_empty-append name (codes "=" ++ value),
      cut-append b'=' name value s.no_equals,
      s.name_trimmed,
      s.value_trimmed,
    ))

-- Setting a key that stands on at most one line makes its value the last one.
last_value-append :
    (name : Bytes) (lines : List Bytes) (line : Bytes)
    → last_value name (lines ++ line ∷ [])
      ≡ (if eq (key_of line) name then some (value_of line) else last_value name lines)
last_value-append name [] line = refl
last_value-append name (l ∷ lines) line = ground (arith, last_value-append name lines line)

-- The flag of `replace_first` tells whether the key stands on some line.
replace_first_found :
    (name value : Bytes) (lines : List Bytes)
    → (replace_first name value lines).1 ≡ not (lines_of name lines == 0)
unfolding replace_first
replace_first_found name value [] = refl
replace_first_found name value (l ∷ lines) = ground (arith, replace_first_found name value lines)

pub last_value-none :
    (name : Bytes) (lines : List Bytes) → lines_of name lines ≡ 0 → last_value name lines ≡ none
last_value-none name [] h = refl
last_value-none name (l ∷ lines) h = ground (arith, last_value-none name lines)

last_value-some :
    (name : Bytes) (lines : List Bytes) → 1 ≤ lines_of name lines → last_value name lines ≢ none
last_value-some name [] h = omega arith
last_value-some name (l ∷ lines) h = ground (arith, last_value-some name lines)

replace_first_absent :
    (name value : Bytes) (lines : List Bytes)
    → lines_of name lines ≡ 0
    → (replace_first name value lines).0 ≡ lines
unfolding replace_first
replace_first_absent name value [] h = refl
replace_first_absent name value (l ∷ lines) h =
    ground (arith, replace_first_absent name value lines)

module _ (name value : Bytes) (s : IsStorable name value) where
  -- One line at most: the new value. More: the old value of a later line stays in force.
  last_value-replace_first :
      (lines : List Bytes)
      → 1 ≤ lines_of name lines
      → last_value name (replace_first name value lines).0
        ≡ (if lines_of name lines == 1 then some value else last_value name lines)
  unfolding replace_first
  last_value-replace_first [] h = refl
  last_value-replace_first (l ∷ lines) h = ground (
    arith,
    parse_line-assignment name value s,
    eq_iff (key_of l) name,
    eq_refl name,
    last_value-none name lines,
    last_value-some name lines,
    last_value-replace_first lines,
  )

  pub last_value-set_lines :
      (lines : List Bytes)
      → last_value name (set_lines name value lines)
        ≡ (if leb (lines_of name lines) 1 then some value else last_value name lines)
  unfolding set_lines
  last_value-set_lines lines = ground (
    arith,
    replace_first_found name value lines,
    replace_first_absent name value lines,
    last_value-append name (replace_first name value lines).0 (assignment name value),
    parse_line-assignment name value s,
    eq_refl name,
    last_value-replace_first lines,
  )

  last_value-replace_first_ne :
      (other : Bytes) (lines : List Bytes)
      → other ≢ name
      → last_value other (replace_first name value lines).0 ≡ last_value other lines
  unfolding replace_first
  last_value-replace_first_ne other [] ne = refl
  last_value-replace_first_ne other (l ∷ lines) ne = ground (
    arith,
    parse_line-assignment name value s,
    eq_iff name other,
    eq_iff (key_of l) name,
    eq_iff (key_of l) other,
    last_value-replace_first_ne other lines ne,
  )

  -- Other keys keep their values.
  pub last_value-set_lines_ne :
      (other : Bytes) (lines : List Bytes)
      → other ≢ name
      → last_value other (set_lines name value lines) ≡ last_value other lines
  unfolding set_lines
  last_value-set_lines_ne other lines ne = ground (
    arith,
    last_value-append other (replace_first name value lines).0 (assignment name value),
    parse_line-assignment name value s,
    eq_iff name other,
    last_value-replace_first_ne other lines ne,
  )

pub last_value-delete_lines :
    (name other : Bytes) (lines : List Bytes)
    → last_value other (delete_lines name lines).0
      ≡ (if eq other name then none else last_value other lines)
unfolding delete_lines
last_value-delete_lines name other [] = ground arith
last_value-delete_lines name other (l ∷ lines) = ground (
  arith,
  eq_iff other name,
  eq_iff (key_of l) name,
  eq_iff (key_of l) other,
  last_value-delete_lines name other lines,
)

pub delete_lines_found :
    (name : Bytes) (lines : List Bytes)
    → (delete_lines name lines).1 ≡ not (lines_of name lines == 0)
unfolding delete_lines
delete_lines_found name [] = refl
delete_lines_found name (l ∷ lines) = ground (arith, delete_lines_found name lines)

-- Both leave every line one that is read back as it was written.
replace_first-IsPlain :
    (name value : Bytes) (lines : List Bytes)
    → IsPlain (assignment name value)
    → All IsPlain lines
    → All IsPlain (replace_first name value lines).0
unfolding replace_first
replace_first-IsPlain name value [] p h = h
replace_first-IsPlain name value (l ∷ lines) p h =
    ground (arith, replace_first-IsPlain name value lines p h.1)

pub set_lines-IsPlain :
    (name value : Bytes) (lines : List Bytes)
    → IsPlain (assignment name value)
    → All IsPlain lines
    → All IsPlain (set_lines name value lines)
unfolding set_lines
set_lines-IsPlain name value lines p h = elim (Bool-cases (replace_first name value lines).1) [
  | inl found ↦ rw found (replace_first-IsPlain name value lines p h)
  | inr absent ↦
      rw absent (All-append IsPlain _ _ (replace_first-IsPlain name value lines p h) (p, tt))
]

pub delete_lines-IsPlain :
    (name : Bytes) (lines : List Bytes)
    → All IsPlain lines
    → All IsPlain (delete_lines name lines).0
unfolding delete_lines
delete_lines-IsPlain name [] h = h
delete_lines-IsPlain name (l ∷ lines) h = ground (arith, delete_lines-IsPlain name lines h.1)
