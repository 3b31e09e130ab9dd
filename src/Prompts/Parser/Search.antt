-- ===== src/Prompts/Parser/Search.antt =====
-- The search for a marker is given fuel enough, and a role's file is parsed as such.
use ateam.Prelude.{
  ℕ, zero, suc, ◌+◌, ◌≤◌, ◌<◌, false, Option, none, some, [], ◌∷◌, ◌++◌, ◌≡◌, refl, ap, ◌∙◌, arith,
  Bytes, codes, eq, eq_iff, eq_refl, has_prefix, length, take, drop, length-append,
}
use ateam.Prompts.Parser.{
  role_main, strip_suffix, last_index, after_marker, scan_marker, parse_role_level, parse_stripped,
  parse,
}

abbrev Below : ℕ → Option ℕ → Type 0
Below n none = Unit
Below n (some i) = i < n

last_index-Below : (s needle : Bytes) → Below (length s) (last_index s needle)
unfolding last_index
last_index-Below [] needle = tt
last_index-Below (x ∷ s) needle = ground (arith, last_index-Below s needle)

length-take_le : (n : ℕ) (s : Bytes) → length (take n s) ≤ n
length-take_le zero s = omega arith
length-take_le (suc n) [] = omega arith
length-take_le (suc n) (x ∷ s) = omega (arith, length-take_le n s)

-- A search of the loop of `splitMarker` is not cut short by its fuel: with as much fuel as the
-- searched text has bytes, more fuel changes nothing.
pub scan_marker-fuel :
    (fuel : ℕ) (body needle text : Bytes)
    → length text ≤ fuel
    → scan_marker fuel body needle text ≡ scan_marker (suc fuel) body needle text
unfolding scan_marker last_index
scan_marker-fuel zero body needle [] le = refl
scan_marker-fuel zero body needle (x ∷ text) le = absurd (omega arith)
scan_marker-fuel (suc fuel) body needle text le =
    step (last_index text needle) (last_index-Below text needle) (λ k h.
      scan_marker-fuel fuel body needle (take (suc k) body)
        (omega (arith, h, length-take_le (suc k) body)))
  where
    step :
        (o : Option ℕ)
        → Below (length text) o
        → ((k : ℕ)
            → suc k < length text
            → scan_marker fuel body needle (take (suc k) body)
              ≡ scan_marker (suc fuel) body needle (take (suc k) body))
        → elim o [
          | none ↦ none
          | some i ↦ elim i [
            | zero ↦ none
            | suc k ↦
                after_marker
                  (take (suc k) body)
                  (drop (suc k + length needle) body)
                  (scan_marker fuel body needle (take (suc k) body))
          ]
        ]
          ≡ elim o [
            | none ↦ none
            | some i ↦ elim i [
              | zero ↦ none
              | suc k ↦
                  after_marker
                    (take (suc k) body)
                    (drop (suc k + length needle) body)
                    (scan_marker (suc fuel) body needle (take (suc k) body))
            ]
          ]
    step none b ih = refl
    step (some zero) b ih = refl
    step (some (suc k)) b ih =
        ap (after_marker (take (suc k) body) (drop (suc k + length needle) body)) (ih k b)

eq-longer : (s p : Bytes) → length p < length s → eq s p ≡ false
eq-longer s p h = ground (arith, eq_iff s p)

strip_suffix-append : (b p : Bytes) → strip_suffix (b ++ p) p ≡ some b
unfolding strip_suffix
strip_suffix-append [] [] = rw (eq_refl []) refl
strip_suffix-append [] (y ∷ p) = rw (eq_refl (y ∷ p)) refl
strip_suffix-append (x ∷ b) p =
    rw (eq-longer (x ∷ (b ++ p)) p (omega (arith, length-append b p)), strip_suffix-append b p) refl

no_score :
    (c : ℕ) (role rest : Bytes)
    → has_prefix (c ∷ role) (codes "_") ≡ false
    → has_prefix (c ∷ rest) (codes "_") ≡ false
unfolding has_prefix
no_score c role rest h = ground arith

parse_stripped-role :
    (filename : Bytes) (c : ℕ) (body : Bytes)
    → has_prefix filename (codes "_") ≡ false
    → parse_stripped filename (some (c ∷ body)) ≡ parse_role_level (c ∷ body)
parse_stripped-role filename c body h = rw h refl

parse_role_level-main :
    (c : ℕ) (role : Bytes)
    → parse_role_level (c ∷ (role ++ codes ".prompt"))
      ≡ record { kind = role_main; role = c ∷ role; fragment = [] }
unfolding parse_role_level
parse_role_level-main c role =
    rw (strip_suffix-append (c ∷ role) (codes ".prompt"), parse_role_level) refl

-- The file `<role>.prompt.md` is parsed as the main file of its role, whatever dots and markers
-- the role has, if the role is not empty and does not begin with `_`.
pub parse-role_main :
    (c : ℕ) (role : Bytes)
    → has_prefix (c ∷ role) (codes "_") ≡ false
    → parse ((c ∷ (role ++ codes ".prompt")) ++ codes ".md")
      ≡ record { kind = role_main; role = c ∷ role; fragment = [] }
unfolding parse
parse-role_main c role h =
    ap (parse_stripped ((c ∷ (role ++ codes ".prompt")) ++ codes ".md"))
      (strip_suffix-append (c ∷ (role ++ codes ".prompt")) (codes ".md"))
    ∙ parse_stripped-role ((c ∷ (role ++ codes ".prompt")) ++ codes ".md") c
        (role ++ codes ".prompt") (no_score c role _ h)
    ∙ parse_role_level-main c role
