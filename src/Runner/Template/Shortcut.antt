-- ===== src/Runner/Template/Shortcut.antt =====
-- A text without `{{` has nothing to substitute.
use ateam.Prelude.{
  ℕ, zero, ◌-◌, length, Bool, true, false, not, ◌||◌, Option, none, some, [], ◌∷◌, ◌++◌, ◌≡◌, refl,
  sym, ap, ◌∙◌, arith, Bytes, codes, map, has_prefix, contains, if◌then◌else◌,
}
use ateam.Prelude.Dict.{Dict}
use ateam.Runner.Template.{
  TemplateVars, Embedded, named_values, braced, replacer, matching, replace_from, replace,
  resolve_template_string,
}

-- A text that does not begin with two braces does not begin with a name in braces.
no_brace : (s name : Bytes) → has_prefix s (codes "{{") ≡ false → has_prefix s (braced name) ≡ false
unfolding has_prefix
no_brace [] name h = refl
no_brace (c ∷ []) name h = ground arith
no_brace (c ∷ (d ∷ s)) name h = ground (arith, h)

matching-no_brace :
    (values : Dict Bytes) (s : Bytes)
    → has_prefix s (codes "{{") ≡ false
    → matching (map (λ e. (braced e.0, e.1)) values) s ≡ none
unfolding matching
matching-no_brace [] s h = refl
matching-no_brace (e ∷ values) s h = rw (no_brace s e.0 h) (matching-no_brace values s h)

or-left : (a b : Bool) → (a || b) ≡ false → a ≡ false
or-left true b h = h
or-left false b h = refl

or-right : (a b : Bool) → (a || b) ≡ false → b ≡ false
or-right true b h = cc
or-right false b h = h

unmatched :
    (pairs : Dict Bytes) (c : ℕ) (s : Bytes) (m : Option (Bytes × Bytes))
    → m ≡ none
    → elim m [
      | none ↦ c ∷ replace_from pairs zero s
      | some (old, value) ↦ value ++ replace_from pairs (length old - 1) s
    ]
      ≡ c ∷ replace_from pairs zero s
unmatched pairs c s none h = refl
unmatched pairs c s (some e) h = cc

replace_from-plain :
    (values : Dict Bytes) (s : Bytes)
    → contains s (codes "{{") ≡ false
    → replace_from (map (λ e. (braced e.0, e.1)) values) zero s ≡ s
unfolding replace_from contains
replace_from-plain values [] h = refl
replace_from-plain values (c ∷ s) h =
    unmatched (map (λ e. (braced e.0, e.1)) values) c s
      (matching (map (λ e. (braced e.0, e.1)) values) (c ∷ s))
      (matching-no_brace values (c ∷ s)
        (or-left (has_prefix (c ∷ s) (codes "{{")) (contains s (codes "{{")) h))
    ∙ ap (◌∷◌ c) (
        replace_from-plain values s
          (or-right (has_prefix (c ∷ s) (codes "{{")) (contains s (codes "{{")) h))

shortcut :
    (pairs : Dict Bytes) (s : Bytes) (there : Bool)
    → (there ≡ false → replace pairs s ≡ s)
    → (if not there then s else replace pairs s) ≡ replace pairs s
shortcut pairs s true h = refl
shortcut pairs s false h = sym (h refl)

-- The shortcut of `ResolveTemplateString` for a text without `{{` changes nothing: it returns what
-- the replacement of all variables makes of the text, for every text and all values.
pub resolve_template_string-replace :
    (d : Embedded) (v : TemplateVars) (s : Bytes)
    → resolve_template_string d v s ≡ replace (replacer d v) s
unfolding resolve_template_string replacer
resolve_template_string-replace d v s =
    shortcut (replacer d v) s (contains s (codes "{{"))
      (λ plain. replace_from-plain (named_values d v) s plain)
