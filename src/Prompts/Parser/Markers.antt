-- ===== src/Prompts/Parser/Markers.antt =====
-- What the searches of the parser find: suffixes, prefixes and markers, with what stands around
-- them.
use ateam.Prelude.{
  ℕ, zero, suc, ◌+◌, Bool, true, false, Option, none, some, [], ◌∷◌, ◌++◌, ◌≡◌, refl, ap, ◌∙◌,
  arith, Bytes, codes, eq, eq_iff, has_prefix, length, take, drop, if◌then◌else◌, append-nil,
}
use mathlib.Core.Path.{subst}
use ateam.Prompts.Parser.{strip_suffix, last_index, after_marker, scan_marker, split_marker}

-- A fragment's name behind its dot.
abbrev pub dotted : Bytes → Bytes
dotted [] = []
dotted (c ∷ name) = codes "." ++ c ∷ name

abbrev pub Strips : Bytes → Bytes → Option Bytes → Type 0
Strips s p none = Unit
Strips s p (some b) = s ≡ b ++ p

pub strip_suffix-Strips : (s p : Bytes) → Strips s p (strip_suffix s p)
unfolding strip_suffix
strip_suffix-Strips [] p = ground (arith, eq_iff [] p)
strip_suffix-Strips (x ∷ s) p =
    step (eq (x ∷ s) p) (strip_suffix s p) (eq_iff (x ∷ s) p).0 (strip_suffix-Strips s p)
  where
    step :
        (e : Bool) (o : Option Bytes)
        → (e ≡ true → x ∷ s ≡ p)
        → Strips s p o
        → Strips (x ∷ s) p (if e then some [] else elim o [ none ↦ none | some b ↦ some (x ∷ b) ])
    step true o he h = he refl
    step false none he h = tt
    step false (some b) he h = ap (◌∷◌ x) h

pub has_prefix-append : (s p : Bytes) → has_prefix s p ≡ true → s ≡ p ++ drop (length p) s
unfolding has_prefix
has_prefix-append s [] h = refl
has_prefix-append [] (y ∷ p) h = cc
has_prefix-append (x ∷ s) (y ∷ p) h = ground (arith, has_prefix-append s p)

abbrev FoundAt : Bytes → Bytes → Option ℕ → Type 0
FoundAt s needle none = Unit
FoundAt s needle (some i) = has_prefix (drop i s) needle ≡ true

last_index-FoundAt : (s needle : Bytes) → FoundAt s needle (last_index s needle)
unfolding last_index
last_index-FoundAt [] needle = tt
last_index-FoundAt (x ∷ s) needle =
    step (last_index s needle) (has_prefix (x ∷ s) needle) refl (last_index-FoundAt s needle)
  where
    step :
        (o : Option ℕ) (e : Bool)
        → has_prefix (x ∷ s) needle ≡ e
        → FoundAt s needle o
        → FoundAt
            (x ∷ s)
            needle
            (elim o [ some i ↦ some (suc i) | none ↦ if e then some 0 else none ])
    step (some i) e he h = h
    step none true he h = he
    step none false he h = tt

-- A text begins as its own beginning does.
has_prefix-longer : (s r p : Bytes) → has_prefix s p ≡ true → has_prefix (s ++ r) p ≡ true
unfolding has_prefix
has_prefix-longer s r [] h = refl
has_prefix-longer [] r (y ∷ p) h = cc
has_prefix-longer (x ∷ s) r (y ∷ p) h = ground (arith, has_prefix-longer s r p)

has_prefix-drop_longer :
    (i : ℕ) (s r p : Bytes) → has_prefix (drop i s) p ≡ true → has_prefix (drop i (s ++ r)) p ≡ true
unfolding has_prefix
has_prefix-drop_longer zero s r p h = has_prefix-longer s r p h
has_prefix-drop_longer (suc i) [] r [] h = refl
has_prefix-drop_longer (suc i) [] r (y ∷ p) h = cc
has_prefix-drop_longer (suc i) (x ∷ s) r p h = has_prefix-drop_longer i s r p h

zero_plus : (n : ℕ) → n ≡ 0 + n
zero_plus n = omega arith

suc_plus : (i n : ℕ) → suc (i + n) ≡ suc i + n
suc_plus i n = omega arith

split-found :
    (i : ℕ) (s p : Bytes)
    → has_prefix (drop i s) p ≡ true
    → s ≡ take i s ++ (p ++ drop (i + length p) s)
split-found zero s p h = has_prefix-append s p h ∙ ap (λ n. p ++ drop n s) (zero_plus (length p))
split-found (suc i) [] [] h = ap (λ n. drop {A = ℕ} n []) (suc_plus i 0)
split-found (suc i) [] (y ∷ p) h = absurd (unfold has_prefix in ground arith)
split-found (suc i) (x ∷ s) p h =
    ap (◌∷◌ x) (split-found i s p h)
    ∙ ap (λ n. x ∷ (take i s ++ (p ++ drop n (x ∷ s)))) (suc_plus i (length p))

take-drop : (i : ℕ) (s : Bytes) → take i s ++ drop i s ≡ s
take-drop zero s = refl
take-drop (suc i) [] = refl
take-drop (suc i) (x ∷ s) = ap (◌∷◌ x) (take-drop i s)

abbrev pub Marks : Bytes → Bytes → Option (Bytes × Bytes) → Type 0
Marks body needle none = Unit
Marks body needle (some (role, fragment)) = body ≡ role ++ (needle ++ dotted fragment)

after_marker-Marks :
    (body needle before after : Bytes) (further : Option (Bytes × Bytes))
    → body ≡ before ++ (needle ++ after)
    → Marks body needle further
    → Marks body needle (after_marker before after further)
after_marker-Marks body needle before [] further h k = h
after_marker-Marks body needle before (c ∷ []) further h k = step (eq (c ∷ []) (codes "."))
  where
    step : (e : Bool) → Marks body needle (if e then none else further)
    step true = tt
    step false = k
after_marker-Marks body needle before (c ∷ (d ∷ rest)) further h k =
    step (eq (c ∷ []) (codes ".")) (eq_iff (c ∷ []) (codes ".")).0
  where
    step :
        (e : Bool)
        → (e ≡ true → c ∷ [] ≡ codes ".")
        → Marks body needle (if e then some (before, d ∷ rest) else further)
    step true he = h ∙ ap (λ z. before ++ (needle ++ (z ++ d ∷ rest))) (he refl)
    step false he = k

scan_marker-Marks :
    (fuel : ℕ) (body needle search rest : Bytes)
    → search ++ rest ≡ body
    → Marks body needle (scan_marker fuel body needle search)
unfolding scan_marker
scan_marker-Marks zero body needle search rest h = tt
scan_marker-Marks (suc fuel) body needle search rest h =
    step (last_index search needle) (last_index-FoundAt search needle) (λ k.
      scan_marker-Marks fuel body needle (take (suc k) body) (drop (suc k) body)
        (take-drop (suc k) body))
  where
    step :
        (o : Option ℕ)
        → FoundAt search needle o
        → ((k : ℕ) → Marks body needle (scan_marker fuel body needle (take (suc k) body)))
        → Marks body needle (elim o [
          | none ↦ none
          | some i ↦ elim i [
            | zero ↦ none
            | suc k ↦
                after_marker
                  (take (suc k) body)
                  (drop (suc k + length needle) body)
                  (scan_marker fuel body needle (take (suc k) body))
          ]
        ])
    step none f ih = tt
    step (some zero) f ih = tt
    step (some (suc k)) f ih =
        after_marker-Marks body needle (take (suc k) body) (drop (suc k + length needle) body) _
          (split-found (suc k) body needle (
            subst (λ z. has_prefix (drop (suc k) z) needle ≡ true) h
              (has_prefix-drop_longer (suc k) search rest needle f)))
          (ih k)

pub split_marker-Marks :
    (body marker : Bytes) → Marks body (codes "." ++ marker) (split_marker body marker)
unfolding split_marker
split_marker-Marks body marker =
    scan_marker-Marks (length body) body (codes "." ++ marker) body [] (append-nil body)
