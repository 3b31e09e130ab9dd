-- ===== src/Prompts/Orphan/Distance.antt =====
-- The table of `levenshtein` holds edit distances.
use ateam.Prelude.{
  ℕ, suc, ◌+◌, List, [], ◌∷◌, ◌≡◌, refl, sym, ap, ◌∙◌, arith, Bytes, length, ◌==◌, if◌then◌else◌,
  ◌≤◌, ◌⊎◌, inl, inr, Bool, true, false, ==_iff,
}
use mathlib.Core.Path.{subst}
use ateam.Prompts.Orphan.{min3, fill, first_row, fill_rows, last_entry, levenshtein}

-- The recurrence of the table.
unfoldable edit : Bytes → Bytes → ℕ
edit [] b = length b
edit (x ∷ a) [] = length a + 1
edit (x ∷ a) (y ∷ b) =
    min3 (edit a (y ∷ b) + 1) (edit (x ∷ a) b + 1) (edit a b + (if x == y then 0 else 1))

-- The bytes of a text put in front of another, in the opposite order.
abbrev pub onto : Bytes → Bytes → Bytes
onto [] acc = acc
onto (x ∷ s) acc = onto s (x ∷ acc)

-- A row of the table behind its first entry: the distances of one beginning of `a` to longer and
-- longer beginnings of `b`, all of them read backwards.
abbrev distances : Bytes → Bytes → Bytes → List ℕ
distances ra rb [] = []
distances ra rb (y ∷ ys) = edit ra (y ∷ rb) ∷ distances ra (y ∷ rb) ys

fill-distances :
    (x : ℕ) (ra rb ys : Bytes)
    → fill (edit (x ∷ ra) rb) x (edit ra rb ∷ distances ra rb ys) ys ≡ distances (x ∷ ra) rb ys
unfolding fill edit
fill-distances x ra rb [] = refl
fill-distances x ra rb (y ∷ ys) =
    ap (◌∷◌ (edit (x ∷ ra) (y ∷ rb))) (fill-distances x ra (y ∷ rb) ys)

length-suc : (n : ℕ) → n + 1 ≡ suc n
length-suc n = omega arith

first_row-distances : (rb ys : Bytes) → first_row (length rb) ys ≡ edit [] rb ∷ distances [] rb ys
unfolding first_row edit
first_row-distances rb [] = refl
first_row-distances rb (y ∷ ys) =
    ap (◌∷◌ (length rb))
      (ap (λ n. first_row n ys) (length-suc (length rb)) ∙ first_row-distances (y ∷ rb) ys)

edit-nil : (ra : Bytes) → edit ra [] ≡ length ra
unfolding edit
edit-nil [] = refl
edit-nil (x ∷ ra) = length-suc (length ra)

length-suc_nil : (x : ℕ) (ra : Bytes) → edit (x ∷ ra) [] ≡ length ra + 1
unfolding edit
length-suc_nil x ra = refl

fill_rows-distances :
    (i : ℕ) (ra a b : Bytes)
    → i ≡ length ra + 1
    → fill_rows i (edit ra [] ∷ distances ra [] b) a b
      ≡ edit (onto a ra) [] ∷ distances (onto a ra) [] b
unfolding fill_rows
fill_rows-distances i ra [] b h = refl
fill_rows-distances i ra (x ∷ a) b h =
    ap (λ row. fill_rows (i + 1) row a b)
      (ap (λ n. n ∷ fill n x (edit ra [] ∷ distances ra [] b) b) (h ∙ sym (length-suc_nil x ra))
        ∙ ap (◌∷◌ (edit (x ∷ ra) [])) (fill-distances x ra [] b))
    ∙ fill_rows-distances (i + 1) (x ∷ ra) a b (omega arith)

last_entry-distances :
    (ra rb ys : Bytes) → last_entry (edit ra rb ∷ distances ra rb ys) ≡ edit ra (onto ys rb)
last_entry-distances ra rb [] = refl
last_entry-distances ra rb (y ∷ ys) = last_entry-distances ra (y ∷ rb) ys

length-onto : (s acc : Bytes) → length (onto s acc) ≡ length s + length acc
length-onto [] acc = omega arith
length-onto (x ∷ s) acc = omega (arith, length-onto s (x ∷ acc))

-- What the last entry is by the recurrence, on the two texts read from their ends.
levenshtein-edit : (a b : Bytes) → levenshtein a b ≡ edit (onto a []) (onto b [])
unfolding levenshtein edit
levenshtein-edit [] b = omega (arith, length-onto b [])
levenshtein-edit (x ∷ a) [] = omega (arith, edit-nil (onto (x ∷ a) []), length-onto (x ∷ a) [])
levenshtein-edit (x ∷ a) (y ∷ b) =
    ap (λ row. last_entry (fill_rows 1 row (x ∷ a) (y ∷ b))) (first_row-distances [] (y ∷ b))
    ∙ ap last_entry (fill_rows-distances 1 [] (x ∷ a) (y ∷ b) refl)
    ∙ last_entry-distances (onto (x ∷ a) []) [] (y ∷ b)

-- A way to make one text of another, from their heads on, with the number of bytes that it inserts,
-- deletes or replaces.
pub data Script : Bytes → Bytes → ℕ → Type 0 where
  done : Script [] [] 0
  insert : {a b : Bytes} {n : ℕ} (y : ℕ) → Script a b n → Script a (y ∷ b) (suc n)
  delete : {a b : Bytes} {n : ℕ} (x : ℕ) → Script a b n → Script (x ∷ a) b (suc n)
  keep : {a b : Bytes} {n : ℕ} (x : ℕ) → Script a b n → Script (x ∷ a) (x ∷ b) n
  replace : {a b : Bytes} {n : ℕ} (x y : ℕ) → Script a b n → Script (x ∷ a) (y ∷ b) (suc n)

min3-below : (a b c : ℕ) → (min3 a b c ≤ a) × (min3 a b c ≤ b) × (min3 a b c ≤ c)
unfolding min3
min3-below a b c = ground arith

min3-cases : (a b c : ℕ) → (min3 a b c ≡ a) ⊎ (min3 a b c ≡ b) ⊎ (min3 a b c ≡ c)
unfolding min3
min3-cases a b c = ground arith

edit-insert : (a b : Bytes) (y : ℕ) → edit a (y ∷ b) ≤ suc (edit a b)
unfolding edit
edit-insert [] b y = omega arith
edit-insert (x ∷ a) b y = omega (
  arith,
  min3-below (edit a (y ∷ b) + 1) (edit (x ∷ a) b + 1) (edit a b + (if x == y then 0 else 1)),
)

edit-delete : (a b : Bytes) (x : ℕ) → edit (x ∷ a) b ≤ suc (edit a b)
unfolding edit
edit-delete a [] x = omega (arith, edit-nil a)
edit-delete a (y ∷ b) x = omega (
  arith,
  min3-below (edit a (y ∷ b) + 1) (edit (x ∷ a) b + 1) (edit a b + (if x == y then 0 else 1)),
)

edit-replace : (a b : Bytes) (x y : ℕ) → edit (x ∷ a) (y ∷ b) ≤ edit a b + (if x == y then 0 else 1)
unfolding edit
edit-replace a b x y =
    (min3-below (edit a (y ∷ b) + 1) (edit (x ∷ a) b + 1) (edit a b + (if x == y then 0 else 1))).2

edit-below : {a b : Bytes} {n : ℕ} → Script a b n → edit a b ≤ n
edit-below done = unfold edit in omega arith
edit-below (insert {a = a} {b = b} y h) = omega (arith, edit-insert a b y, edit-below h)
edit-below (delete {a = a} {b = b} x h) = omega (arith, edit-delete a b x, edit-below h)
edit-below (keep {a = a} {b = b} x h) =
    ground (arith, edit-replace a b x x, edit-below h, ==_iff x x)
edit-below (replace {a = a} {b = b} x y h) = ground (arith, edit-replace a b x y, edit-below h)

match-Script :
    (x y : ℕ) (a b : Bytes) (n : ℕ) (same : Bool)
    → (x == y) ≡ same
    → Script a b n
    → Script (x ∷ a) (y ∷ b) (n + (if same then 0 else 1))
match-Script x y a b n true e h =
    subst (λ z. Script (x ∷ a) (z ∷ b) (n + 0)) ((==_iff x y).0 e)
      (subst (Script (x ∷ a) (x ∷ b)) (omega arith) (keep x h))
match-Script x y a b n false e h = subst (Script (x ∷ a) (y ∷ b)) (omega arith) (replace x y h)

inserts : (b : Bytes) → Script [] b (length b)
inserts [] = done
inserts (y ∷ b) = insert y (inserts b)

deletes : (a : Bytes) → Script a [] (length a)
deletes [] = done
deletes (x ∷ a) = delete x (deletes a)

edit-Script : (a b : Bytes) → Script a b (edit a b)
unfolding edit
edit-Script [] b = inserts b
edit-Script (x ∷ a) [] = subst (Script (x ∷ a) []) (omega arith) (deletes (x ∷ a))
edit-Script (x ∷ a) (y ∷ b) =
    let up = edit a (y ∷ b) + 1 in
    let left = edit (x ∷ a) b + 1 in
    let diagonal = edit a b + (if x == y then 0 else 1) in
    elim (min3-cases up left diagonal) [
      | inl e ↦ subst (Script (x ∷ a) (y ∷ b)) (omega (arith, e)) (delete x (edit-Script a (y ∷ b)))
      | inr (inl e) ↦
          subst (Script (x ∷ a) (y ∷ b)) (omega (arith, e)) (insert y (edit-Script (x ∷ a) b))
      | inr (inr e) ↦
          subst (Script (x ∷ a) (y ∷ b)) (sym e)
            (match-Script x y a b (edit a b) (x == y) refl (edit-Script a b))
    ]

-- `levenshtein` is the least number of insertions, deletions and replacements of a byte that make
-- the second text of the first: with so many there is a way to do it, and no way takes fewer. The
-- texts are gone through from their ends.
pub levenshtein-least :
    (a b : Bytes)
    → Script (onto a []) (onto b []) (levenshtein a b)
      × ((n : ℕ) → Script (onto a []) (onto b []) n → levenshtein a b ≤ n)
levenshtein-least a b = (
  subst (Script (onto a []) (onto b [])) (sym (levenshtein-edit a b))
      (edit-Script (onto a []) (onto b [])),
  λ n h. rw (levenshtein-edit a b) (edit-below h),
)
