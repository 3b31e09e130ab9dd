-- ===== src/Prompts/Orphan/Find/Complete.antt =====
-- `FindOrphans` loses no orphan in its loops and in its sorting. Find.Unowned says what an orphan is.
use mathlib.Core.Path.{subst}
use ateam.Prelude.{
  Bool, true, false, List, [], ◌∷◌, ◌≡◌, ◌↔◌, refl, sym, ap, ◌∙◌, Bytes, Member, first, later,
  if◌then◌else◌,
}
use ateam.Prompts.Result.{Result, ok, err, ◌>>=◌}
use ateam.Prompts.Orphan.Find.{
  Walk, FragmentEntry, Scan, OrphanError, walk_anchors, is_known, orphan_of, orphans_of, is_before,
  insert_orphan, sort_orphans, find_orphans,
}

abbrev Entries : Type 0
Entries = List OrphanError

if-there :
    (o : OrphanError) (b : Bool) (xs ys : Entries)
    → Member o xs
    → Member o ys
    → Member o (if b then xs else ys)
if-there o true xs ys m n = m
if-there o false xs ys m n = n

inserted : (o : OrphanError) (xs : Entries) → Member o (insert_orphan o xs)
unfolding insert_orphan
inserted o [] = first refl
inserted o (x ∷ xs) = if-there o (is_before x o) _ _ (later (inserted o xs)) (first refl)

insert-keeps : (o p : OrphanError) (xs : Entries) → Member p xs → Member p (insert_orphan o xs)
unfolding insert_orphan
insert-keeps o p [] m = later m
insert-keeps o p (x ∷ xs) (first e) = if-there p (is_before x o) _ _ (first e) (later (first e))
insert-keeps o p (x ∷ xs) (later m) =
    if-there p (is_before x o) _ _ (later (insert-keeps o p xs m)) (later (later m))

sort-keeps : (p : OrphanError) (xs : Entries) → Member p xs → Member p (sort_orphans xs)
unfolding sort_orphans
sort-keeps p [] m = m
sort-keeps p (x ∷ xs) (first e) =
    subst (λ z. Member z (insert_orphan x (sort_orphans xs))) e (inserted x (sort_orphans xs))
sort-keeps p (x ∷ xs) (later m) = insert-keeps x p (sort_orphans xs) (sort-keeps p xs m)

swap_two : (o p x : OrphanError) (xs : Entries) → Member p (x ∷ (o ∷ xs)) → Member p (o ∷ (x ∷ xs))
swap_two o p x xs (first e) = later (first e)
swap_two o p x xs (later (first e)) = first e
swap_two o p x xs (later (later m)) = later (later m)

from-later :
    (o p x : OrphanError) (xs ys : Entries)
    → (Member p ys → Member p (o ∷ xs))
    → Member p (x ∷ ys)
    → Member p (x ∷ (o ∷ xs))
from-later o p x xs ys back (first e) = first e
from-later o p x xs ys back (later m) = later (back m)

from-if :
    (o p x : OrphanError) (xs ys : Entries) (b : Bool)
    → (Member p ys → Member p (o ∷ xs))
    → Member p (if b then x ∷ ys else o ∷ (x ∷ xs))
    → Member p (o ∷ (x ∷ xs))
from-if o p x xs ys true back m = swap_two o p x xs (from-later o p x xs ys back m)
from-if o p x xs ys false back m = m

from-insert : (o p : OrphanError) (xs : Entries) → Member p (insert_orphan o xs) → Member p (o ∷ xs)
unfolding insert_orphan
from-insert o p [] m = m
from-insert o p (x ∷ xs) m =
    from-if o p x xs (insert_orphan o xs) (is_before x o) (from-insert o p xs) m

from-head :
    (o p : OrphanError) (xs ys : Entries)
    → (Member p ys → Member p xs)
    → Member p (o ∷ ys)
    → Member p (o ∷ xs)
from-head o p xs ys back (first e) = first e
from-head o p xs ys back (later m) = later (back m)

from-sort : (p : OrphanError) (xs : Entries) → Member p (sort_orphans xs) → Member p xs
unfolding sort_orphans
from-sort p [] m = m
from-sort p (x ∷ xs) m =
    from-head x p xs (sort_orphans xs) (from-sort p xs) (from-insert x p (sort_orphans xs) m)

-- A fragment whose role is unknown, with the report on it.
abbrev pub Stray : List (Bytes × Bytes) → List FragmentEntry → OrphanError → Type 0
Stray known fs o =
    (f : FragmentEntry) × (Member f fs × ((is_known known f ≡ false) × (o ≡ orphan_of known f)))

Stray-later :
    (known : List (Bytes × Bytes)) (f : FragmentEntry) (fs : List FragmentEntry) (o : OrphanError)
    → Stray known fs o
    → Stray known (f ∷ fs) o
Stray-later known f fs o (g, (m, rest)) = (g, (later m, rest))

Stray-if :
    (known : List (Bytes × Bytes)) (f : FragmentEntry) (fs : List FragmentEntry) (o : OrphanError)
    (b : Bool) (ys : Entries)
    → is_known known f ≡ b
    → (Member o ys → Stray known fs o)
    → Member o (if b then ys else orphan_of known f ∷ ys)
    → Stray known (f ∷ fs) o
Stray-if known f fs o true ys k back m = Stray-later known f fs o (back m)
Stray-if known f fs o false ys k back (first e) = (f, (first refl, (k, sym e)))
Stray-if known f fs o false ys k back (later m) = Stray-later known f fs o (back m)

from-orphans_of :
    (known : List (Bytes × Bytes)) (fs : List FragmentEntry) (o : OrphanError)
    → Member o (orphans_of known fs)
    → Stray known fs o
unfolding orphans_of
from-orphans_of known [] o m = elim m [ ]
from-orphans_of known (f ∷ fs) o m =
    Stray-if known f fs o (is_known known f) (orphans_of known fs) refl (from-orphans_of known fs o)
      m

if-later :
    (o p : OrphanError) (b : Bool) (ys : Entries)
    → Member p ys
    → Member p (if b then ys else o ∷ ys)
if-later o p true ys m = m
if-later o p false ys m = later m

if-first :
    (o p : OrphanError) (b : Bool) (ys : Entries)
    → b ≡ false
    → o ≡ p
    → Member p (if b then ys else o ∷ ys)
if-first o p true ys k e = cc
if-first o p false ys k e = first e

into-orphans_of :
    (known : List (Bytes × Bytes)) (fs : List FragmentEntry) (f : FragmentEntry) (o : OrphanError)
    → Member f fs
    → is_known known f ≡ false
    → o ≡ orphan_of known f
    → Member o (orphans_of known fs)
unfolding orphans_of
into-orphans_of known [] f o m k e = elim m [ ]
into-orphans_of known (g ∷ fs) f o (first same) k e =
    if-first (orphan_of known g) o (is_known known g) (orphans_of known fs)
      (ap (is_known known) same ∙ k) (ap (orphan_of known) same ∙ sym e)
into-orphans_of known (g ∷ fs) f o (later m) k e =
    if-later (orphan_of known g) o (is_known known g) (orphans_of known fs)
      (into-orphans_of known fs f o m k e)

same_list : {a b : Entries} → ok a ≡ ok b → a ≡ b
same_list h = cc

scanned :
    (r : Result Scan) (f : Scan → Entries) (os : Entries)
    → (r >>= λ s. ok (f s)) ≡ ok os
    → (s : Scan) × ((r ≡ ok s) × (f s ≡ os))
scanned (err e) f os h = cc
scanned (ok s) f os h = (s, (refl, same_list h))

-- If `FindOrphans` succeeds, it reports exactly the strays of what the walks collect.
pub find_orphans-Stray :
    (ws : List Walk) (os : List OrphanError)
    → find_orphans ws ≡ ok os
    → (s : Scan) × ((walk_anchors ws ≡ ok s)
        × ((o : OrphanError) → Member o os ↔ Stray s.known s.fragments o))
unfolding find_orphans
find_orphans-Stray ws os h =
    let (s, (r, e)) =
      scanned (walk_anchors ws) (λ s. sort_orphans (orphans_of s.known s.fragments)) os h in
    (
      s,
      (
        r,
        λ o. (
          (λ m.
              from-orphans_of s.known s.fragments o
                (from-sort o (orphans_of s.known s.fragments) (subst (Member o) (sym e) m))),
          λ (stray : Stray s.known s.fragments o). subst (Member o) e (
              sort-keeps o (orphans_of s.known s.fragments)
                (into-orphans_of s.known s.fragments stray.0 o stray.1.0 stray.1.1.0 stray.1.1.1)),
        ),
      ),
    )
