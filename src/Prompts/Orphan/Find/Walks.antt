-- ===== src/Prompts/Orphan/Find/Walks.antt =====
-- What a scan of the walks collects, in terms of the files that they visit.
use mathlib.Core.Path.{subst}
use ateam.Prelude.{
  true, List, [], ◌∷◌, ◌++◌, ◌≡◌, ◌⊎◌, refl, sym, Bytes, codes, has_suffix, Member, first, later,
  Member-append_either, Member-append_cases, inl, inr,
}
use ateam.Prompts.Result.{Result, ok, err, ◌>>=◌}
use ateam.Prompts.Parser.{role_main, role_pre, role_post, parse}
use ateam.Prompts.Orphan.Find.{
  Visit, file, Walk, FragmentEntry, Scan, dir_of, empty_scan, visit, with_scan, walk, walk_anchors,
}

-- A visit of the main file of a role: the directory and the role.
abbrev pub IsMain : Bytes → Visit → Bytes × Bytes → Type 0
IsMain anchor (file path base) key =
    (has_suffix base (codes ".md") ≡ true)
    × ((parse base).kind ≡ role_main)
    × ((dir_of path, (parse base).role) ≡ key)
IsMain anchor _ key = ⊥

-- A visit of a file that goes before or behind the main file of a role.
abbrev pub IsFragment : Bytes → Visit → FragmentEntry → Type 0
IsFragment anchor (file path base) f =
    (has_suffix base (codes ".md") ≡ true)
    × (((parse base).kind ≡ role_pre) ⊎ ((parse base).kind ≡ role_post))
    × (record { anchor = anchor; path = path; dir = dir_of path; role = (parse base).role } ≡ f)
IsFragment anchor _ f = ⊥

-- Some walk makes such a visit.
abbrev pub Visited : {A : Type 0} → (Bytes → Visit → A → Type 0) → List Walk → A → Type 0
Visited P ws a = (w : Walk) × Member w ws × ((v : Visit) × Member v w.visits × P w.anchor v a)

pub same_scan : {s t : Scan} → ok s ≡ ok t → s ≡ t
same_scan h = cc

then-ok {ℓ κ} :
    {A : Type ℓ} {B : Type κ} (r : Result A) (f : A → Result B) {b : B}
    → (r >>= f) ≡ ok b
    → (a : A) × (r ≡ ok a) × (f a ≡ ok b)
then-ok (ok a) f h = (a, refl, h)
then-ok (err e) f h = cc

-- One of the two lists of a scan, whose entries are those of the visits of one sort.
module _ {A : Type 0} (pick : Scan → List A) (P : Bytes → Visit → A → Type 0)
    (no_entry : (a : A) → Member a (pick empty_scan) → ⊥)
    (both : (s t : Scan) → pick (with_scan s t) ≡ pick s ++ pick t)
    (into : (anchor : Bytes) (v : Visit) (s : Scan) (a : A)
      → visit anchor v ≡ ok s
      → P anchor v a
      → Member a (pick s))
    (from : (anchor : Bytes) (v : Visit) (s : Scan) (a : A)
      → visit anchor v ≡ ok s
      → Member a (pick s)
      → P anchor v a) where
  joined-into :
      (s t u : Scan) (a : A)
      → ok (with_scan s t) ≡ ok u
      → Member a (pick s) ⊎ Member a (pick t)
      → Member a (pick u)
  joined-into s t u a h m =
      subst (λ z. Member a (pick z)) (same_scan h)
        (subst (Member a) (sym (both s t)) (Member-append_either (pick s) (pick t) m))

  joined-from :
      (s t u : Scan) (a : A)
      → ok (with_scan s t) ≡ ok u
      → Member a (pick u)
      → Member a (pick s) ⊎ Member a (pick t)
  joined-from s t u a h m =
      Member-append_cases (pick s) (pick t)
        (subst (Member a) (both s t) (subst (λ z. Member a (pick z)) (sym (same_scan h)) m))

  walk-into :
      (anchor : Bytes) (vs : List Visit) (s : Scan) (v : Visit) (a : A)
      → walk anchor vs ≡ ok s
      → Member v vs
      → P anchor v a
      → Member a (pick s)
  unfolding walk
  walk-into anchor [] s v a h m p = elim m [ ]
  walk-into anchor (u ∷ vs) s v a h (first e) p =
      let (s1, r1, h1) = then-ok (visit anchor u) _ h in
      let (s2, r2, h2) = then-ok (walk anchor vs) _ h1 in
      joined-into s1 s2 s a h2 (inl (into anchor u s1 a r1 (subst (λ z. P anchor z a) (sym e) p)))
  walk-into anchor (u ∷ vs) s v a h (later m) p =
      let (s1, r1, h1) = then-ok (visit anchor u) _ h in
      let (s2, r2, h2) = then-ok (walk anchor vs) _ h1 in
      joined-into s1 s2 s a h2 (inr (walk-into anchor vs s2 v a r2 m p))

  walk-from :
      (anchor : Bytes) (vs : List Visit) (s : Scan) (a : A)
      → walk anchor vs ≡ ok s
      → Member a (pick s)
      → (v : Visit) × Member v vs × P anchor v a
  unfolding walk
  walk-from anchor [] s a h m =
      absurd (no_entry a (subst (λ z. Member a (pick z)) (sym (same_scan h)) m))
  walk-from anchor (u ∷ vs) s a h m =
      let (s1, r1, h1) = then-ok (visit anchor u) _ h in
      let (s2, r2, h2) = then-ok (walk anchor vs) _ h1 in
      elim (joined-from s1 s2 s a h2 m) [
        | inl l ↦ (u, first refl, from anchor u s1 a r1 l)
        | inr r ↦ let (v, there, p) = walk-from anchor vs s2 a r2 r in (v, later there, p)
      ]

  pub Visited-into :
      (ws : List Walk) (s : Scan) (a : A)
      → walk_anchors ws ≡ ok s
      → Visited P ws a
      → Member a (pick s)
  unfolding walk_anchors
  Visited-into [] s a h (w, m, seen) = elim m [ ]
  Visited-into (x ∷ ws) s a h (w, first e, seen) =
      let (s1, r1, h1) = then-ok (walk x.anchor x.visits) _ h in
      let (s2, r2, h2) = then-ok (walk_anchors ws) _ h1 in
      let (v, there, p) =
        subst (λ z. (v : Visit) × Member v z.visits × P z.anchor v a) (sym e) seen in
      joined-into s1 s2 s a h2 (inl (walk-into x.anchor x.visits s1 v a r1 there p))
  Visited-into (x ∷ ws) s a h (w, later m, seen) =
      let (s1, r1, h1) = then-ok (walk x.anchor x.visits) _ h in
      let (s2, r2, h2) = then-ok (walk_anchors ws) _ h1 in
      joined-into s1 s2 s a h2 (inr (Visited-into ws s2 a r2 (w, m, seen)))

  pub Visited-from :
      (ws : List Walk) (s : Scan) (a : A)
      → walk_anchors ws ≡ ok s
      → Member a (pick s)
      → Visited P ws a
  unfolding walk_anchors
  Visited-from [] s a h m =
      absurd (no_entry a (subst (λ z. Member a (pick z)) (sym (same_scan h)) m))
  Visited-from (x ∷ ws) s a h m =
      let (s1, r1, h1) = then-ok (walk x.anchor x.visits) _ h in
      let (s2, r2, h2) = then-ok (walk_anchors ws) _ h1 in
      elim (joined-from s1 s2 s a h2 m) [
        | inl l ↦ (x, first refl, walk-from x.anchor x.visits s1 a r1 l)
        | inr r ↦ let (w, there, seen) = Visited-from ws s2 a r2 r in (w, later there, seen)
      ]
