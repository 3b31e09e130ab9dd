-- ===== src/Prompts/Orphan/Find/Unowned.antt =====
-- What `FindOrphans` reports, in terms of the files that the walks visit.
use mathlib.Core.Path.{subst, ap₂}
use ateam.Prelude.{
  Bool, true, false, ◌&&◌, List, [], ◌∷◌, ◌≡◌, ◌↔◌, refl, sym, ap, ◌∙◌, arith, Bytes, eq, eq_iff,
  Member, first, later, Bool-cases, inl, inr,
}
use ateam.Prompts.Result.{ok}
use ateam.Prompts.Orphan.Find.{Walk, FragmentEntry, OrphanError, is_known, orphan_of, find_orphans}
use ateam.Prompts.Orphan.Find.Complete.{find_orphans-Stray}
use ateam.Prompts.Orphan.Find.Visits.{known-Visited, fragments-Visited}
use ateam.Prompts.Orphan.Find.Walks.{IsMain, IsFragment, Visited}

-- The file that a report is on.
abbrev pub reported : OrphanError → FragmentEntry
reported o = record { anchor = o.anchor; path = o.path; dir = o.dir; role = o.role }

abbrev pub Reports : List OrphanError → FragmentEntry → Type 0
Reports os f = (o : OrphanError) × Member o os × (reported o ≡ f)

-- A file of a role that some walk visits, of which no walk visits the role's main file in the same
-- directory.
abbrev pub Unowned : List Walk → FragmentEntry → Type 0
Unowned ws f = Visited IsFragment ws f × ¬ Visited IsMain ws (f.dir, f.role)

is_known-into :
    (known : List (Bytes × Bytes)) (f : FragmentEntry)
    → Member (f.dir, f.role) known
    → is_known known f ≡ true
is_known-into [] f m = elim m [ ]
is_known-into (k ∷ known) f (first e) =
    let d : k.0 ≡ f.dir = ap (λ z. z.0) e in
    let r : k.1 ≡ f.role = ap (λ z. z.1) e in
    rw ((eq_iff k.0 f.dir).1 d, (eq_iff k.1 f.role).1 r) refl
is_known-into (k ∷ known) f (later m) = ground (arith, is_known-into known f m)

is_known-from :
    (known : List (Bytes × Bytes)) (f : FragmentEntry)
    → is_known known f ≡ true
    → Member (f.dir, f.role) known
is_known-from [] f h = cc
is_known-from (k ∷ known) f h = elim (Bool-cases (eq k.0 f.dir && eq k.1 f.role)) [
  | inl same ↦
      let d : eq k.0 f.dir ≡ true = ground arith in
      let r : eq k.1 f.role ≡ true = ground arith in
      first (ap₂ (λ x y. (x, y)) ((eq_iff k.0 f.dir).0 d) ((eq_iff k.1 f.role).0 r))
  | inr other ↦
      let rest : is_known known f ≡ true = ground arith in later (is_known-from known f rest)
]

both_ways : (b : Bool) → b ≡ true → b ≡ false → ⊥
both_ways b h k = cc

reported-orphan_of :
    (known : List (Bytes × Bytes)) (f : FragmentEntry) → reported (orphan_of known f) ≡ f
unfolding orphan_of
reported-orphan_of known f = refl

-- If `FindOrphans` succeeds, then the files that it reports, with their anchor, directory and role,
-- are exactly the `.md` files visited in any anchor whose name makes them a pre or post fragment of
-- a role, while no visit of any anchor is of a main file of this role in the same directory.
pub find_orphans-Unowned :
    (ws : List Walk) (os : List OrphanError) (f : FragmentEntry)
    → find_orphans ws ≡ ok os
    → Reports os f ↔ Unowned ws f
find_orphans-Unowned ws os f h =
    let (s, (walked, exactly)) = find_orphans-Stray ws os h in
    let fragments = fragments-Visited ws s f walked in
    let known = known-Visited ws s (f.dir, f.role) walked in
    (
      (λ (r : Reports os f).
          let (g, (there, (unknown, e))) = (exactly r.0).0 r.1 in
          let same : g ≡ f = sym (reported-orphan_of s.known g) ∙ ap reported (sym e) ∙ r.2 in
          let unknown' : is_known s.known f ≡ false = ap (is_known s.known) (sym same) ∙ unknown in
          (
            fragments.0 (subst (λ z. Member z s.fragments) same there),
            λ main.
                both_ways (is_known s.known f) (is_known-into s.known f (known.1 main)) unknown',
          )),
      λ (u : Unowned ws f).
          let unknown : is_known s.known f ≡ false = elim (Bool-cases (is_known s.known f)) [
            | inl found ↦ absurd (u.1 (known.0 (is_known-from s.known f found)))
            | inr free ↦ free
          ] in
          (
            orphan_of s.known f,
            (exactly (orphan_of s.known f)).1 (f, (fragments.1 u.0, (unknown, refl))),
            reported-orphan_of s.known f,
          ),
    )
