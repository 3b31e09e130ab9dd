-- ===== src/Prompts/Orphan/Find/Visits.antt =====
-- What one visit adds to a scan, and with it what the scan of all walks collects.
use mathlib.Core.Path.{subst}
use ateam.Prelude.{
  Bool, true, false, List, ◌≡◌, ◌↔◌, ◌⊎◌, refl, sym, Bytes, codes, has_suffix, Member, first, later,
  inl, inr, if◌then◌else◌,
}
use ateam.Prompts.Result.{ok}
use ateam.Prompts.Parser.{
  FileKind, unknown, role_main, role_pre, role_post, dir_pre, dir_post, parse,
}
use ateam.Prompts.Orphan.Find.{
  Visit, directory, missing_entry, file, refused, Walk, FragmentEntry, Scan, dir_of, empty_scan,
  by_kind, visit, walk_anchors,
}
use ateam.Prompts.Orphan.Find.Walks.{
  IsMain, IsFragment, Visited, same_scan, Visited-into, Visited-from,
}

if-scan-from :
    {A : Type 0} (pick : Scan → List A) (flag : Bool) (s : Scan) (a : A)
    → (Member a (pick empty_scan) → ⊥)
    → Member a (pick (if flag then s else empty_scan))
    → (flag ≡ true) × Member a (pick s)
if-scan-from pick true s a empty m = (refl, m)
if-scan-from pick false s a empty m = absurd (empty m)

no_known : (k : Bytes × Bytes) → Member k empty_scan.known → ⊥
no_known k m = elim m [ ]

no_fragment : (f : FragmentEntry) → Member f empty_scan.fragments → ⊥
no_fragment f m = elim m [ ]

by_kind-main :
    (anchor path role : Bytes) (kind : FileKind) (k : Bytes × Bytes)
    → Member k (by_kind anchor path role kind).known
    → (kind ≡ role_main) × ((dir_of path, role) ≡ k)
by_kind-main anchor path role role_main k (first e) = (refl, e)
by_kind-main anchor path role role_main k (later m) = elim m [ ]
by_kind-main anchor path role role_pre k m = elim m [ ]
by_kind-main anchor path role role_post k m = elim m [ ]
by_kind-main anchor path role unknown k m = elim m [ ]
by_kind-main anchor path role dir_pre k m = elim m [ ]
by_kind-main anchor path role dir_post k m = elim m [ ]

by_kind-fragment :
    (anchor path role : Bytes) (kind : FileKind) (f : FragmentEntry)
    → Member f (by_kind anchor path role kind).fragments
    → ((kind ≡ role_pre) ⊎ (kind ≡ role_post))
      × (record { anchor = anchor; path = path; dir = dir_of path; role = role } ≡ f)
by_kind-fragment anchor path role role_main f m = elim m [ ]
by_kind-fragment anchor path role role_pre f (first e) = (inl refl, e)
by_kind-fragment anchor path role role_pre f (later m) = elim m [ ]
by_kind-fragment anchor path role role_post f (first e) = (inr refl, e)
by_kind-fragment anchor path role role_post f (later m) = elim m [ ]
by_kind-fragment anchor path role unknown f m = elim m [ ]
by_kind-fragment anchor path role dir_pre f m = elim m [ ]
by_kind-fragment anchor path role dir_post f m = elim m [ ]

visit-IsMain_from :
    (anchor : Bytes) (v : Visit) (s : Scan) (k : Bytes × Bytes)
    → visit anchor v ≡ ok s
    → Member k s.known
    → IsMain anchor v k
unfolding visit
visit-IsMain_from anchor directory s k h m =
    absurd (no_known k (subst (λ z. Member k z.known) (sym (same_scan h)) m))
visit-IsMain_from anchor missing_entry s k h m =
    absurd (no_known k (subst (λ z. Member k z.known) (sym (same_scan h)) m))
visit-IsMain_from anchor (refused why) s k h m = cc
visit-IsMain_from anchor (file path base) s k h m =
    let (md, there) =
      if-scan-from (λ z. z.known) (has_suffix base (codes ".md"))
        (by_kind anchor path (parse base).role (parse base).kind) k (no_known k)
        (subst (λ z. Member k z.known) (sym (same_scan h)) m) in
    let (kind, e) = by_kind-main anchor path (parse base).role (parse base).kind k there in
    (md, kind, e)

visit-IsFragment_from :
    (anchor : Bytes) (v : Visit) (s : Scan) (f : FragmentEntry)
    → visit anchor v ≡ ok s
    → Member f s.fragments
    → IsFragment anchor v f
unfolding visit
visit-IsFragment_from anchor directory s f h m =
    absurd (no_fragment f (subst (λ z. Member f z.fragments) (sym (same_scan h)) m))
visit-IsFragment_from anchor missing_entry s f h m =
    absurd (no_fragment f (subst (λ z. Member f z.fragments) (sym (same_scan h)) m))
visit-IsFragment_from anchor (refused why) s f h m = cc
visit-IsFragment_from anchor (file path base) s f h m =
    let (md, there) =
      if-scan-from (λ z. z.fragments) (has_suffix base (codes ".md"))
        (by_kind anchor path (parse base).role (parse base).kind) f (no_fragment f)
        (subst (λ z. Member f z.fragments) (sym (same_scan h)) m) in
    let (kind, e) = by_kind-fragment anchor path (parse base).role (parse base).kind f there in
    (md, kind, e)

if-scan-into :
    {A : Type 0} (pick : Scan → List A) (flag : Bool) (s : Scan) (a : A)
    → flag ≡ true
    → Member a (pick s)
    → Member a (pick (if flag then s else empty_scan))
if-scan-into pick true s a e m = m
if-scan-into pick false s a e m = cc

by_kind-main_into :
    (anchor path role : Bytes) (kind : FileKind) (k : Bytes × Bytes)
    → kind ≡ role_main
    → (dir_of path, role) ≡ k
    → Member k (by_kind anchor path role kind).known
by_kind-main_into anchor path role kind k e h =
    subst (λ z. Member k (by_kind anchor path role z).known) (sym e) (first h)

by_kind-fragment_into :
    (anchor path role : Bytes) (kind : FileKind) (f : FragmentEntry)
    → (kind ≡ role_pre) ⊎ (kind ≡ role_post)
    → record { anchor = anchor; path = path; dir = dir_of path; role = role } ≡ f
    → Member f (by_kind anchor path role kind).fragments
by_kind-fragment_into anchor path role kind f (inl e) h =
    subst (λ z. Member f (by_kind anchor path role z).fragments) (sym e) (first h)
by_kind-fragment_into anchor path role kind f (inr e) h =
    subst (λ z. Member f (by_kind anchor path role z).fragments) (sym e) (first h)

visit-IsMain_into :
    (anchor : Bytes) (v : Visit) (s : Scan) (k : Bytes × Bytes)
    → visit anchor v ≡ ok s
    → IsMain anchor v k
    → Member k s.known
unfolding visit
visit-IsMain_into anchor (file path base) s k h (md, kind, e) =
    subst (λ z. Member k z.known) (same_scan h)
      (if-scan-into (λ z. z.known) (has_suffix base (codes ".md"))
        (by_kind anchor path (parse base).role (parse base).kind) k md
        (by_kind-main_into anchor path (parse base).role (parse base).kind k kind e))
visit-IsMain_into anchor directory s k h p = absurd p
visit-IsMain_into anchor missing_entry s k h p = absurd p
visit-IsMain_into anchor (refused why) s k h p = absurd p

visit-IsFragment_into :
    (anchor : Bytes) (v : Visit) (s : Scan) (f : FragmentEntry)
    → visit anchor v ≡ ok s
    → IsFragment anchor v f
    → Member f s.fragments
unfolding visit
visit-IsFragment_into anchor (file path base) s f h (md, kind, e) =
    subst (λ z. Member f z.fragments) (same_scan h)
      (if-scan-into (λ z. z.fragments) (has_suffix base (codes ".md"))
        (by_kind anchor path (parse base).role (parse base).kind) f md
        (by_kind-fragment_into anchor path (parse base).role (parse base).kind f kind e))
visit-IsFragment_into anchor directory s f h p = absurd p
visit-IsFragment_into anchor missing_entry s f h p = absurd p
visit-IsFragment_into anchor (refused why) s f h p = absurd p

pub known-Visited :
    (ws : List Walk) (s : Scan) (k : Bytes × Bytes)
    → walk_anchors ws ≡ ok s
    → Member k s.known ↔ Visited IsMain ws k
known-Visited ws s k h = (
  Visited-from (λ z. z.known) IsMain no_known (λ a b. refl) visit-IsMain_into visit-IsMain_from ws s
      k h,
  Visited-into (λ z. z.known) IsMain no_known (λ a b. refl) visit-IsMain_into visit-IsMain_from ws s
      k h,
)

pub fragments-Visited :
    (ws : List Walk) (s : Scan) (f : FragmentEntry)
    → walk_anchors ws ≡ ok s
    → Member f s.fragments ↔ Visited IsFragment ws f
fragments-Visited ws s f h = (
  Visited-from (λ z. z.fragments) IsFragment no_fragment (λ a b. refl) visit-IsFragment_into
      visit-IsFragment_from ws s f h,
  Visited-into (λ z. z.fragments) IsFragment no_fragment (λ a b. refl) visit-IsFragment_into
      visit-IsFragment_from ws s f h,
)
