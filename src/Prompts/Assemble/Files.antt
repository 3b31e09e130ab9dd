-- ===== src/Prompts/Assemble/Files.antt =====
-- The files whose sections `Assemble` adds are those that `Resolve` lists. Assemble.Sections says what
-- the sections are.
use ateam.Prelude.{
  Bool, true, false, Option, List, [], ◌∷◌, ◌++◌, ◌≡◌, refl, sym, ap, ◌∙◌, Bytes, codes, length,
  map, reverse, if◌then◌else◌, ◌==◌,
}
use ateam.Prompts.Result.{PromptError, empty_main, Result, ok, err, ◌>>=◌}
use ateam.Prompts.Assembler.{Anchor, Match}
use ateam.Prompts.Template.Render.{Engine, Vars}
use ateam.Prompts.Assemble.{
  AssemblyName, parse_assembly_name, Side, pre, post, dir_slot, role_slot, dir_paths, dir_matches,
  role_matches, main_match, ResolvedFile, file_of, matches_to_files, Files, followed_by, dir_files,
  role_files, framing_pre, framing_post, resolve_role_main, resolve, Section, Sections,
  AssembleResult, AssembleOptions, add_rendered, add_matches, add_dirs, add_role, grown, add_main,
  opened, finished, add_all, engine_or_default, assemble,
}

-- A file with its slot.
abbrev pub Entry : Type 0
Entry = Bytes × Match

abbrev pub files_of : List Anchor → List Entry → List ResolvedFile
files_of anchors es = map (λ e. file_of anchors e.0 e.1) es

-- The sections of files, one file after the other.
abbrev pub add_entries : Engine → Vars → List Entry → List Section → Sections
add_entries e vars [] sections = ok sections
add_entries e vars (x ∷ xs) sections =
    add_rendered e vars x.0 x.1 sections >>= add_entries e vars xs

abbrev tagged : Bytes → List Match → List Entry
tagged slot ms = map (λ m. (slot, m)) ms

pub bind-ok {ℓ κ} :
    {A : Type ℓ} {B : Type κ} (r : Result A) (f : A → Result B) {b : B}
    → (r >>= f) ≡ ok b
    → (a : A) × (r ≡ ok a) × (f a ≡ ok b)
bind-ok (ok a) f h = (a, refl, h)
bind-ok (err e) f h = cc

bind-into {ℓ κ} :
    {A : Type ℓ} {B : Type κ} (r : Result A) (f : A → Result B) {a : A} → r ≡ ok a → (r >>= f) ≡ f a
bind-into r f h = ap (λ z. z >>= f) h

bind-same {ℓ κ} :
    {A : Type ℓ} {B : Type κ} (r : Result A) (f g : A → Result B)
    → ((a : A) → f a ≡ g a)
    → (r >>= f) ≡ (r >>= g)
bind-same (ok a) f g h = h a
bind-same (err e) f g h = refl

map-append {ℓ κ} :
    {A : Type ℓ} {B : Type κ} (f : A → B) (xs ys : List A) → map f (xs ++ ys) ≡ map f xs ++ map f ys
map-append f [] ys = refl
map-append f (x ∷ xs) ys = ap (◌∷◌ (f x)) (map-append f xs ys)

module _ (e : Engine) (vars : Vars) (anchors : List Anchor) where
  -- Files that are listed, and sections made of them.
  record Comes (listed : Files) (before after : List Section) : Type 0 where
    entries : List Entry
    lists : listed ≡ ok (files_of anchors entries)
    adds : add_entries e vars entries before ≡ ok after

  add_entries-append :
      (xs ys : List Entry) (s t : List Section) {u : List Section}
      → add_entries e vars xs s ≡ ok t
      → add_entries e vars ys t ≡ ok u
      → add_entries e vars (xs ++ ys) s ≡ ok u
  add_entries-append [] ys s t h k = ap (add_entries e vars ys) (same s t h) ∙ k
    where
      same : (a b : List Section) → ok a ≡ ok b → a ≡ b
      same a b h = cc
  add_entries-append (x ∷ xs) ys s t h k =
      let (m, r, rest) = bind-ok (add_rendered e vars x.0 x.1 s) (add_entries e vars xs) h in
      bind-into (add_rendered e vars x.0 x.1 s) (add_entries e vars (xs ++ ys)) r
      ∙ add_entries-append xs ys m t rest k

  followed_by-Comes :
      (f g : Files) (s t u : List Section) → Comes f s t → Comes g t u → Comes (followed_by f g) s u
  followed_by-Comes f g s t u a b = record {
    entries = a.entries ++ b.entries;
    lists =
        bind-into f _ a.lists
        ∙ bind-into g _ b.lists
        ∙ ap ok (sym (map-append (λ x. file_of anchors x.0 x.1) a.entries b.entries));
    adds = add_entries-append a.entries b.entries s t a.adds b.adds;
  }

  add_matches-tagged :
      (slot : Bytes) (ms : List Match) (s : List Section)
      → add_matches e vars slot ms s ≡ add_entries e vars (tagged slot ms) s
  unfolding add_matches
  add_matches-tagged slot [] s = refl
  add_matches-tagged slot (m ∷ ms) s =
      bind-same (add_rendered e vars slot m s) (add_matches e vars slot ms)
        (add_entries e vars (tagged slot ms)) (add_matches-tagged slot ms)

  files_of-tagged :
      (slot : Bytes) (ms : List Match)
      → matches_to_files anchors slot ms ≡ files_of anchors (tagged slot ms)
  files_of-tagged slot [] = refl
  files_of-tagged slot (m ∷ ms) = ap (◌∷◌ (file_of anchors slot m)) (files_of-tagged slot ms)

  -- The files of one slot.
  slot-Comes :
      (slot : Bytes) (found : Result (List Match)) (s t : List Section)
      → (found >>= λ ms. add_matches e vars slot ms s) ≡ ok t
      → Comes (found >>= λ ms. ok (matches_to_files anchors slot ms)) s t
  slot-Comes slot (err x) s t h = cc
  slot-Comes slot (ok ms) s t h = record {
    entries = tagged slot ms;
    lists = ap ok (files_of-tagged slot ms);
    adds = sym (add_matches-tagged slot ms s) ∙ h;
  }

  dirs-Comes :
      (side : Side) (ds : List Bytes) (s t : List Section)
      → add_dirs e vars anchors side ds s ≡ ok t
      → Comes (dir_files anchors side ds) s t
  unfolding add_dirs dir_files dir_matches
  dirs-Comes side [] s t h = record { entries = []; lists = refl; adds = h }
  dirs-Comes side (d ∷ ds) s t h =
      let (ms, r, h1) = bind-ok (dir_matches anchors side d) _ h in
      let (m, a, rest) = bind-ok (add_matches e vars (dir_slot side d) ms s) _ h1 in
      followed_by-Comes _ (dir_files anchors side ds) s m t
        (slot-Comes (dir_slot side d) (dir_matches anchors side d) s m (bind-into _ _ r ∙ a))
        (dirs-Comes side ds m t rest)

  role-Comes :
      (side : Side) (n : AssemblyName) (s t : List Section)
      → add_role e vars anchors side n s ≡ ok t
      → Comes (role_files anchors side n) s t
  unfolding add_role role_files role_matches
  role-Comes side n s t h = slot-Comes (role_slot side) (role_matches anchors side n) s t h

  if-ok :
      (stop : Bool) (why : PromptError) (out t : List Section)
      → (if stop then err why else ok out) ≡ ok t
      → ok out ≡ ok t
  if-ok true why out t h = cc
  if-ok false why out t h = h

  grown-ok : (why : PromptError) (s out t : List Section) → grown why s out ≡ ok t → ok out ≡ ok t
  grown-ok why s out t h = if-ok (length out == length s) why out t h

  record RoleFile (n : AssemblyName) (before after : List Section) : Type 0 where
    found : Match
    lists : resolve_role_main anchors n ≡ ok (file_of anchors (codes "role_main") found)
    adds : add_rendered e vars (codes "role_main") found before ≡ ok after

  add_main-RoleFile :
      (n : AssemblyName) (s t : List Section)
      → add_main e vars anchors [] n s ≡ ok t
      → RoleFile n s t
  unfolding add_main resolve_role_main main_match
  add_main-RoleFile n s t h =
      let (m, r, h1) = bind-ok (main_match anchors n) _ h in
      let (out, a, g) = bind-ok (add_rendered e vars (codes "role_main") m s) _ h1 in
      record {
        found = m;
        lists = bind-into _ _ r;
        adds = a ∙ grown-ok (empty_main m.anchor m.path) s out t g;
      }

  record Whole (n : AssemblyName) (s t : List Section) : Type 0 where
    at_role : List Section
    behind_role : List Section
    before : Comes (framing_pre anchors n) s at_role
    main : RoleFile n at_role behind_role
    after : Comes (framing_post anchors n) behind_role t

  add_all-Whole :
      (n : AssemblyName) (s t : List Section) → add_all e vars anchors [] n s ≡ ok t → Whole n s t
  unfolding add_all framing_pre framing_post
  add_all-Whole n s t h =
      let (s4, h4, d) = bind-ok _ (add_dirs e vars anchors post (reverse (dir_paths n.dirs))) h in
      let (s3, h3, c) = bind-ok _ (add_role e vars anchors post n) h4 in
      let (s2, h2, b) = bind-ok _ (add_main e vars anchors [] n) h3 in
      let (s1, h1, a) = bind-ok _ (add_role e vars anchors pre n) h2 in
      record {
        at_role = s2;
        behind_role = s3;
        before =
            followed_by-Comes _ _ s s1 s2 (dirs-Comes pre (dir_paths n.dirs) s s1 h1)
              (role-Comes pre n s1 s2 a);
        main = add_main-RoleFile n s2 s3 b;
        after =
            followed_by-Comes _ _ s3 s4 t (role-Comes post n s3 s4 c)
              (dirs-Comes post (reverse (dir_paths n.dirs)) s4 t d);
      }

  abbrev entries_of : {n : AssemblyName} {s t : List Section} → Whole n s t → List Entry
  entries_of w = w.before.entries ++ (codes "role_main", w.main.found) ∷ w.after.entries

  every_file :
      {n : AssemblyName} {s t : List Section} (w : Whole n s t)
      → (framing_pre anchors n >>= λ before. resolve_role_main anchors n >>= λ main.
          framing_post anchors n >>= λ after. ok (before ++ main ∷ after))
        ≡ ok (files_of anchors (entries_of w))
  every_file w =
      bind-into _ _ w.before.lists
      ∙ bind-into _ _ w.main.lists
      ∙ bind-into _ _ w.after.lists
      ∙ ap ok (
          sym (
            map-append (λ x. file_of anchors x.0 x.1) w.before.entries
              ((codes "role_main", w.main.found) ∷ w.after.entries)))

  every_section :
      {n : AssemblyName} {s t : List Section} (w : Whole n s t)
      → add_entries e vars (entries_of w) s ≡ ok t
  every_section {s = s} w =
      add_entries-append w.before.entries _ s w.at_role w.before.adds
        (bind-into _ _ w.main.adds ∙ w.after.adds)

same_result : {a b : AssembleResult} → ok a ≡ ok b → b ≡ a
same_result h = cc

-- Without an override of the role's main text, the sections that `Assemble` adds are those of the
-- files that `Resolve` lists for the same name, in their order.
pub assemble-resolve :
    (anchors : List Anchor) (name : Bytes) (vars : Vars) (e : Option Engine)
    (opts : AssembleOptions) (r : AssembleResult)
    → opts.replace_role_main ≡ []
    → assemble anchors name vars e opts ≡ ok r
    → (es : List Entry) × (resolve anchors name ≡ ok (files_of anchors es))
      × ((sections : List Section) × (add_entries
              (engine_or_default anchors e)
              vars
              es
              (opened opts)
            ≡ ok sections)
          × (r ≡ finished opts sections))
unfolding assemble resolve
assemble-resolve anchors name vars e opts r none_given h =
    let eng = engine_or_default anchors e in
    let (n, p, h1) = bind-ok (parse_assembly_name name) _ h in
    let (sections, a, done) =
      bind-ok (add_all eng vars anchors opts.replace_role_main n (opened opts)) _ h1 in
    let w =
      add_all-Whole eng vars anchors n (opened opts) sections
        (ap (λ z. add_all eng vars anchors z n (opened opts)) (sym none_given) ∙ a) in
    (
      entries_of eng vars anchors w,
      bind-into _ _ p ∙ every_file eng vars anchors w,
      (sections, every_section eng vars anchors w, same_result done),
    )
