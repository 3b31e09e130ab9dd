-- ===== src/Prompts/Assembler/Overrides.antt =====
-- `AllMatches` takes each file from where `FirstMatch` finds it, and each path once.
use mathlib.Core.Path.{subst}
use ateam.Prelude.{
  Bool, true, false, Option, none, some, List, [], ◌∷◌, ◌≡◌, refl, sym, ap, ◌∙◌, arith, Bytes, All,
  Member, first, later, if◌then◌else◌, Bool-cases, inl, inr,
}
use ateam.Prompts.Result.{Result, ok, err, ◌>>=◌}
use ateam.Prompts.Assembler.{
  Read, contents, not_exist, failed, Globbed, names, bad_pattern, Anchor, Match, first_step,
  first_match, mem, glob_any, Globs, glob_step, glob_anchors, content_src, read_result, read_from,
  read_step, read_all, emission, all_matches,
}

abbrev pub is_there : Read → Bool
is_there not_exist = false
is_there _ = true

-- The glob of an anchor lists a path exactly if the file can be opened there.
abbrev pub Agrees : List Bytes → Bytes → Anchor → Type 0
Agrees ps path a =
    (found : List Bytes)
    → glob_any a.fs ps ≡ names found
    → mem path found ≡ is_there (a.fs.read_file path)

first_step-there :
    (a : Anchor) (path : Bytes) (r : Read) (rest : Result (Option Match)) {m : Match}
    → read_result a path r ≡ ok m
    → first_step a path r rest ≡ ok (some m)
first_step-there a path (contents text) rest h = cc
first_step-there a path not_exist rest h = cc
first_step-there a path (failed why) rest h = cc

first_step-absent :
    (a : Anchor) (path : Bytes) (r : Read) (rest : Result (Option Match))
    → is_there r ≡ false
    → first_step a path r rest ≡ rest
first_step-absent a path (contents text) rest h = cc
first_step-absent a path not_exist rest h = refl
first_step-absent a path (failed why) rest h = cc

-- What a successful first pass was made of.
abbrev Split : List Bytes → Anchor → Globbed → Result Globs → Globs → Type 0
Split ps a r rest globs =
    (found : List Bytes) × (r ≡ names found)
    × ((more : Globs) × (rest ≡ ok more) × (globs ≡ (a, found) ∷ more))

glob_step-Split :
    (ps : List Bytes) (a : Anchor) (r : Globbed) (rest : Result Globs) (globs : Globs)
    → glob_step ps a r rest ≡ ok globs
    → Split ps a r rest globs
glob_step-Split ps a (bad_pattern why) rest globs h = cc
glob_step-Split ps a (names found) (err e) globs h = cc
glob_step-Split ps a (names found) (ok more) globs h = (found, refl, (more, refl, cc))

first-here :
    (path : Bytes) (a b : Anchor) (rest : Result (Option Match)) {m : Match}
    → b ≡ a
    → read_from a path ≡ ok m
    → first_step b path (b.fs.read_file path) rest ≡ ok (some m)
first-here path a b rest {m = m} e rd =
    first_step-there b path (b.fs.read_file path) rest
      (subst (λ z. read_from z path ≡ ok m) (sym e) rd)

head-listed :
    (path : Bytes) (b : Anchor) (found : List Bytes) (more : Globs) (listed : Bool)
    → mem path found ≡ listed
    → content_src ((b, found) ∷ more) path ≡ (if listed then some b else content_src more path)
unfolding content_src
head-listed path b found more listed l = rw l refl

content_src-cons :
    (path : Bytes) (a b : Anchor) (found : List Bytes) (more globs : Globs) (listed : Bool)
    → globs ≡ (b, found) ∷ more
    → content_src globs path ≡ some a
    → mem path found ≡ listed
    → (if listed then some b else content_src more path) ≡ some a
content_src-cons path a b found more globs listed e src l =
    sym (head-listed path b found more listed l) ∙ ap (λ z. content_src z path) (sym e) ∙ src

same_anchor : (a b : Anchor) → some b ≡ some a → b ≡ a
same_anchor a b h = cc

abbrev no_globs : Result Globs
no_globs = ok []

no_src :
    (path : Bytes) (a : Anchor) (globs : Globs)
    → no_globs ≡ ok globs
    → content_src globs path ≡ some a
    → ⊥
unfolding content_src
no_src path a [] e h = cc
no_src path a (g ∷ gs) e h = cc

content_src-first_match :
    (ps : List Bytes) (path : Bytes) (anchors : List Anchor) (globs : Globs) (a : Anchor)
    {m : Match}
    → glob_anchors ps anchors ≡ ok globs
    → All (Agrees ps path) anchors
    → content_src globs path ≡ some a
    → read_from a path ≡ ok m
    → first_match anchors path ≡ ok (some m)
unfolding glob_anchors content_src first_match
content_src-first_match ps path [] globs a g ag src rd = absurd (no_src path a globs g src)
content_src-first_match ps path (b ∷ anchors) globs a g ag src rd =
    let (found, gf, (more, gm, ge)) =
      glob_step-Split ps b (glob_any b.fs ps) (glob_anchors ps anchors) globs g in
    elim (Bool-cases (mem path found)) [
      | inl listed ↦
          first-here path a b (first_match anchors path)
            (same_anchor a b (content_src-cons path a b found more globs true ge src listed)) rd
      | inr unlisted ↦
          first_step-absent b path (b.fs.read_file path) (first_match anchors path)
            (sym (ag.0 found gf) ∙ unlisted)
          ∙ content_src-first_match ps path anchors more a gm ag.1
              (content_src-cons path a b found more globs false ge src unlisted) rd
    ]

-- A match and where it was read.
abbrev FromSource : Globs → Match → Type 0
FromSource globs m =
    (a : Anchor) × (content_src globs m.path ≡ some a) × (read_from a m.path ≡ ok m)

read_result-path :
    (a : Anchor) (path : Bytes) (r : Read) {m : Match} → read_result a path r ≡ ok m → m.path ≡ path
read_result-path a path (contents text) h = ground arith
read_result-path a path not_exist h = cc
read_result-path a path (failed why) h = cc

-- What a successful read of the second pass was made of.
abbrev Made : Result Match → Result (List Match) → List Match → Type 0
Made r rest ms =
    (m : Match) × (r ≡ ok m) × ((more : List Match) × (rest ≡ ok more) × (ms ≡ m ∷ more))

read-Made :
    (r : Result Match) (rest : Result (List Match)) (ms : List Match)
    → (r >>= λ m. rest >>= λ more. ok (m ∷ more)) ≡ ok ms
    → Made r rest ms
read-Made (err e) rest ms h = cc
read-Made (ok m) (err e) ms h = cc
read-Made (ok m) (ok more) ms h = (m, refl, (more, refl, cc))

read_step-FromSource :
    (globs : Globs) (path : Bytes) (o : Option Anchor) (rest : Result (List Match))
    (ms : List Match)
    → content_src globs path ≡ o
    → read_step path o rest ≡ ok ms
    → ((more : List Match) → rest ≡ ok more → All (FromSource globs) more)
    → All (FromSource globs) ms
read_step-FromSource globs path none rest ms src h ih = ih ms h
read_step-FromSource globs path (some a) rest ms src h ih =
    let (m, rd, (more, re, me)) = read-Made (read_from a path) rest ms h in
    let p = read_result-path a path (a.fs.read_file path) rd in
    subst (All (FromSource globs)) (sym me)
      ((a, ap (content_src globs) p ∙ src, ap (read_from a) p ∙ rd), ih more re)

read_all-FromSource :
    (globs : Globs) (paths : List Bytes) (ms : List Match)
    → read_all globs paths ≡ ok ms
    → All (FromSource globs) ms
unfolding read_all
read_all-FromSource globs [] [] h = tt
read_all-FromSource globs [] (m ∷ ms) h = cc
read_all-FromSource globs (path ∷ paths) ms h =
    read_step-FromSource globs path (content_src globs path) (read_all globs paths) ms refl h
      (λ more e. read_all-FromSource globs paths more e)

All-Member : {A : Type 0} (P : A → Type 0) (xs : List A) {x : A} → All P xs → Member x xs → P x
All-Member P [] a m = elim m [ ]
All-Member P (x ∷ xs) a (first e) = subst P e a.0
All-Member P (x ∷ xs) a (later m) = All-Member P xs a.1 m

globs-ok :
    (g : Result Globs) (f : Globs → Result (List Match)) (ms : List Match)
    → (g >>= f) ≡ ok ms
    → (globs : Globs) × (g ≡ ok globs) × (f globs ≡ ok ms)
globs-ok (err e) f ms h = cc
globs-ok (ok globs) f ms h = (globs, refl, h)

-- Every file that `AllMatches` returns is the one that `FirstMatch` returns for its path, with the
-- anchor and the content of the most specific anchor that has it, if for this path the glob of
-- every anchor lists what can be opened there.
pub all_matches-first_match :
    (anchors : List Anchor) (ps : List Bytes) (ms : List Match) (m : Match)
    → all_matches anchors ps ≡ ok ms
    → Member m ms
    → All (Agrees ps m.path) anchors
    → first_match anchors m.path ≡ ok (some m)
unfolding all_matches
all_matches-first_match anchors ps ms m h mem_m ag =
    let (globs, g, rd) = globs-ok (glob_anchors ps anchors) _ ms h in
    let (a, src, from) =
      All-Member (FromSource globs) ms (read_all-FromSource globs (emission globs) ms rd) mem_m in
    content_src-first_match ps m.path anchors globs a g ag src from
