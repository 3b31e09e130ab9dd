-- ===== src/Prompts/Parser/Names.antt =====
-- The name of a prompt file is told by what the parser makes of it.
use ateam.Prelude.{
  Bool, true, false, Option, none, some, [], ◌∷◌, ◌++◌, ◌≡◌, refl, ap, ◌∙◌, Bytes, codes, eq,
  eq_iff, has_prefix, drop, if◌then◌else◌,
}
use ateam.Prompts.Parser.{
  FileKind, unknown, role_main, role_pre, role_post, dir_pre, dir_post, Parsed, strip_suffix,
  split_marker, dir_fragment, parse_dir_level, role_main_of, parse_role_level, parse_body,
  parse_stripped, parse, no_kind,
}
use ateam.Prompts.Parser.Markers.{
  dotted, Strips, Marks, strip_suffix-Strips, has_prefix-append, split_marker-Marks,
}

abbrev pub is_known : FileKind → Bool
is_known unknown = false
is_known _ = true

-- The name without `.md` that each kind of file has.
abbrev pub body_of : FileKind → Bytes → Bytes → Bytes
body_of unknown role fragment = []
body_of role_main role fragment = role ++ codes ".prompt"
body_of role_pre role fragment = role ++ (codes ".pre" ++ dotted fragment)
body_of role_post role fragment = role ++ (codes ".post" ++ dotted fragment)
body_of dir_pre role fragment = codes "_pre" ++ dotted fragment
body_of dir_post role fragment = codes "_post" ++ dotted fragment

-- The body that a known kind was found for.
abbrev Told : Bytes → Parsed → Type 0
Told body p = if is_known p.kind then (body ≡ body_of p.kind p.role p.fragment) else Unit

role_level-Told : (body : Bytes) → Told body (parse_role_level body)
unfolding parse_role_level
role_level-Told body =
    step (strip_suffix body (codes ".prompt")) (split_marker body (codes "pre"))
      (split_marker body (codes "post")) (strip_suffix-Strips body (codes ".prompt"))
      (split_marker-Marks body (codes "pre")) (split_marker-Marks body (codes "post"))
  where
    step :
        (a : Option Bytes) (b c : Option (Bytes × Bytes))
        → Strips body (codes ".prompt") a
        → Marks body (codes ".pre") b
        → Marks body (codes ".post") c
        → Told body (elim a [
          | some role ↦ role_main_of role
          | none ↦ elim b [
            | some (role, fragment) ↦ record { kind = role_pre; role = role; fragment = fragment }
            | none ↦ elim c [
              | some (role, fragment) ↦ record {
                kind = role_post;
                role = role;
                fragment = fragment;
              }
              | none ↦ no_kind
            ]
          ]
        ])
    step (some []) b c ha hb hc = tt
    step (some (x ∷ role)) b c ha hb hc = ha
    step none (some m) c ha hb hc = hb
    step none none (some m) ha hb hc = hc
    step none none none ha hb hc = tt

dir_fragment-Told_pre :
    (body rest : Bytes) → body ≡ codes "_pre." ++ rest → Told body (dir_fragment dir_pre rest)
dir_fragment-Told_pre body [] h = tt
dir_fragment-Told_pre body (c ∷ name) h = h

dir_fragment-Told_post :
    (body rest : Bytes) → body ≡ codes "_post." ++ rest → Told body (dir_fragment dir_post rest)
dir_fragment-Told_post body [] h = tt
dir_fragment-Told_post body (c ∷ name) h = h

dir_level-Told : (body : Bytes) → Told body (parse_dir_level body)
unfolding parse_dir_level
dir_level-Told body =
    step (eq body (codes "_pre")) (eq body (codes "_post")) (has_prefix body (codes "_pre."))
      (has_prefix body (codes "_post.")) (eq_iff body (codes "_pre")).0
      (eq_iff body (codes "_post")).0 (has_prefix-append body (codes "_pre."))
      (has_prefix-append body (codes "_post."))
  where
    step :
        (a b c d : Bool)
        → (a ≡ true → body ≡ codes "_pre")
        → (b ≡ true → body ≡ codes "_post")
        → (c ≡ true → body ≡ codes "_pre." ++ drop 5 body)
        → (d ≡ true → body ≡ codes "_post." ++ drop 6 body)
        → Told body (
            if a
            then record { kind = dir_pre; role = []; fragment = [] }
            else if b
            then record { kind = dir_post; role = []; fragment = [] }
            else if c
            then dir_fragment dir_pre (drop 5 body)
            else if d
            then dir_fragment dir_post (drop 6 body)
            else no_kind)
    step true b c d ha hb hc hd = ha refl
    step false true c d ha hb hc hd = hb refl
    step false false true d ha hb hc hd = dir_fragment-Told_pre body (drop 5 body) (hc refl)
    step false false false true ha hb hc hd = dir_fragment-Told_post body (drop 6 body) (hd refl)
    step false false false false ha hb hc hd = tt

body-Told : (filename body : Bytes) → Told body (parse_body filename body)
body-Told filename [] = tt
body-Told filename (c ∷ body) = step (has_prefix filename (codes "_"))
  where
    step :
        (e : Bool)
        → Told (c ∷ body) (if e then parse_dir_level (c ∷ body) else parse_role_level (c ∷ body))
    step true = dir_level-Told (c ∷ body)
    step false = role_level-Told (c ∷ body)

if_known : (b : Bool) (A : Type 0) → (if b then A else Unit) → b ≡ true → A
if_known true A t k = t
if_known false A t k = cc

known-Told :
    (filename body : Bytes) (p : Parsed)
    → filename ≡ body ++ codes ".md"
    → Told body p
    → is_known p.kind ≡ true
    → filename ≡ body_of p.kind p.role p.fragment ++ codes ".md"
known-Told filename body p h t k =
    h
    ∙ ap (λ z. z ++ codes ".md")
        (if_known (is_known p.kind) (body ≡ body_of p.kind p.role p.fragment) t k)

-- What `Parse` makes of a file name of a known kind tells the name: kind, role and fragment put
-- together again give it back, so that two files of one directory are never taken for one.
pub parse-told :
    (filename : Bytes)
    → is_known (parse filename).kind ≡ true
    → filename
      ≡ body_of (parse filename).kind (parse filename).role (parse filename).fragment ++ codes ".md"
unfolding parse
parse-told filename =
    step (strip_suffix filename (codes ".md")) (strip_suffix-Strips filename (codes ".md"))
  where
    step :
        (o : Option Bytes)
        → Strips filename (codes ".md") o
        → is_known (parse_stripped filename o).kind ≡ true
        → filename
          ≡ body_of
              (parse_stripped filename o).kind
              (parse_stripped filename o).role
              (parse_stripped filename o).fragment
            ++ codes ".md"
    step none h k = cc
    step (some body) h k =
        known-Told filename body (parse_body filename body) h (body-Told filename body) k
