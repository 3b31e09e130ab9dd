-- ===== src/Secret/Validate/Details.antt =====
-- `ResolveAllRequired` lists every name once.
use mathlib.Core.Path.{ap₂, subst}
use ateam.Prelude.{
  true, false, not, ◌&&◌, ◌||◌, Option, none, some, List, [], ◌∷◌, ◌++◌, map, ◌≡◌, refl, ap, ◌∙◌,
  arith, Bytes, eq_iff, eq, sym, Bool, Bool-cases, inl, inr, ◌⊎◌, ◌↔◌, Member, first, later,
  Member-append_either, Member-append_cases, is_empty, split, trim_space, if◌then◌else◌,
}
use ateam.Secret.Resolve.{World, Resolver}
use ateam.Secret.Validate.{
  AgentConfig, ResolveDetail, resolve_one_detail, seen_before, fresh, all_alternatives,
  alternatives, keep_alternatives, resolve_all_required,
}

abbrev pub Distinct : List Bytes → Type 0
Distinct [] = Unit
Distinct (x ∷ xs) = (seen_before x xs ≡ false) × Distinct xs

seen_before-nil : (x : Bytes) → seen_before x [] ≡ false
unfolding seen_before
seen_before-nil x = refl

seen_before-append :
    (x : Bytes) (xs ys : List Bytes)
    → seen_before x (xs ++ ys) ≡ (seen_before x xs || seen_before x ys)
unfolding seen_before
seen_before-append x [] ys = refl
seen_before-append x (y ∷ xs) ys = ground (arith, seen_before-append x xs ys)

seen_before-fresh :
    (x : Bytes) (seen names : List Bytes)
    → seen_before x (fresh seen names) ≡ (not (seen_before x seen) && seen_before x names)
unfolding seen_before fresh
seen_before-fresh x seen [] = ground arith
seen_before-fresh x seen (n ∷ names) =
    ground (arith, eq_iff n x, seen_before-fresh x seen names, seen_before-fresh x (n ∷ seen) names)

fresh-Distinct : (seen names : List Bytes) → Distinct (fresh seen names)
unfolding fresh seen_before
fresh-Distinct seen [] = tt
fresh-Distinct seen (n ∷ names) = ground (
  arith,
  eq_iff n n,
  fresh-Distinct seen names,
  fresh-Distinct (n ∷ seen) names,
  seen_before-fresh n (n ∷ seen) names,
)

Distinct-append :
    (xs ys : List Bytes)
    → Distinct xs
    → ((x : Bytes) → seen_before x ys ≡ true → seen_before x xs ≡ false)
    → Distinct ys
    → Distinct (xs ++ ys)
unfolding seen_before
Distinct-append [] ys dx apart dy = dy
Distinct-append (x ∷ xs) ys dx apart dy = (
  ground (arith, seen_before-append x xs ys, dx.0, apart x, eq_iff x x),
  Distinct-append xs ys dx.1 (λ z m. ground (arith, apart z m)) dy,
)

-- The names reported.
abbrev pub names : List ResolveDetail → List Bytes
names [] = []
names (d ∷ ds) = d.name ∷ names ds

names-append : (xs ys : List ResolveDetail) → names (xs ++ ys) ≡ names xs ++ names ys
names-append [] ys = refl
names-append (x ∷ xs) ys = ap (◌∷◌ x.name) (names-append xs ys)

names-map :
    (f : Bytes → ResolveDetail)
    → ((x : Bytes) → (f x).name ≡ x)
    → (xs : List Bytes) → names (map f xs) ≡ xs
names-map f h [] = refl
names-map f h (x ∷ xs) = rw (h x, names-map f h xs)

resolve_one_detail-name :
    (w : World) (r : Option Resolver) (x : Bytes) → (resolve_one_detail w r x).name ≡ x
unfolding resolve_one_detail
resolve_one_detail-name w none x = refl
resolve_one_detail-name w (some r) x = ground arith

names-resolve_all_required :
    (w : World) (ac : AgentConfig) (forward_env : List Bytes) (r : Option Resolver)
    → names (resolve_all_required w ac forward_env r)
      ≡ fresh [] (all_alternatives ac.required_env)
        ++ fresh (fresh [] (all_alternatives ac.required_env)) forward_env
unfolding resolve_all_required
names-resolve_all_required w ac forward_env r =
    names-append (map _ _) (map _ _)
    ∙ ap₂ ◌++◌ (names-map _ (λ x. resolve_one_detail-name w r x) _)
        (names-map _ (λ x. resolve_one_detail-name w r x) _)

seen_before-into : (x : Bytes) (xs : List Bytes) → Member x xs → seen_before x xs ≡ true
unfolding seen_before
seen_before-into x [] m = elim m [ ]
seen_before-into x (y ∷ xs) (first e) = ground (arith, eq_iff y x, eq_iff x y)
seen_before-into x (y ∷ xs) (later m) = ground (arith, seen_before-into x xs m)

seen_before-from : (x : Bytes) (xs : List Bytes) → seen_before x xs ≡ true → Member x xs
unfolding seen_before
seen_before-from x [] h = cc
seen_before-from x (y ∷ xs) h = elim (Bool-cases (eq y x)) [
  | inl same ↦ first ((eq_iff y x).0 same)
  | inr other ↦
      let rest : seen_before x xs ≡ true = ground (arith, eq_iff y x, eq_iff x y) in
      later (seen_before-from x xs rest)
]

-- A name that a requirement offers: a part between its bars, trimmed, that is not empty.
abbrev pub Offers : Bytes → Bytes → Type 0
Offers req x =
    (part : Bytes) × Member part (split b'|' req) × (trim_space part ≡ x) × (is_empty x ≡ false)

-- A name that some requirement of the agent offers, or one to forward.
abbrev pub Wanted : AgentConfig → List Bytes → Bytes → Type 0
Wanted ac forward_env x =
    ((req : Bytes) × Member req ac.required_env × Offers req x) ⊎ Member x forward_env

if-into :
    (blank : Bool) (x alt : Bytes) (rest : List Bytes)
    → blank ≡ false
    → alt ≡ x
    → Member x (if blank then rest else alt ∷ rest)
if-into true x alt rest h e = cc
if-into false x alt rest h e = first e

if-later :
    (blank : Bool) (x alt : Bytes) (rest : List Bytes)
    → Member x rest
    → Member x (if blank then rest else alt ∷ rest)
if-later true x alt rest m = m
if-later false x alt rest m = later m

if-from :
    (blank : Bool) (x alt : Bytes) (rest : List Bytes)
    → Member x (if blank then rest else alt ∷ rest)
    → ((blank ≡ false) × (alt ≡ x)) ⊎ Member x rest
if-from true x alt rest m = inr m
if-from false x alt rest (first e) = inl (refl, e)
if-from false x alt rest (later m) = inr m

keep-into :
    (x part : Bytes) (parts : List Bytes)
    → Member part parts
    → trim_space part ≡ x
    → is_empty x ≡ false
    → Member x (keep_alternatives parts)
unfolding keep_alternatives
keep-into x part [] m t n = elim m [ ]
keep-into x part (p ∷ parts) (first e) t n =
    let same : trim_space p ≡ x = ap trim_space e ∙ t in
    if-into (is_empty (trim_space p)) x (trim_space p) (keep_alternatives parts)
      (ap is_empty same ∙ n) same
keep-into x part (p ∷ parts) (later m) t n =
    if-later (is_empty (trim_space p)) x (trim_space p) (keep_alternatives parts)
      (keep-into x part parts m t n)

keep-from :
    (x : Bytes) (parts : List Bytes)
    → Member x (keep_alternatives parts)
    → (part : Bytes) × Member part parts × (trim_space part ≡ x) × (is_empty x ≡ false)
unfolding keep_alternatives
keep-from x [] m = elim m [ ]
keep-from x (p ∷ parts) m =
    elim (if-from (is_empty (trim_space p)) x (trim_space p) (keep_alternatives parts) m) [
      | inl (n, e) ↦ (p, first refl, e, ap is_empty (sym e) ∙ n)
      | inr rest ↦
          let (part, there, t, full) = keep-from x parts rest in (part, later there, t, full)
    ]

abbrev Asks : List Bytes → Bytes → Type 0
Asks reqs x = (req : Bytes) × Member req reqs × Offers req x

alternatives-into : (reqs : List Bytes) (x : Bytes) → Asks reqs x → Member x (all_alternatives reqs)
unfolding all_alternatives alternatives
alternatives-into [] x (req, m, offers) = elim m [ ]
alternatives-into (r ∷ reqs) x (req, first e, (part, there, t, n)) =
    Member-append_either (alternatives r) (all_alternatives reqs) (
      inl (
        keep-into x part (split b'|' r) (subst (λ z. Member part (split b'|' z)) (sym e) there) t
          n))
alternatives-into (r ∷ reqs) x (req, later m, offers) =
    Member-append_either (alternatives r) (all_alternatives reqs)
      (inr (alternatives-into reqs x (req, m, offers)))

alternatives-from : (reqs : List Bytes) (x : Bytes) → Member x (all_alternatives reqs) → Asks reqs x
unfolding all_alternatives alternatives
alternatives-from [] x m = elim m [ ]
alternatives-from (r ∷ reqs) x m =
    elim (Member-append_cases (alternatives r) (all_alternatives reqs) m) [
      | inl here ↦ (r, first refl, keep-from x (split b'|' r) here)
      | inr there ↦ let (req, l, offers) = alternatives-from reqs x there in (req, later l, offers)
    ]

either-Wanted :
    (ac : AgentConfig) (forward_env : List Bytes) (x : Bytes) (a b : Bool)
    → seen_before x (all_alternatives ac.required_env) ≡ a
    → seen_before x forward_env ≡ b
    → (a || b) ≡ true
    → Wanted ac forward_env x
either-Wanted ac forward_env x true b p q h =
    inl (alternatives-from ac.required_env x (seen_before-from x _ p))
either-Wanted ac forward_env x false true p q h = inr (seen_before-from x forward_env q)
either-Wanted ac forward_env x false false p q h = cc

Wanted-either :
    (ac : AgentConfig) (forward_env : List Bytes) (x : Bytes)
    → Wanted ac forward_env x
    → (seen_before x (all_alternatives ac.required_env) || seen_before x forward_env) ≡ true
Wanted-either ac forward_env x (inl asks) =
    rw (seen_before-into x _ (alternatives-into ac.required_env x asks)) refl
Wanted-either ac forward_env x (inr m) = ground (arith, seen_before-into x forward_env m)

seen_before-names :
    (w : World) (ac : AgentConfig) (forward_env : List Bytes) (r : Option Resolver) (x : Bytes)
    → seen_before x (names (resolve_all_required w ac forward_env r))
      ≡ (seen_before x (all_alternatives ac.required_env) || seen_before x forward_env)
seen_before-names w ac forward_env r x =
    let required = fresh [] (all_alternatives ac.required_env) in
    rw (names-resolve_all_required w ac forward_env r) (
      ground (
        arith,
        seen_before-append x required (fresh required forward_env),
        seen_before-fresh x [] (all_alternatives ac.required_env),
        seen_before-fresh x required forward_env,
        seen_before-nil x,
      ))

-- No name is reported twice, and a name is reported exactly if it is to be forwarded or if some
-- requirement of the agent offers it: as one of its parts between `|`, trimmed and not empty.
pub resolve_all_required-Distinct :
    (w : World) (ac : AgentConfig) (forward_env : List Bytes) (r : Option Resolver) (x : Bytes)
    → Distinct (names (resolve_all_required w ac forward_env r))
      × (Member x (names (resolve_all_required w ac forward_env r)) ↔ Wanted ac forward_env x)
resolve_all_required-Distinct w ac forward_env r x =
    let required = fresh [] (all_alternatives ac.required_env) in
    (
      rw (names-resolve_all_required w ac forward_env r) (
          Distinct-append required (fresh required forward_env)
            (fresh-Distinct [] (all_alternatives ac.required_env))
            (λ y m. ground (arith, seen_before-fresh y required forward_env))
            (fresh-Distinct required forward_env)),
      (
        (λ m.
            either-Wanted ac forward_env x _ _ refl refl
              (sym (seen_before-names w ac forward_env r x) ∙ seen_before-into x _ m)),
        λ (wanted : Wanted ac forward_env x).
            seen_before-from x _
              (seen_before-names w ac forward_env r x ∙ Wanted-either ac forward_env x wanted),
      ),
    )
