-- ===== src/Secret/Resolve/Priority.antt =====
-- `Resolve` against `ResolveAll`, the list of every place that holds a value.
use ateam.Prelude.{
  true, false, Option, none, some, List, [], ◌∷◌, ◌++◌, ◌≡◌, ◌≢◌, refl, arith, Bytes, codes, eq,
  All, Member, first, later,
}
use ateam.Secret.Resolve.{
  World, Backend, keychain, file, other, Scope, Resolver, ResolveResult, not_found, lookup_keychain,
  lookup_file, resolve_scope, resolve_scopes, resolve, resolve_all_scopes, resolve_all, resolve_env,
  found_in, listed, choose,
}

abbrev pub head_or_not_found : List ResolveResult → ResolveResult
head_or_not_found [] = not_found
head_or_not_found (r ∷ _) = r

resolve_scopes-head :
    (w : World) (scopes : List Scope) (name : Bytes)
    → resolve_scopes w keychain scopes name ≡ head_or_not_found (resolve_all_scopes w scopes name)
unfolding resolve_scopes resolve_all_scopes resolve_scope
resolve_scopes-head w [] name = ground arith
resolve_scopes-head w (s ∷ scopes) name = ground (arith, resolve_scopes-head w scopes name)

-- With the keychain preferred, `Resolve` returns the first entry of `ResolveAll`.
pub resolve-head :
    (w : World) (r : Resolver) (name : Bytes)
    → r.backend ≡ keychain
    → resolve w r name ≡ head_or_not_found (resolve_all w r name)
unfolding resolve resolve_all
resolve-head w r name h = rw h (resolve_scopes-head w r.scopes name)

-- Whether a scope holds the name in the keychain or in its file.
abbrev pub Lacks : World → Bytes → Scope → Type 0
Lacks w name s = (lookup_keychain w s name ≡ none) × (lookup_file w s name ≡ none)

-- One scope of the loop, over what its two lookups give.
abbrev pick : Backend → Option Bytes → Option Bytes → Bytes → ResolveResult → ResolveResult
pick b kc fc source rest = elim (choose b kc fc) [
  | some (val, src) ↦ found_in source src val
  | none ↦ rest
]

pick-Member :
    (b : Backend) (kc fc : Option Bytes) (source : Bytes) (rest : ResolveResult)
    (others : List ResolveResult)
    → (rest.found ≡ true → Member rest others)
    → (pick b kc fc source rest).found ≡ true
    → Member
        (pick b kc fc source rest)
        (listed source (codes "keychain") kc ++ (listed source (codes "file") fc ++ others))
pick-Member keychain (some v) fc source rest others m h = first refl
pick-Member keychain none (some v) source rest others m h = first refl
pick-Member keychain none none source rest others m h = m h
pick-Member file (some u) (some v) source rest others m h = later (first refl)
pick-Member file none (some v) source rest others m h = first refl
pick-Member file (some v) none source rest others m h = first refl
pick-Member file none none source rest others m h = m h
pick-Member other (some u) (some v) source rest others m h = later (first refl)
pick-Member other none (some v) source rest others m h = first refl
pick-Member other (some v) none source rest others m h = later (m h)
pick-Member other none none source rest others m h = m h

env-Member :
    (o : Option Bytes)
    → let res : ResolveResult = elim o [
      | none ↦ not_found
      | some val ↦ found_in (codes "env") (codes "env") val
    ] in
      res.found ≡ true → Member res (listed (codes "env") (codes "env") o)
env-Member none h = cc
env-Member (some v) h = first refl

resolve_scopes-Member :
    (w : World) (b : Backend) (scopes : List Scope) (name : Bytes)
    → (resolve_scopes w b scopes name).found ≡ true
    → Member (resolve_scopes w b scopes name) (resolve_all_scopes w scopes name)
unfolding resolve_scopes resolve_all_scopes resolve_scope
resolve_scopes-Member w b [] name h = env-Member (w.lookup_env name) h
resolve_scopes-Member w b (s ∷ scopes) name h =
    pick-Member b (lookup_keychain w s name) (lookup_file w s name) s.name
      (resolve_scopes w b scopes name) (resolve_all_scopes w scopes name)
      (resolve_scopes-Member w b scopes name) h

-- Whatever `Resolve` finds is one of the places that `ResolveAll` lists.
pub resolve-Member :
    (w : World) (r : Resolver) (name : Bytes)
    → (resolve w r name).found ≡ true
    → Member (resolve w r name) (resolve_all w r name)
unfolding resolve resolve_all
resolve-Member w r name h = resolve_scopes-Member w r.backend r.scopes name h

resolve_scopes-env :
    (w : World) (b : Backend) (scopes : List Scope) (name : Bytes)
    → b ≢ other
    → eq (resolve_scopes w b scopes name).backend (codes "keychain") ≡ false
    → eq (resolve_scopes w b scopes name).backend (codes "file") ≡ false
    → All (Lacks w name) scopes × (resolve_scopes w b scopes name ≡ resolve_env w name)
unfolding resolve_scopes resolve_scope eq
resolve_scopes-env w b [] name nb nk nf = (tt, refl)
resolve_scopes-env w b (s ∷ scopes) name nb nk nf =
    ground (arith, resolve_scopes-env w b scopes name nb)

-- The environment comes last: if the value is from no store, no scope holds the name.
pub resolve-Lacks :
    (w : World) (r : Resolver) (name : Bytes)
    → r.backend ≢ other
    → eq (resolve w r name).backend (codes "keychain") ≡ false
    → eq (resolve w r name).backend (codes "file") ≡ false
    → All (Lacks w name) r.scopes × (resolve w r name ≡ resolve_env w name)
unfolding resolve
resolve-Lacks w r name = resolve_scopes-env w r.backend r.scopes name
