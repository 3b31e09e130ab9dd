-- ===== src/Secret/Validate/Isolation.antt =====
-- What one round of `IsolateCredentials` in internal/secret/validate.go leaves in the agent's
-- environment.
use ateam.Prelude.{
  Bool, true, false, not, ◌&&◌, ◌||◌, Option, none, some, List, [], ◌∷◌, ◌≡◌, refl, ◌∙◌, arith,
  if◌then◌else◌, Bytes, codes, eq, eq_iff, is_some, any,
}
use ateam.Prelude.Dict.{Dict, lookup, insert, lookup-insert}
use ateam.Secret.Resolve.{World, Resolver, ResolveResult, resolve}
use ateam.Secret.Validate.{
  alternatives, Candidates, IsolationResult, from_env, consider, candidates, chosen, strip_others,
  activate, isolate_one,
}

abbrev nothing : Candidates
nothing = record { store = none; env = none }

-- A credential of a store, among the alternatives.
abbrev pub any_store : World → Resolver → List Bytes → Bool
any_store w r = any (λ alt. (resolve w r alt).found && not (from_env (resolve w r alt)))

store-candidates :
    (w : World) (r : Resolver) (alts : List Bytes) (c : Candidates)
    → is_some (candidates w r alts c).store ≡ (is_some c.store || any_store w r alts)
unfolding candidates
store-candidates w r [] c = ground arith
store-candidates w r (alt ∷ alts) c =
    ground (arith, store-candidates w r alts (consider c alt (resolve w r alt)))

-- What the loop keeps is what `Resolve` found for that key, from the kind of place it is kept for.
abbrev Found : World → Resolver → Option (Bytes × ResolveResult) → Type 0
Found w r none = Unit
Found w r (some e) = (resolve w r e.0 ≡ e.1) × (e.1.found ≡ true)

abbrev FromStore : Option (Bytes × ResolveResult) → Type 0
FromStore none = Unit
FromStore (some e) = from_env e.1 ≡ false

abbrev Genuine : World → Resolver → Candidates → Type 0
Genuine w r c = Found w r c.store × Found w r c.env × FromStore c.store

consider-Genuine :
    (w : World) (r : Resolver) (c : Candidates) (alt : Bytes)
    → Genuine w r c
    → Genuine w r (consider c alt (resolve w r alt))
unfolding consider
consider-Genuine w r c alt g = ground arith

candidates-Genuine :
    (w : World) (r : Resolver) (alts : List Bytes) (c : Candidates)
    → Genuine w r c
    → Genuine w r (candidates w r alts c)
unfolding candidates
candidates-Genuine w r [] c g = g
candidates-Genuine w r (alt ∷ alts) c g =
    candidates-Genuine w r alts _ (consider-Genuine w r c alt g)

lookup-strip_others :
    (w : World) (key k : Bytes) (alts : List Bytes) (env : Dict Bytes)
    → lookup k (strip_others w key alts env).0 ≡ (
        if any (λ alt. eq alt k) alts && not (eq k key) && is_some (w.lookup_env k)
        then some []
        else lookup k env)
unfolding strip_others
lookup-strip_others w key k [] env = refl
lookup-strip_others w key k (alt ∷ alts) env = ground (
  arith,
  eq_iff alt k,
  eq_iff alt key,
  eq_iff k key,
  lookup-insert alt k [] env,
  lookup-strip_others w key k alts env,
  lookup-strip_others w key k alts (insert alt [] env),
)

Genuine-nothing : (w : World) (r : Resolver) → Genuine w r nothing
Genuine-nothing w r = (tt, tt, tt)

genuine :
    (w : World) (r : Resolver) (req : Bytes)
    → Genuine w r (candidates w r (alternatives req) nothing)
genuine w r req = candidates-Genuine w r (alternatives req) nothing (Genuine-nothing w r)

chosen-Found : (w : World) (r : Resolver) (c : Candidates) → Genuine w r c → Found w r (chosen c)
chosen-Found w r c g = ground arith

chosen-FromStore :
    (w : World) (r : Resolver) (c : Candidates)
    → Genuine w r c
    → is_some c.store ≡ true
    → FromStore (chosen c)
chosen-FromStore w r c g h = ground arith

-- The environment with key `k`, when `ir` is what was activated.
abbrev pub Isolated :
    World → Resolver → List Bytes → Bytes → Dict Bytes → Dict Bytes → IsolationResult → Type 0
Isolated w r alts k before after ir =
    ((resolve w r ir.active_key).found ≡ true)
    × (ir.active_source ≡ (resolve w r ir.active_key).source)
    × (lookup k after ≡ (
        if eq k ir.active_key
        then some (resolve w r ir.active_key).value
        else if any (λ alt. eq alt k) alts && is_some (w.lookup_env k)
        then some []
        else lookup k before))

activate-Isolated :
    (w : World) (r : Resolver) (alts : List Bytes) (k : Bytes) (env : Dict Bytes)
    (o : Option (Bytes × ResolveResult)) {ir : IsolationResult}
    → Found w r o
    → (activate w alts env o).1 ≡ some ir
    → Isolated w r alts k env (activate w alts env o).0 ir
unfolding activate
activate-Isolated w r alts k env none f h = cc
activate-Isolated w r alts k env (some (key, res)) {ir} f h = ground (
  arith,
  lookup-strip_others w key k alts (insert key res.value env),
  lookup-insert key k res.value env,
  eq_iff key k,
  eq_iff k key,
)

-- The environment after one requirement: the active key has the value that `Resolve` found, every
-- other alternative that the process environment holds is emptied, all else is as before.
pub lookup-isolate_one :
    (w : World) (r : Resolver) (req k : Bytes) (env : Dict Bytes) {ir : IsolationResult}
    → (isolate_one w r req env).1 ≡ some ir
    → Isolated w r (alternatives req) k env (isolate_one w r req env).0 ir
unfolding isolate_one
lookup-isolate_one w r req k env h =
    activate-Isolated w r (alternatives req) k env _ (chosen-Found w r _ (genuine w r req)) h

activate-source :
    (w : World) (alts : List Bytes) (env : Dict Bytes) (o : Option (Bytes × ResolveResult))
    {ir : IsolationResult}
    → FromStore o
    → (activate w alts env o).1 ≡ some ir
    → eq ir.active_source (codes "env") ≡ false
unfolding activate
activate-source w alts env none f h = cc
activate-source w alts env (some e) f h = ground arith

-- If one alternative is found in a store, the active credential is from a store.
pub isolate_one_store :
    (w : World) (r : Resolver) (req : Bytes) (env : Dict Bytes) {ir : IsolationResult}
    → any_store w r (alternatives req) ≡ true
    → (isolate_one w r req env).1 ≡ some ir
    → eq ir.active_source (codes "env") ≡ false
unfolding isolate_one
isolate_one_store w r req env s h =
    activate-source w (alternatives req) env _
      (chosen-FromStore w r _ (genuine w r req)
        (store-candidates w r (alternatives req) nothing ∙ s))
      h
