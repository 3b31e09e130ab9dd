-- ===== src/Secret/Validate.antt =====
-- internal/secret/validate.go: which secrets an agent needs, and its environment with one
-- credential of each group left in it.
pub mod Isolation
pub mod Details
use ateam.Prelude.{
  ℕ, ◌-◌, Bool, true, false, not, ◌&&◌, ◌||◌, Option, none, some, List, [], ◌∷◌, ◌++◌, ◌==◌, leb,
  map, if◌then◌else◌, Bytes, codes, eq, is_empty, is_some, split, join, trim_space, length, take,
  drop,
}
use ateam.Prelude.Dict.{Dict, lookup, insert}
use ateam.Secret.Resolve.{World, Resolver, ResolveResult, resolve}

-- The fields of `runtime.AgentConfig` that the package reads; none for the nil map.
pub record AgentConfig : Type 0 where
  pub required_env : List Bytes
  pub env : Option (Dict Bytes)

-- The loops over `strings.Split(req, "|")`, which trim every part and pass over empty ones.
keep_alternatives : List Bytes → List Bytes
keep_alternatives [] = []
keep_alternatives (part ∷ parts) =
    let alt = trim_space part in
    let rest = keep_alternatives parts in if is_empty alt then rest else alt ∷ rest

unfoldable pub alternatives : Bytes → List Bytes
unfolding keep_alternatives
alternatives req = keep_alternatives (split b'|' req)

unfoldable pub any_found : World → Resolver → List Bytes → Bool
any_found w r [] = false
any_found w r (alt ∷ alts) = if (resolve w r alt).found then true else any_found w r alts

unfoldable pub resolve_requirement : World → Resolver → Bytes → Bool
unfolding any_found
resolve_requirement w r req = any_found w r (alternatives req)

unfoldable pub format_requirement : Bytes → Bytes
format_requirement req = format_parts (split b'|' req)
  where
    format_parts : List Bytes → Bytes
    format_parts (part ∷ []) = part
    format_parts parts = join (codes " or ") (map trim_space parts)

unfoldable pub missing_from : World → Resolver → List Bytes → List Bytes
missing_from w r [] = []
missing_from w r (req ∷ reqs) =
    let rest = missing_from w r reqs in
    if not (resolve_requirement w r req) then req ∷ rest else rest

bullets : List Bytes → Bytes
bullets [] = []
bullets (m ∷ ms) = codes "\n  - " ++ (format_requirement m ++ bullets ms)

headline : List Bytes → Bytes
unfolding bullets
headline (m ∷ []) = codes "Missing required secret: " ++ format_requirement m
headline ms = codes "Missing required secrets:" ++ bullets ms

-- `strings.SplitN(missing[0], "|", 2)[0]`
first_part : List Bytes → Bytes
first_part [] = []
first_part (p ∷ _) = p

docker_advice : Bytes → Bytes
docker_advice name =
    codes "\n\nInside Docker container:"
    ++ (codes "\n  On the host: ateam secret "
        ++ (name
            ++ (codes " --set"
                ++ (codes "\n  Then: ateam secret --save-project-scope"
                    ++ (codes "\n  Or pass directly: docker run -e " ++ (name ++ codes "=..."))))))

unfoldable pub complaint : Bool → List Bytes → Option Bytes
unfolding headline first_part docker_advice
complaint in_docker [] = none
complaint in_docker (m ∷ ms) =
    let name = first_part (split b'|' m) in
    some (
      headline (m ∷ ms)
      ++ (codes "\n\nSet it with: ateam secret "
          ++ (name ++ (if in_docker then docker_advice name else []))))

-- None is success. A nil resolver checks nothing; `in_docker` is `container.IsInDockerContainer()`.
unfoldable pub validate_secrets : World → Bool → AgentConfig → Option Resolver → Option Bytes
validate_secrets w in_docker ac none = none
validate_secrets w in_docker ac (some r) = complaint in_docker (missing_from w r ac.required_env)

pub record IsolationResult : Type 0 where
  pub active_key : Bytes
  pub active_source : Bytes
  pub stripped : List Bytes

-- The variables of the first loop: the first alternative found in a store, and the first found in
-- the environment, each with its value and source.
pub record Candidates : Type 0 where
  pub store : Option (Bytes × ResolveResult)
  pub env : Option (Bytes × ResolveResult)

abbrev pub from_env : ResolveResult → Bool
from_env result = eq result.source (codes "env")

unfoldable pub consider : Candidates → Bytes → ResolveResult → Candidates
consider c alt result =
    if not result.found
    then c
    else if not (from_env result) && not (is_some c.store)
    then record c { store = some (alt, result) }
    else if from_env result && not (is_some c.env)
    then record c { env = some (alt, result) }
    else c

unfoldable pub candidates : World → Resolver → List Bytes → Candidates → Candidates
unfolding consider
candidates w r [] c = c
candidates w r (alt ∷ alts) c = candidates w r alts (consider c alt (resolve w r alt))

abbrev pub chosen : Candidates → Option (Bytes × ResolveResult)
chosen c = elim c.store [ some s ↦ some s | none ↦ c.env ]

-- The second loop: competing alternatives that the environment holds are set to the empty text.
unfoldable pub strip_others : World → Bytes → List Bytes → Dict Bytes → Dict Bytes × List Bytes
strip_others w key [] env = (env, [])
strip_others w key (alt ∷ alts) env =
    let competes = not (eq alt key) && is_some (w.lookup_env alt) in
    let (env', stripped) = strip_others w key alts (if competes then insert alt [] env else env) in
    (env', if competes then alt ∷ stripped else stripped)

-- The end of a round: the credential chosen goes into the environment, the others out of it.
unfoldable pub activate :
    World
    → List Bytes
    → Dict Bytes
    → Option (Bytes × ResolveResult)
    → Dict Bytes × Option IsolationResult
activate w alts env none = (env, none)
activate w alts env (some (key, result)) =
    let (env', stripped) = strip_others w key alts (insert key result.value env) in
    (env', some (record { active_key = key; active_source = result.source; stripped = stripped }))

-- One round of the loop over `ac.RequiredEnv`.
unfoldable pub isolate_one :
    World → Resolver → Bytes → Dict Bytes → Dict Bytes × Option IsolationResult
isolate_one w r req env =
    activate w (alternatives req) env
      (chosen (candidates w r (alternatives req) (record { store = none; env = none })))

abbrev pub and_then : Option IsolationResult → List IsolationResult → List IsolationResult
and_then none results = results
and_then (some ir) results = ir ∷ results

unfoldable pub isolate_all :
    World → Resolver → List Bytes → Dict Bytes → Dict Bytes × List IsolationResult
isolate_all w r [] env = (env, [])
isolate_all w r (req ∷ reqs) env =
    let (env', ir) = isolate_one w r req env in
    let (last, results) = isolate_all w r reqs env' in (last, and_then ir results)

unfoldable pub isolate_credentials :
    World → AgentConfig → Option Resolver → AgentConfig × List IsolationResult
isolate_credentials w ac none = (ac, [])
isolate_credentials w ac (some r) =
    let (env, results) = isolate_all w r ac.required_env (elim ac.env [ none ↦ [] | some m ↦ m ]) in
    (record ac { env = some env }, results)

unfoldable pub mask_value : Bytes → Bytes
mask_value val =
    if leb (length val) 8
    then codes "***"
    else take 4 val ++ (codes "..." ++ drop (length val - 4) val)

pub record ResolveDetail : Type 0 where
  pub name : Bytes
  pub found : Bool
  pub source : Bytes
  pub backend : Bytes
  pub masked : Bytes
  pub status : Bytes

abbrev pub unresolved : Bytes → ResolveDetail
unresolved name = record {
  name = name;
  found = false;
  source = [];
  backend = [];
  masked = [];
  status = [];
}

unfoldable pub resolve_one_detail : World → Option Resolver → Bytes → ResolveDetail
unfolding mask_value
resolve_one_detail w none name = unresolved name
resolve_one_detail w (some r) name =
    let found = resolve w r name in
    if not found.found then unresolved name else record {
      name = name;
      found = true;
      source = found.source;
      backend = found.backend;
      masked = mask_value found.value;
      status = [];
    }

-- The status of an alternative in an environment that `IsolateCredentials` has prepared.
unfoldable pub status_in : Option (Dict Bytes) → Bytes → Bytes → Bytes
status_in none alt before = before
status_in (some env) alt before = elim (lookup alt env) [
  | none ↦ before
  | some v ↦ if is_empty v then codes "stripped" else codes "active"
]

unfoldable pub seen_before : Bytes → List Bytes → Bool
seen_before name [] = false
seen_before name (s ∷ seen) = eq s name || seen_before name seen

-- The loops of `ResolveAllRequired` over the alternatives, then over `forwardEnv`: both collect
-- the names not seen before, and thread what has been seen.
unfoldable pub fresh : List Bytes → List Bytes → List Bytes
fresh seen [] = []
fresh seen (name ∷ names) =
    let rest = fresh (if seen_before name seen then seen else name ∷ seen) names in
    if seen_before name seen then rest else name ∷ rest

unfoldable pub all_alternatives : List Bytes → List Bytes
all_alternatives [] = []
all_alternatives (req ∷ reqs) = alternatives req ++ all_alternatives reqs

unfoldable pub resolve_all_required :
    World → AgentConfig → List Bytes → Option Resolver → List ResolveDetail
resolve_all_required w ac forward_env r =
    let required = fresh [] (all_alternatives ac.required_env) in
    let forwarded = fresh required forward_env in
    map
      (λ alt.
        let d = resolve_one_detail w r alt in record d { status = status_in ac.env alt d.status })
      required
    ++ map (resolve_one_detail w r) forwarded
