-- ===== src/Runtime/Config/Fuel.antt =====
-- `resolve` is not cut short by its fuel.
use ateam.Prelude.{
  ℕ, zero, suc, ◌+◌, ◌≤◌, Bool, true, false, Option, none, some, List, [], ◌∷◌, ◌≡◌, ◌≢◌, refl, sym,
  ap, ◌∙◌, arith, Bytes, is_empty, eq, eq_iff, length, if◌then◌else◌, is_some,
}
use ateam.Prelude.Dict.{lookup}
use ateam.Runtime.Config.{
  AgentConfig, Agents, mem, State, Outcome, ok, err, out_of_fuel, ◌>>=◌, store, with_base, resolve,
  resolve_each, resolve_inheritance,
}
use ateam.Runtime.Config.Chain.{IsValid}
use ateam.Runtime.Config.Sound.{resolve-Leaves, rounds, unresolved-IsValid}

-- Names that are all different, each with an entry.
abbrev Trail : List Bytes → Agents → Type 0
Trail [] agents = Unit
Trail (n ∷ ns) agents = (mem n ns ≡ false) × (is_some (lookup n agents) ≡ true) × Trail ns agents

-- The entries of all other names.
abbrev without : Bytes → Agents → Agents
without n [] = []
without n (e ∷ rest) = if eq e.0 n then without n rest else e ∷ without n rest

lookup-without :
    (n m : Bytes) (agents : Agents) → eq n m ≡ false → lookup m (without n agents) ≡ lookup m agents
unfolding lookup
lookup-without n m [] h = refl
lookup-without n m (e ∷ rest) h =
    ground (arith, lookup-without n m rest, eq_iff e.0 n, eq_iff e.0 m, eq_iff n m)

length-without_le : (n : Bytes) (agents : Agents) → length (without n agents) ≤ length agents
length-without_le n [] = omega arith
length-without_le n (e ∷ rest) = ground (arith, length-without_le n rest)

length-without :
    (n : Bytes) (agents : Agents)
    → is_some (lookup n agents) ≡ true
    → length (without n agents) + 1 ≤ length agents
unfolding lookup
length-without n [] h = cc
length-without n (e ∷ rest) h = ground (arith, length-without n rest, length-without_le n rest)

Trail-without :
    (n : Bytes) (ns : List Bytes) (agents : Agents)
    → mem n ns ≡ false
    → Trail ns agents
    → Trail ns (without n agents)
Trail-without n [] agents m p = tt
Trail-without n (k ∷ ns) agents m p = (
  p.0,
  ap is_some (lookup-without n k agents (ground (arith, eq_iff k n, eq_iff n k))) ∙ p.1,
  Trail-without n ns agents (ground arith) p.2,
)

-- A path is not longer than the map.
Trail-length : (ns : List Bytes) (agents : Agents) → Trail ns agents → length ns ≤ length agents
Trail-length [] agents p = omega arith
Trail-length (n ∷ ns) agents p = omega (
  arith,
  Trail-length ns (without n agents) (Trail-without n ns agents p.0 p.2),
  length-without n agents p.1,
)

store-runs :
    (name : Bytes) (ac : AgentConfig) (t : State) (o : Option AgentConfig)
    → store name ac t o ≢ err out_of_fuel
unfolding store
store-runs name ac t none h = cc
store-runs name ac t (some base) h = cc

bind-runs :
    {A B : Type 0} (x : Outcome A) (f : A → Outcome B)
    → x ≢ err out_of_fuel
    → ((a : A) → x ≡ ok a → f a ≢ err out_of_fuel)
    → (x >>= f) ≢ err out_of_fuel
bind-runs (ok a) f hx hf = hf a refl
bind-runs (err e) f hx hf = λ h. hx (cc h)

with_base-runs :
    (name : Bytes) (s : State) (further : Bytes → Outcome State) (o : Option AgentConfig)
    → (is_some o ≡ true → (base : Bytes) → further base ≢ err out_of_fuel)
    → with_base name s further o ≢ err out_of_fuel
unfolding with_base
with_base-runs name s further none f = λ h. cc
with_base-runs name s further (some ac) f = at (is_empty ac.base) (
    bind-runs (further ac.base) (λ t. store name ac t (lookup ac.base t.agents)) (f refl ac.base)
      (λ t e. store-runs name ac t (lookup ac.base t.agents)))
  where
    at :
        (b : Bool)
        → (further ac.base >>= λ t. store name ac t (lookup ac.base t.agents)) ≢ err out_of_fuel
        → (if b
            then ok (record s { resolved = name ∷ s.resolved })
            else further ac.base >>= λ t. store name ac t (lookup ac.base t.agents))
          ≢ err out_of_fuel
    at true g h = cc
    at false g h = g h

pub resolve-runs :
    (agents : Agents) (fuel : ℕ) (name : Bytes) (visited : List Bytes) (s : State)
    → IsValid agents s
    → Trail visited agents
    → length agents + 1 ≤ fuel + length visited
    → resolve fuel name visited s ≢ err out_of_fuel
resolve-runs agents zero name visited s v path le =
    λ h. absurd (omega (arith, Trail-length visited agents path))
resolve-runs agents (suc fuel) name visited s v path le =
    by_tests (mem name s.resolved) (mem name visited) refl refl (λ out known base.
      resolve-runs agents fuel base (name ∷ visited) s v (out, known, path) (omega arith))
  where
    by_tests :
        (a b : Bool)
        → mem name s.resolved ≡ a
        → mem name visited ≡ b
        → (mem name visited ≡ false
            → is_some (lookup name agents) ≡ true
            → (base : Bytes) → resolve fuel base (name ∷ visited) s ≢ err out_of_fuel)
        → resolve (suc fuel) name visited s ≢ err out_of_fuel
    by_tests true b ha hb ih h = cc (sym (rounds fuel name visited s true b ha hb) ∙ h)
    by_tests false true ha hb ih h = cc (sym (rounds fuel name visited s false true ha hb) ∙ h)
    by_tests false false ha hb ih h =
        with_base-runs name s (λ base. resolve fuel base (name ∷ visited) s) (lookup name s.agents)
          (λ known. ih hb (ap is_some (sym (v.untouched name ha)) ∙ known))
          (sym (rounds fuel name visited s false false ha hb) ∙ h)

resolve_each-runs :
    (agents : Agents) (names : List Bytes) (s : State)
    → IsValid agents s
    → resolve_each (length agents + 1) names s ≢ err out_of_fuel
unfolding resolve_each
resolve_each-runs agents [] s v = λ h. cc
resolve_each-runs agents (name ∷ names) s v =
    bind-runs (resolve (length agents + 1) name [] s) (resolve_each (length agents + 1) names)
      (resolve-runs agents (length agents + 1) name [] s v tt (omega arith))
      (λ u r.
        resolve_each-runs agents names u
          (resolve-Leaves agents (length agents + 1) name [] s u v r).valid)

-- `resolveInheritance` always comes to an end within its fuel: it succeeds, or it returns one of
-- the errors of the program.
pub resolve_inheritance_total :
    (agents : Agents) (order : List Bytes) → resolve_inheritance order agents ≢ err out_of_fuel
unfolding resolve_inheritance
resolve_inheritance_total agents order =
    bind-runs (resolve_each (length agents + 1) order (record { agents = agents; resolved = [] }))
      (λ s. ok s.agents)
      (resolve_each-runs agents order (record { agents = agents; resolved = [] })
        (unresolved-IsValid agents))
      (λ t e h. cc)
