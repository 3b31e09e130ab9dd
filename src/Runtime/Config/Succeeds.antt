-- ===== src/Runtime/Config/Succeeds.antt =====
-- `resolveInheritance` fails only on a chain that is circular or leaves the map.
use mathlib.Core.Path.{subst}
use ateam.Prelude.{
  ℕ, zero, suc, ◌+◌, ◌<◌, Bool, true, false, Option, some, List, [], ◌∷◌, ◌≡◌, ◌≢◌, ◌⊎◌, refl, sym,
  ap, ◌∙◌, arith, Bytes, eq, eq_iff, length, Bool-cases, inl, inr,
}
use ateam.Prelude.Dict.{lookup}
use ateam.Runtime.Config.{
  AgentConfig, Agents, mem, State, Outcome, ok, err, out_of_fuel, ◌>>=◌, store, with_base, resolve,
  resolve_each, resolve_inheritance,
}
use ateam.Runtime.Config.Chain.{Effective, root, child, height, Effective-unique, IsValid}
use ateam.Runtime.Config.Sound.{Leaves, resolve-Leaves, rounds, unresolved-IsValid, based}
use ateam.Runtime.Config.Fuel.{resolve_inheritance_total}

-- A call that succeeds, or had too little fuel.
abbrev Comes : Outcome State → Type 0
Comes r = ((t : State) × (r ≡ ok t)) ⊎ (r ≡ err out_of_fuel)

-- Every name on the way has a longer chain than the one in hand.
abbrev Above : Agents → ℕ → List Bytes → Type 0
Above agents h [] = Unit
Above agents h (n ∷ ns) =
    ((ac : AgentConfig) × ((e : Effective agents n ac) × (h < height e))) × Above agents h ns

Above-lower :
    (agents : Agents) (h k : ℕ) (ns : List Bytes) → k < h → Above agents h ns → Above agents k ns
Above-lower agents h k [] lt a = tt
Above-lower agents h k (n ∷ ns) lt ((ac, (e, l)), a) =
    ((ac, (e, omega arith)), Above-lower agents h k ns lt a)

Above-out :
    (agents : Agents) (name : Bytes) (ac : AgentConfig) (ns : List Bytes)
    (e : Effective agents name ac)
    → Above agents (height e) ns
    → mem name ns ≡ false
Above-out agents name ac [] e a = refl
Above-out agents name ac (n ∷ ns) e ((bc, (f, l)), a) = elim (Bool-cases (eq n name)) [
  | inl same ↦
      let (q, hs) = Effective-unique agents n name bc ac f e ((eq_iff n name).0 same) in
      absurd (omega (arith, hs))
  | inr different ↦ rw different (Above-out agents name ac ns e a)
]

store-Comes :
    (agents : Agents) (name : Bytes) (ac : AgentConfig) (s t : State)
    → Leaves agents ac.base s t
    → Comes (store name ac t (lookup ac.base t.agents))
unfolding store
store-Comes agents name ac s t l =
    let (found, lf, eff) = l.valid.effective ac.base l.resolved in inl (_, ap (store name ac t) lf)

bind-Comes :
    (r : Outcome State) (f : State → Outcome State)
    → Comes r
    → ((t : State) → r ≡ ok t → Comes (f t))
    → Comes (r >>= f)
bind-Comes r f (inl (t, e)) k = subst (λ z. Comes (z >>= f)) (sym e) (k t e)
bind-Comes r f (inr e) k = inr (subst (λ z. (z >>= f) ≡ err out_of_fuel) (sym e) refl)

entry-Comes :
    (agents : Agents) (name : Bytes) (s : State) (further : Bytes → Outcome State)
    (own : AgentConfig) (o : Option AgentConfig)
    → o ≡ some own
    → Comes (with_base name s further (some own))
    → Comes (with_base name s further o)
entry-Comes agents name s further own o h c =
    subst (λ z. Comes (with_base name s further z)) (sym h) c

-- The part of a round behind its two tests, given the recursion on the base.
with_base-Comes :
    (agents : Agents) (name : Bytes) (ac : AgentConfig) (visited : List Bytes) (s : State)
    (further : Bytes → Outcome State) (e : Effective agents name ac)
    → IsValid agents s
    → mem name s.resolved ≡ false
    → Above agents (height e) visited
    → ((base : Bytes) (bc : AgentConfig) (g : Effective agents base bc)
        → Above agents (height g) (name ∷ visited)
        → Comes (further base))
    → ((base : Bytes) (t : State) → further base ≡ ok t → Leaves agents base s t)
    → Comes (with_base name s further (lookup name s.agents))
with_base-Comes agents name ac visited s further (root n own h alone) v m b ih leaves =
    entry-Comes agents name s further own (lookup name s.agents) (v.untouched name m ∙ h)
      (subst Comes (sym (based name s further own true alone)) (inl (_, refl)))
with_base-Comes agents name ac visited s further (child n own bc h has_base g) v m b ih leaves =
    entry-Comes agents name s further own (lookup name s.agents) (v.untouched name m ∙ h) (
      subst Comes (sym (based name s further own false has_base)) (
        bind-Comes (further own.base) (λ t. store name own t (lookup own.base t.agents))
          (ih own.base bc g (
            (_, (child name own bc h has_base g, omega arith)),
            Above-lower agents (suc (height g)) (height g) visited (omega arith) b,
          ))
          (λ t r. store-Comes agents name own s t (leaves own.base t r))))

resolve-Comes :
    (agents : Agents) (fuel : ℕ) (name : Bytes) (ac : AgentConfig) (visited : List Bytes)
    (s : State) (e : Effective agents name ac)
    → IsValid agents s
    → Above agents (height e) visited
    → Comes (resolve fuel name visited s)
unfolding resolve
resolve-Comes agents zero name ac visited s e v a = inr refl
resolve-Comes agents (suc fuel) name ac visited s e v a =
    by_tests (mem name s.resolved) (mem name visited) refl refl (λ m.
      with_base-Comes agents name ac visited s (λ base. resolve fuel base (name ∷ visited) s) e v m
        a (λ base bc g b. resolve-Comes agents fuel base bc (name ∷ visited) s g v b)
        (λ base t r. resolve-Leaves agents fuel base (name ∷ visited) s t v r))
  where
    by_tests :
        (r m : Bool)
        → mem name s.resolved ≡ r
        → mem name visited ≡ m
        → (mem name s.resolved ≡ false
            → Comes (
                with_base name s
                  (λ base. resolve fuel base (name ∷ visited) s)
                  (lookup name s.agents)))
        → Comes (resolve (suc fuel) name visited s)
    by_tests true m hr hm k =
        subst Comes (sym (rounds fuel name visited s true m hr hm)) (inl (s, refl))
    by_tests false true hr hm k = absurd (cc (sym (Above-out agents name ac visited e a) ∙ hm))
    by_tests false false hr hm k =
        subst Comes (sym (rounds fuel name visited s false false hr hm)) (k hr)

-- Every name has an effective configuration.
abbrev pub AllEffective : Agents → List Bytes → Type 0
AllEffective agents [] = Unit
AllEffective agents (n ∷ ns) = ((ac : AgentConfig) × Effective agents n ac) × AllEffective agents ns

resolve_each-Comes :
    (agents : Agents) (fuel : ℕ) (names : List Bytes) (s : State)
    → IsValid agents s
    → AllEffective agents names
    → Comes (resolve_each fuel names s)
unfolding resolve_each
resolve_each-Comes agents fuel [] s v a = inl (s, refl)
resolve_each-Comes agents fuel (name ∷ names) s v ((ac, e), a) =
    bind-Comes (resolve fuel name [] s) (resolve_each fuel names)
      (resolve-Comes agents fuel name ac [] s e v tt)
      (λ t r.
        resolve_each-Comes agents fuel names t (resolve-Leaves agents fuel name [] s t v r).valid a)

succeeded :
    (r : Outcome State)
    → (r >>= λ s. ok s.agents) ≢ err out_of_fuel
    → Comes r
    → (out : Agents) × ((r >>= λ s. ok s.agents) ≡ ok out)
succeeded r n (inl (t, e)) = (t.agents, ap (λ z. z >>= λ s. ok s.agents) e)
succeeded r n (inr e) = absurd (n (ap (λ z. z >>= λ s. ok s.agents) e))

-- `resolveInheritance` succeeds if every agent that it goes through has an effective configuration,
-- that is a chain of bases that is not circular and does not leave the map; whatever the order of
-- the names, no agent is taken for circular because others of its chain were visited before.
pub resolve_inheritance_succeeds :
    (agents : Agents) (order : List Bytes)
    → AllEffective agents order
    → (out : Agents) × (resolve_inheritance order agents ≡ ok out)
unfolding resolve_inheritance
resolve_inheritance_succeeds agents order a =
    succeeded (resolve_each (length agents + 1) order (record { agents = agents; resolved = [] }))
      (unfold resolve_inheritance in resolve_inheritance_total agents order)
      (resolve_each-Comes agents (length agents + 1) order
        (record { agents = agents; resolved = [] }) (unresolved-IsValid agents) a)
