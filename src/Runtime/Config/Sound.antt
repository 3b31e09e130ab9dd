-- ===== src/Runtime/Config/Sound.antt =====
-- What `resolveInheritance` stores is the effective configuration.
use mathlib.Core.Path.{subst}
use ateam.Prelude.{
  ℕ, zero, suc, ◌+◌, Bool, true, false, ◌||◌, Option, none, some, List, [], ◌∷◌, ◌≡◌, refl, sym, ap,
  ◌∙◌, arith, Bytes, is_empty, eq, eq_iff, eq_refl, length, if◌then◌else◌, Bool-cases, inl, inr,
}
use ateam.Prelude.Dict.{lookup, insert, lookup-insert}
use ateam.Runtime.Config.{
  AgentConfig, Agents, inherit, mem, State, Outcome, ok, err, circular, ◌>>=◌, store, with_base,
  resolve, resolve_each, resolve_inheritance,
}
use ateam.Runtime.Config.Chain.{Effective, root, child, IsValid}

-- What a successful call leaves: a valid state in which the name is resolved, and all that was.
pub record Leaves (agents : Agents) (name : Bytes) (s t : State) : Type 0 where
  pub valid : IsValid agents t
  pub resolved : mem name t.resolved ≡ true
  pub kept : (n : Bytes) → mem n s.resolved ≡ true → mem n t.resolved ≡ true

mem-cons_self : (name : Bytes) (xs : List Bytes) → mem name (name ∷ xs) ≡ true
mem-cons_self name xs = rw (eq_refl name) refl

mem-cons_more : (n name : Bytes) (xs : List Bytes) → mem n xs ≡ true → mem n (name ∷ xs) ≡ true
mem-cons_more n name xs h = ground arith

mem-cons_cases :
    (n name : Bytes) (xs : List Bytes)
    → mem n (name ∷ xs) ≡ true
    → (eq name n ≡ false → mem n xs ≡ true)
mem-cons_cases n name xs h e = ground arith

mem-cons_not :
    (n name : Bytes) (xs : List Bytes)
    → mem n (name ∷ xs) ≡ false
    → (eq name n ≡ false) × (mem n xs ≡ false)
mem-cons_not n name xs h = ground arith

-- A name marked resolved whose entry is effective already.
mark-IsValid :
    (agents : Agents) (name : Bytes) (s : State) (ac : AgentConfig)
    → IsValid agents s
    → lookup name s.agents ≡ some ac
    → Effective agents name ac
    → IsValid agents (record s { resolved = name ∷ s.resolved })
mark-IsValid agents name s ac v h e = record {
  effective = λ n m. elim (Bool-cases (eq name n)) [
    | inl same ↦
        subst (λ z. (a : AgentConfig) × (lookup z s.agents ≡ some a) × Effective agents z a)
          ((eq_iff name n).0 same) (ac, h, e)
    | inr different ↦ v.effective n (mem-cons_cases n name s.resolved m different)
  ];
  untouched = λ n m. v.untouched n (mem-cons_not n name s.resolved m).1;
}

put-IsValid :
    (agents : Agents) (name : Bytes) (t : State) (ac : AgentConfig)
    → IsValid agents t
    → Effective agents name ac
    → IsValid agents (record { agents = insert name ac t.agents; resolved = name ∷ t.resolved })
put-IsValid agents name t ac v e = record {
  effective = λ n m. elim (Bool-cases (eq name n)) [
    | inl same ↦
        subst
          (λ z.
            (a : AgentConfig) × (lookup z (insert name ac t.agents) ≡ some a)
            × Effective agents z a)
          ((eq_iff name n).0 same)
          (ac, lookup-insert name name ac t.agents ∙ rw (eq_refl name) refl, e)
    | inr different ↦
        let (a, l, f) = v.effective n (mem-cons_cases n name t.resolved m different) in
        (a, lookup-insert name n ac t.agents ∙ rw different l, f)
  ];
  untouched = λ n m.
      let (different, out) = mem-cons_not n name t.resolved m in
      lookup-insert name n ac t.agents ∙ rw different (v.untouched n out);
}

store-Leaves :
    (agents : Agents) (name : Bytes) (ac : AgentConfig) (s t u : State) (o : Option AgentConfig)
    → lookup name agents ≡ some ac
    → is_empty ac.base ≡ false
    → Leaves agents ac.base s t
    → lookup ac.base t.agents ≡ o
    → store name ac t o ≡ ok u
    → Leaves agents name s u
unfolding store
store-Leaves agents name ac s t u none h e l b st = cc
store-Leaves agents name ac s t u (some base) h e l b st =
    let (found, lf, eff) = l.valid.effective ac.base l.resolved in
    subst (Leaves agents name s) (stored st) (record {
      valid =
          put-IsValid agents name t (inherit ac base) l.valid
            (child name ac base h e (subst (Effective agents ac.base) (entry (sym lf ∙ b)) eff));
      resolved = mem-cons_self name t.resolved;
      kept = λ n m. mem-cons_more n name t.resolved (l.kept n m);
    })
  where
    stored : {a b : State} → ok a ≡ ok b → a ≡ b
    stored q = cc

    entry : {a b : AgentConfig} → some a ≡ some b → a ≡ b
    entry q = cc

pub bind-ok :
    {A B : Type 0} (x : Outcome A) (f : A → Outcome B) {b : B}
    → (x >>= f) ≡ ok b
    → (a : A) × (x ≡ ok a) × (f a ≡ ok b)
bind-ok (err e) f h = cc
bind-ok (ok a) f h = (a, refl, h)

same_agents : (a b : Agents) → ok a ≡ ok b → a ≡ b
same_agents a b h = cc

ok_same : {a b : State} → ok a ≡ ok b → a ≡ b
ok_same h = cc

-- The result of `with_base`, by the test of the base.
pub based :
    (name : Bytes) (s : State) (further : Bytes → Outcome State) (ac : AgentConfig) (b : Bool)
    → is_empty ac.base ≡ b
    → with_base name s further (some ac) ≡ (
        if b
        then ok (record s { resolved = name ∷ s.resolved })
        else further ac.base >>= λ t. store name ac t (lookup ac.base t.agents))
unfolding with_base
based name s further ac b h = rw h refl

with_base-Leaves :
    (agents : Agents) (name : Bytes) (s t : State) (further : Bytes → Outcome State)
    (o : Option AgentConfig)
    → IsValid agents s
    → mem name s.resolved ≡ false
    → lookup name s.agents ≡ o
    → ((base : Bytes) (u : State) → further base ≡ ok u → Leaves agents base s u)
    → with_base name s further o ≡ ok t
    → Leaves agents name s t
unfolding with_base
with_base-Leaves agents name s t further none v m l f h = cc
with_base-Leaves agents name s t further (some ac) v m l f h =
    let own = sym (v.untouched name m) ∙ l in
    elim (Bool-cases (is_empty ac.base)) [
      | inl alone ↦
          subst (Leaves agents name s) (ok_same (sym (based name s further ac true alone) ∙ h))
            (record {
              valid = mark-IsValid agents name s ac v l (root name ac own alone);
              resolved = mem-cons_self name s.resolved;
              kept = λ n k. mem-cons_more n name s.resolved k;
            })
      | inr has_base ↦
          let (u, fu, st) =
            bind-ok (further ac.base) (λ u. store name ac u (lookup ac.base u.agents))
              (sym (based name s further ac false has_base) ∙ h) in
          store-Leaves agents name ac s u t (lookup ac.base u.agents) own has_base (f ac.base u fu)
            refl st
    ]

-- A round of `resolve`, by its two tests.
pub rounds :
    (fuel : ℕ) (name : Bytes) (visited : List Bytes) (s : State) (a b : Bool)
    → mem name s.resolved ≡ a
    → mem name visited ≡ b
    → resolve (suc fuel) name visited s ≡ (
        if a
        then ok s
        else if b
        then err (circular name)
        else with_base name s (λ base. resolve fuel base (name ∷ visited) s) (lookup name s.agents))
unfolding resolve
rounds fuel name visited s a b h k = rw (h, k) refl

pub resolve-Leaves :
    (agents : Agents) (fuel : ℕ) (name : Bytes) (visited : List Bytes) (s t : State)
    → IsValid agents s
    → resolve fuel name visited s ≡ ok t
    → Leaves agents name s t
unfolding resolve
resolve-Leaves agents zero name visited s t v h = cc
resolve-Leaves agents (suc fuel) name visited s t v h =
    by_tests (mem name s.resolved) (mem name visited) refl refl
      (λ base u. resolve-Leaves agents fuel base (name ∷ visited) s u v)
  where
    by_tests :
        (a b : Bool)
        → mem name s.resolved ≡ a
        → mem name visited ≡ b
        → ((base : Bytes) (u : State)
            → resolve fuel base (name ∷ visited) s ≡ ok u
            → Leaves agents base s u)
        → Leaves agents name s t
    by_tests true b ha hb ih =
        subst (Leaves agents name s) (ok_same (sym (rounds fuel name visited s true b ha hb) ∙ h))
          (record { valid = v; resolved = ha; kept = λ n k. k })
    by_tests false true ha hb ih = cc (sym (rounds fuel name visited s false true ha hb) ∙ h)
    by_tests false false ha hb ih =
        with_base-Leaves agents name s t (λ base. resolve fuel base (name ∷ visited) s)
          (lookup name s.agents) v ha refl ih
          (sym (rounds fuel name visited s false false ha hb) ∙ h)

-- A name is resolved, or still to come.
abbrev coming : List Bytes → State → Bytes → Bool
coming names s n = mem n s.resolved || mem n names

coming-step :
    (agents : Agents) (name n : Bytes) (names : List Bytes) (s u : State)
    → Leaves agents name s u
    → coming (name ∷ names) s n ≡ true
    → coming names u n ≡ true
coming-step agents name n names s u l m = elim (Bool-cases (eq name n)) [
  | inl same ↦ rw (subst (λ z. mem z u.resolved ≡ true) ((eq_iff name n).0 same) l.resolved) refl
  | inr different ↦ ground (arith, l.kept n)
]

resolve_each-IsValid :
    (agents : Agents) (fuel : ℕ) (names : List Bytes) (s t : State)
    → IsValid agents s
    → resolve_each fuel names s ≡ ok t
    → IsValid agents t × ((n : Bytes) → coming names s n ≡ true → mem n t.resolved ≡ true)
unfolding resolve_each
resolve_each-IsValid agents fuel [] s t v h =
    subst (λ z. IsValid agents z × ((n : Bytes) → coming [] s n ≡ true → mem n z.resolved ≡ true))
      (ok_same h) (v, λ n m. ground arith)
resolve_each-IsValid agents fuel (name ∷ names) s t v h =
    let (u, r, rest) = bind-ok (resolve fuel name [] s) (resolve_each fuel names) h in
    let l = resolve-Leaves agents fuel name [] s u v r in
    let (vt, all) = resolve_each-IsValid agents fuel names u t l.valid rest in
    (vt, λ n m. all n (coming-step agents name n names s u l m))

pub unresolved-IsValid :
    (agents : Agents) → IsValid agents (record { agents = agents; resolved = [] })
unresolved-IsValid agents = record { effective = λ n m. cc; untouched = λ n m. refl }

-- If `resolveInheritance` succeeds, then each agent that it went through ends up with its effective
-- configuration, in whatever order the map gave the names.
pub resolve_inheritance-Effective :
    (agents out : Agents) (order : List Bytes) (name : Bytes)
    → resolve_inheritance order agents ≡ ok out
    → mem name order ≡ true
    → (ac : AgentConfig) × (lookup name out ≡ some ac) × Effective agents name ac
unfolding resolve_inheritance
resolve_inheritance-Effective agents out order name h m =
    let (t, r, e) =
      bind-ok (resolve_each (length agents + 1) order (record { agents = agents; resolved = [] }))
        (λ s. ok s.agents) h in
    let (v, all) =
      resolve_each-IsValid agents (length agents + 1) order
        (record { agents = agents; resolved = [] }) t (unresolved-IsValid agents) r in
    let (ac, l, f) = v.effective name (all name m) in
    (ac, ap (lookup name) (sym (same_agents t.agents out e)) ∙ l, f)
