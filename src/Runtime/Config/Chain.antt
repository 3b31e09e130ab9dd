-- ===== src/Runtime/Config/Chain.antt =====
-- What an agent's configuration is to be, apart from how it is computed, and what the state of the
-- recursion says of it.
use ateam.Prelude.{ℕ, suc, true, false, some, ◌≡◌, refl, sym, ap, ◌∙◌, Bytes, is_empty}
use ateam.Prelude.Dict.{lookup}
use ateam.Runtime.Config.{AgentConfig, Agents, inherit, mem, State}

-- The effective configuration of an agent: its own if it has no base, else its own over the
-- effective one of its base. A circular chain, or one that leaves the map, has none.
pub data Effective (agents : Agents) : Bytes → AgentConfig → Type 0 where
  root :
      (name : Bytes) (ac : AgentConfig)
      → lookup name agents ≡ some ac
      → is_empty ac.base ≡ true
      → Effective agents name ac
  child :
      (name : Bytes) (ac base : AgentConfig)
      → lookup name agents ≡ some ac
      → is_empty ac.base ≡ false
      → Effective agents ac.base base
      → Effective agents name (inherit ac base)

abbrev pub height :
    {agents : Agents} {name : Bytes} {ac : AgentConfig} → Effective agents name ac → ℕ
height (root name ac h e) = 0
height (child name ac base h e b) = suc (height b)

-- Resolved agents have their effective configuration, all others the one they came with.
pub record IsValid (agents : Agents) (s : State) : Type 0 where
  pub effective :
      (n : Bytes)
      → mem n s.resolved ≡ true
      → (ac : AgentConfig) × (lookup n s.agents ≡ some ac) × Effective agents n ac
  pub untouched : (n : Bytes) → mem n s.resolved ≡ false → lookup n s.agents ≡ lookup n agents

some_same : {a b : AgentConfig} → some a ≡ some b → a ≡ b
some_same h = cc

pub same_entry :
    (agents : Agents) (n : Bytes) {a b : AgentConfig}
    → lookup n agents ≡ some a
    → lookup n agents ≡ some b
    → a ≡ b
same_entry agents n h k = some_same (sym h ∙ k)

-- A configuration and its height.
abbrev Sized : Type 0
Sized = AgentConfig × ℕ

one_base : (a c : AgentConfig) → a ≡ c → is_empty a.base ≡ true → is_empty c.base ≡ false → ⊥
one_base a c p e f = cc (ap (λ z. is_empty z.base) p)

-- There is one effective configuration at most, and one derivation of it.
pub Effective-unique :
    (agents : Agents) (n m : Bytes) (a b : AgentConfig) (x : Effective agents n a)
    (y : Effective agents m b)
    → n ≡ m
    → (a ≡ b) × (height x ≡ height y)
Effective-unique agents n m a b (root n' a' h e) (root m' b' k f) q =
    (same_entry agents n h (ap (λ z. lookup z agents) q ∙ k), refl)
Effective-unique agents n m a b (root n' a' h e) (child m' c d k f y) q =
    absurd (one_base a c (same_entry agents n h (ap (λ z. lookup z agents) q ∙ k)) e f)
Effective-unique agents n m a b (child n' c d h e x) (root m' b' k f) q =
    absurd (one_base b c (same_entry agents m k (ap (λ z. lookup z agents) (sym q) ∙ h)) f e)
Effective-unique agents n m a b (child n' c d h e x) (child m' c' d' k f y) q =
    let p = same_entry agents n h (ap (λ z. lookup z agents) q ∙ k) in
    let (bases, heights) = Effective-unique agents c.base c'.base d d' x y (ap (λ z. z.base) p) in
    (ap (λ z. inherit z d) p ∙ ap (inherit c') bases, ap suc heights)
