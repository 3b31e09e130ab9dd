-- ===== src/Runtime/Config.antt =====
-- internal/runtime/config.go: agents, containers and profiles of runtime.hcl, merged level by level,
-- and the inheritance between agents.
pub mod Chain
pub mod Sound
pub mod Succeeds
pub mod Fuel
pub mod Blocks
pub mod Load
pub mod Settled
pub mod Levels
use ateam.Prelude.{
  ℕ, zero, suc, ◌+◌, Bool, true, false, ◌||◌, Option, none, some, List, [], ◌∷◌, Bytes, eq,
  is_empty, any, length, map, ◌==◌, if◌then◌else◌,
}
use ateam.Prelude.Int.{ℤ, pos}
use ateam.Prelude.Dict.{Dict, lookup, insert}

-- A `float64`, by the bits that stand for it: the prices are only passed on.
abbrev pub Float64 : Type 0
Float64 = ℕ

pub record ModelPricing : Type 0 where
  pub input_per_mtok : Float64
  pub cached_input_per_mtok : Float64
  pub output_per_mtok : Float64

pub record AgentPricing : Type 0 where
  pub default_model : Bytes
  pub models : Dict ModelPricing

-- Slices and maps are none when they are nil.
pub record AgentConfig : Type 0 where
  pub name : Bytes
  pub base : Bytes
  pub command : Bytes
  pub args : Option (List Bytes)
  pub model : Bytes
  pub effort : Bytes
  pub max_budget_usd : Bytes
  pub type : Bytes
  pub start_timeout : Bytes
  pub busy_timeout : Bytes
  pub quiescence_window : Bytes
  pub tmux_width : ℤ
  pub tmux_height : ℤ
  pub env : Option (Dict Bytes)
  pub sandbox : Bytes
  pub rw_paths : Option (List Bytes)
  pub ro_paths : Option (List Bytes)
  pub denied_paths : Option (List Bytes)
  pub config_dir : Bytes
  pub pricing : Option AgentPricing
  pub required_env : Option (List Bytes)
  pub args_inside_container : Option (List Bytes)
  pub args_outside_container : Option (List Bytes)
  pub sandbox_inside_container : Bool

pub record ContainerConfig : Type 0 where
  pub name : Bytes
  pub type : Bytes
  pub dockerfile : Bytes
  pub docker_container : Bytes
  pub exec_template : Bytes
  pub forward_env : Option (List Bytes)
  pub extra_volumes : Option (List Bytes)
  pub precheck : Option (List Bytes)
  pub copy_ateam : Bool
  pub mount_claude_config : Bool

pub record ProfileConfig : Type 0 where
  pub name : Bytes
  pub agent : Bytes
  pub container : Bytes
  pub agent_extra_args : Option (List Bytes)
  pub container_extra_args : Option (List Bytes)

abbrev pub Agents : Type 0
Agents = Dict AgentConfig

pub record Config : Type 0 where
  pub agents : Agents
  pub containers : Dict ContainerConfig
  pub profiles : Dict ProfileConfig
  pub sandbox_detection : Option Bool
  pub docker_detection : Option Bool

abbrev pub or_text : Bytes → Bytes → Bytes
or_text own base = if is_empty own then base else own

abbrev pub or_some {ℓ} : {A : Type ℓ} → Option A → Option A → Option A
or_some none base = base
or_some (some own) base = some own

abbrev pub or_number : ℤ → ℤ → ℤ
or_number (pos zero) base = base
or_number own base = own

-- The zero-valued fields of an agent, taken from its base.
unfoldable pub inherit : AgentConfig → AgentConfig → AgentConfig
inherit ac base = record ac {
  command = or_text ac.command base.command;
  args = or_some ac.args base.args;
  model = or_text ac.model base.model;
  effort = or_text ac.effort base.effort;
  max_budget_usd = or_text ac.max_budget_usd base.max_budget_usd;
  type = or_text ac.type base.type;
  start_timeout = or_text ac.start_timeout base.start_timeout;
  busy_timeout = or_text ac.busy_timeout base.busy_timeout;
  quiescence_window = or_text ac.quiescence_window base.quiescence_window;
  tmux_width = or_number ac.tmux_width base.tmux_width;
  tmux_height = or_number ac.tmux_height base.tmux_height;
  env = or_some ac.env base.env;
  sandbox = or_text ac.sandbox base.sandbox;
  rw_paths = or_some ac.rw_paths base.rw_paths;
  ro_paths = or_some ac.ro_paths base.ro_paths;
  denied_paths = or_some ac.denied_paths base.denied_paths;
  config_dir = or_text ac.config_dir base.config_dir;
  pricing = or_some ac.pricing base.pricing;
  required_env = or_some ac.required_env base.required_env;
  args_inside_container = or_some ac.args_inside_container base.args_inside_container;
  args_outside_container = or_some ac.args_outside_container base.args_outside_container;
  sandbox_inside_container = ac.sandbox_inside_container || base.sandbox_inside_container;
}

pub data ConfigError : Type 0 where
  circular : Bytes → ConfigError
  unknown_agent : Bytes → ConfigError
  unknown_base : Bytes → Bytes → ConfigError
  unknown_profile : Bytes → ConfigError
  profile_agent : Bytes → Bytes → ConfigError
  profile_container : Bytes → Bytes → ConfigError
  -- `cannot read %s: %w`, `cannot parse %s: %w`
  cannot_read : Bytes → Bytes → ConfigError
  cannot_parse : Bytes → Bytes → ConfigError
  -- No counterpart in the program; see `resolve_inheritance_total`.
  out_of_fuel : ConfigError

pub data Outcome {ℓ} (A : Type ℓ) : Type ℓ where
  ok : A → Outcome A
  err : ConfigError → Outcome A

infixl 5 ◌>>=◌
abbrev pub ◌>>=◌ {ℓ κ} : {A : Type ℓ} {B : Type κ} → Outcome A → (A → Outcome B) → Outcome B
ok a >>= f = f a
err e >>= f = err e

abbrev pub mem : Bytes → List Bytes → Bool
mem x xs = any (λ y. eq y x) xs

-- `c.Agents` and `resolved`, as the recursion changes them.
pub record State : Type 0 where
  pub agents : Agents
  pub resolved : List Bytes

-- What is stored for an agent whose base is resolved.
unfoldable pub store : Bytes → AgentConfig → State → Option AgentConfig → Outcome State
unfolding inherit
store name ac s none = err (unknown_base name ac.base)
store name ac s (some base) =
    ok (record { agents = insert name (inherit ac base) s.agents; resolved = name ∷ s.resolved })

-- An agent that is there, with the recursion on its base.
unfoldable pub with_base :
    Bytes → State → (Bytes → Outcome State) → Option AgentConfig → Outcome State
unfolding store
with_base name s further none = err (unknown_agent name)
with_base name s further (some ac) =
    if is_empty ac.base
    then ok (record s { resolved = name ∷ s.resolved })
    else further ac.base >>= λ t. store name ac t (lookup ac.base t.agents)

-- `resolve`: the names visited on the way down are all different, so that one more than the number
-- of agents is fuel enough.
unfoldable pub resolve : ℕ → Bytes → List Bytes → State → Outcome State
unfolding with_base
resolve zero name visited s = err out_of_fuel
resolve (suc fuel) name visited s =
    if mem name s.resolved
    then ok s
    else if mem name visited
    then err (circular name)
    else with_base name s (λ base. resolve fuel base (name ∷ visited) s) (lookup name s.agents)

-- The loop over `c.Agents`, in the order in which the map gives its keys.
unfoldable pub resolve_each : ℕ → List Bytes → State → Outcome State
unfolding resolve
resolve_each fuel [] s = ok s
resolve_each fuel (name ∷ names) s = resolve fuel name [] s >>= resolve_each fuel names

-- `resolveInheritance`; the order of the keys is not determined, and handed in.
unfoldable pub resolve_inheritance : List Bytes → Agents → Outcome Agents
unfolding resolve_each
resolve_inheritance order agents =
    resolve_each (length agents + 1) order (record { agents = agents; resolved = [] }) >>= λ s.
    ok s.agents
