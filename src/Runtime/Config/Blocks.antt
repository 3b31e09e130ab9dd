-- ===== src/Runtime/Config/Blocks.antt =====
-- The blocks of a runtime.hcl and what `mergeHCL` of internal/runtime/config.go makes of them.
use ateam.Prelude.{Bool, Option, none, some, List, [], ◌∷◌, Bytes}
use ateam.Prelude.Int.{ℤ}
use ateam.Prelude.Dict.{Dict, insert}
use ateam.Runtime.Config.{
  Float64, ModelPricing, AgentPricing, AgentConfig, ContainerConfig, ProfileConfig,
}

-- The blocks that the third-party package gohcl decodes a file to.
pub record HclModel : Type 0 where
  pub name : Bytes
  pub input_per_mtok : Float64
  pub cached_input_per_mtok : Float64
  pub output_per_mtok : Float64

pub record HclPricing : Type 0 where
  pub default_model : Bytes
  pub models : List HclModel

pub record HclAgent : Type 0 where
  pub name : Bytes
  pub base : Bytes
  pub command : Bytes
  pub args : Option (List Bytes)
  pub model : Bytes
  pub effort : Bytes
  pub max_budget_usd : Bytes
  pub type : Bytes
  pub start_timeout : Bytes
  pub busy_timeout : Bytes
  pub quiescence_window : Bytes
  pub tmux_width : ℤ
  pub tmux_height : ℤ
  pub env : Option (Dict Bytes)
  pub sandbox : Bytes
  pub rw_paths : Option (List Bytes)
  pub ro_paths : Option (List Bytes)
  pub denied_paths : Option (List Bytes)
  pub config_dir : Bytes
  pub required_env : Option (List Bytes)
  pub args_inside_container : Option (List Bytes)
  pub args_outside_container : Option (List Bytes)
  pub sandbox_inside_container : Bool
  pub pricing : List HclPricing

-- The fields of `hclContainer` and `hclProfile` are those of the configurations that they are
-- converted to.
pub record HclFile : Type 0 where
  pub sandbox_detection : Option Bool
  pub docker_detection : Option Bool
  pub agents : List HclAgent
  pub containers : List ContainerConfig
  pub profiles : List ProfileConfig

-- The loop over the models of a pricing block, on the map built so far.
unfoldable pub model_prices : List HclModel → Dict ModelPricing → Dict ModelPricing
model_prices [] models = models
model_prices (m ∷ later) models = model_prices later (
    insert m.name
      (record {
        input_per_mtok = m.input_per_mtok;
        cached_input_per_mtok = m.cached_input_per_mtok;
        output_per_mtok = m.output_per_mtok;
      })
      models)

-- Of the pricing blocks of an agent, the first.
unfoldable pub agent_pricing : List HclPricing → Option AgentPricing
unfolding model_prices
agent_pricing [] = none
agent_pricing (hp ∷ later) =
    some (record { default_model = hp.default_model; models = model_prices hp.models [] })

-- What `mergeHCL` makes of the block of an agent.
unfoldable pub agent_config : HclAgent → AgentConfig
unfolding agent_pricing
agent_config a = record {
  name = a.name;
  base = a.base;
  command = a.command;
  args = a.args;
  model = a.model;
  effort = a.effort;
  max_budget_usd = a.max_budget_usd;
  type = a.type;
  start_timeout = a.start_timeout;
  busy_timeout = a.busy_timeout;
  quiescence_window = a.quiescence_window;
  tmux_width = a.tmux_width;
  tmux_height = a.tmux_height;
  env = a.env;
  sandbox = a.sandbox;
  rw_paths = a.rw_paths;
  ro_paths = a.ro_paths;
  denied_paths = a.denied_paths;
  config_dir = a.config_dir;
  required_env = a.required_env;
  args_inside_container = a.args_inside_container;
  args_outside_container = a.args_outside_container;
  sandbox_inside_container = a.sandbox_inside_container;
  pricing = agent_pricing a.pricing;
}
