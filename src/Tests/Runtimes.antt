-- ===== src/Tests/Runtimes.antt =====
-- internal/runtime on three agents, of which one inherits from one that inherits.
use ateam.Prelude.{
  ℕ, Bool, true, false, Option, none, some, List, [], ◌∷◌, ◌≡◌, ◌≢◌, refl, Bytes, codes, eq, map,
  if◌then◌else◌,
}
use ateam.Prelude.Int.{pos}
use ateam.Prelude.Dict.{lookup}
use ateam.Runtime.Config.Blocks.{HclFile, HclAgent}
use ateam.Runtime.Config.{
  AgentConfig, Agents, Config, inherit, mem, ok, err, out_of_fuel, resolve_inheritance,
}
use ateam.Runtime.Config.Chain.{Effective, root, child}
use ateam.Runtime.Config.Load.{missing, file, decoded, Sources}
use ateam.Runtime.Config.Settled.{Settled}
use ateam.Runtime.Config.Sound.{resolve_inheritance-Effective}
use ateam.Runtime.Config.Fuel.{resolve_inheritance_total}
use ateam.Runtime.Config.Succeeds.{resolve_inheritance_succeeds, AllEffective}

abbrev agent : Bytes → Bytes → Bytes → Bytes → AgentConfig
agent name base command model = record {
  name = name;
  base = base;
  command = command;
  args = none;
  model = model;
  effort = [];
  max_budget_usd = [];
  type = [];
  start_timeout = [];
  busy_timeout = [];
  quiescence_window = [];
  tmux_width = pos 0;
  tmux_height = pos 0;
  env = none;
  sandbox = [];
  rw_paths = none;
  ro_paths = none;
  denied_paths = none;
  config_dir = [];
  pricing = none;
  required_env = none;
  args_inside_container = none;
  args_outside_container = none;
  sandbox_inside_container = false;
}

abbrev claude : AgentConfig
claude = agent (codes "claude") [] (codes "claude") (codes "opus")

abbrev fast : AgentConfig
fast = agent (codes "fast") (codes "claude") [] (codes "haiku")

abbrev tmux : AgentConfig
tmux = agent (codes "tmux") (codes "fast") (codes "claude-tui") []

abbrev three : Agents
three = (codes "tmux", tmux) ∷ ((codes "fast", fast) ∷ ((codes "claude", claude) ∷ []))

abbrev order : List Bytes
order = codes "tmux" ∷ (codes "claude" ∷ (codes "fast" ∷ []))

abbrev resolved : Agents
resolved =
    (codes "tmux", agent (codes "tmux") (codes "fast") (codes "claude-tui") (codes "haiku"))
    ∷ ((codes "fast", agent (codes "fast") (codes "claude") (codes "claude") (codes "haiku"))
        ∷ ((codes "claude", claude) ∷ []))

three-resolved : resolve_inheritance order three ≡ ok resolved
unfolding resolve_inheritance lookup eq ateam.Prelude.Dict.insert
three-resolved = refl

ordered : mem (codes "tmux") order ≡ true
unfolding eq
ordered = refl

resolve_inheritance-Effective_example :
    (ac : AgentConfig) × (lookup (codes "tmux") resolved ≡ some ac)
    × Effective three (codes "tmux") ac
resolve_inheritance-Effective_example =
    resolve_inheritance-Effective three resolved order (codes "tmux") three-resolved ordered

resolve_inheritance_total_example : resolve_inheritance order three ≢ err out_of_fuel
resolve_inheritance_total_example = resolve_inheritance_total three order

claude-Effective : Effective three (codes "claude") claude
unfolding lookup eq
claude-Effective = root (codes "claude") claude refl refl

fast-Effective : Effective three (codes "fast") (inherit fast claude)
unfolding lookup eq
fast-Effective = child (codes "fast") fast claude refl refl claude-Effective

tmux-Effective : Effective three (codes "tmux") (inherit tmux (inherit fast claude))
unfolding lookup eq
tmux-Effective = child (codes "tmux") tmux (inherit fast claude) refl refl fast-Effective

all-Effective : AllEffective three order
all-Effective = (
  (inherit tmux (inherit fast claude), tmux-Effective),
  ((claude, claude-Effective), ((inherit fast claude, fast-Effective), tt)),
)

resolve_inheritance_succeeds_example : (out : Agents) × (resolve_inheritance order three ≡ ok out)
resolve_inheritance_succeeds_example = resolve_inheritance_succeeds three order all-Effective

abbrev written : AgentConfig → HclAgent
written a = record {
  name = a.name;
  base = a.base;
  command = a.command;
  args = a.args;
  model = a.model;
  effort = a.effort;
  max_budget_usd = a.max_budget_usd;
  type = a.type;
  start_timeout = a.start_timeout;
  busy_timeout = a.busy_timeout;
  quiescence_window = a.quiescence_window;
  tmux_width = a.tmux_width;
  tmux_height = a.tmux_height;
  env = a.env;
  sandbox = a.sandbox;
  rw_paths = a.rw_paths;
  ro_paths = a.ro_paths;
  denied_paths = a.denied_paths;
  config_dir = a.config_dir;
  required_env = a.required_env;
  args_inside_container = a.args_inside_container;
  args_outside_container = a.args_outside_container;
  sandbox_inside_container = a.sandbox_inside_container;
  pricing = [];
}

abbrev blocks : List AgentConfig → HclFile
blocks agents = record {
  sandbox_detection = none;
  docker_detection = none;
  agents = map written agents;
  containers = [];
  profiles = [];
}

abbrev sources : Sources
sources = record {
  disk = λ path. if eq path (codes "app/runtime.hcl") then file (codes "own") else missing;
  decode =
      λ text. decoded (blocks (if eq text (codes "own") then fast ∷ (tmux ∷ []) else claude ∷ []));
  embedded_config = codes "defaults";
  embedded_dockerfile = [];
}

abbrev names_of : Agents → List Bytes
names_of agents = map (λ e. e.0) agents

abbrev loaded : Config
loaded = record {
  agents =
      (codes "claude", claude)
      ∷ ((codes "fast", agent (codes "fast") (codes "claude") (codes "claude") (codes "haiku"))
          ∷ ((
            codes "tmux",
            agent (codes "tmux") (codes "fast") (codes "claude-tui") (codes "haiku"),
          )
              ∷ []));
  containers = [];
  profiles = [];
  sandbox_detection = none;
  docker_detection = none;
}
