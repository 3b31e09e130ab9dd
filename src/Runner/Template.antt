-- ===== src/Runner/Template.antt =====
-- internal/runner/template.go: the variables of a run, and their substitution in a text.
pub mod Shortcut
use ateam.Prelude.{
  ℕ, zero, suc, ◌-◌, Bool, true, false, not, ◌&&◌, Option, none, some, List, [], ◌∷◌, ◌++◌, Bytes,
  codes, eq, is_empty, length, has_prefix, contains, decimal, map, if◌then◌else◌,
}
use ateam.Prelude.Dict.{Dict}
use ateam.Prelude.FilePath.{join_path, dir_path, base_name}
use ateam.Prelude.Int.{ℤ, pos, negsuc}
use ateam.Runner.Types.{RunOpts, primary_output_name}

pub record TemplateVars : Type 0 where
  pub project_name : Bytes
  pub project_full_path : Bytes
  pub project_dir : Bytes
  pub role : Bytes
  pub action : Bytes
  pub batch : Bytes
  pub timestamp : Bytes
  pub profile : Bytes
  pub exec_id : ℤ
  pub agent : Bytes
  pub model : Bytes
  pub effort : Bytes
  pub max_budget_usd : Bytes
  pub max_budget_usd_batch : Bytes
  pub sub_run_args : Bytes
  pub container_type : Bytes
  pub container_name : Bytes
  pub output_dir : Bytes
  pub output_file : Bytes
  pub prompt_file : Bytes
  pub auto_roles_commands_output : Bytes

-- The documents that the program embeds, `defaults.SelfDocs`.
pub record Embedded : Type 0 where
  pub readme : Bytes
  pub commands : Bytes
  pub config : Bytes
  pub isolation : Bytes
  pub roles : Bytes

-- `promptdata.AutoRolesMarker`
abbrev pub auto_roles_marker : Bytes
auto_roles_marker = codes "RECOMMENDED_ROLES:"

-- `%d` of an ID, and nothing for one that is not above 0.
abbrev pub id_text : ℤ → Bytes
id_text (pos (suc n)) = decimal (suc n)
id_text _ = []

-- A variable under its dotted name and its alias.
abbrev pub both : Bytes → Bytes → Bytes → Dict Bytes → Dict Bytes
both dotted alias value rest = (dotted, value) ∷ ((alias, value) ∷ rest)

-- The pairs of `Replacer`, without the braces, in their order.
unfoldable pub named_values : Embedded → TemplateVars → Dict Bytes
unfolding decimal
named_values d v = both (codes "project.name") (codes "PROJECT_NAME") v.project_name (
    both (codes "project.full_path") (codes "PROJECT_FULL_PATH") v.project_full_path (
      both (codes "project.dir") (codes "PROJECT_DIR") v.project_dir (
        both (codes "prompt.name") (codes "ROLE") v.role
          (both (codes "prompt.action") (codes "ACTION") v.action (exec_values d v)))))
  where
    own_values : Dict Bytes
    own_values = both (codes "ateam.own_readme") (codes "ATEAM_OWN_README") d.readme (
        both (codes "ateam.own_commands") (codes "ATEAM_OWN_COMMANDS") d.commands (
          both (codes "ateam.own_config") (codes "ATEAM_OWN_CONFIG") d.config (
            both (codes "ateam.own_isolation") (codes "ATEAM_OWN_ISOLATION") d.isolation (
              both (codes "ateam.own_roles") (codes "ATEAM_OWN_ROLES") d.roles (
                both (codes "ateam.auto_roles_marker") (codes "AUTO_ROLES_MARKER") auto_roles_marker
                  [])))))

    container_values : Dict Bytes
    container_values =
        both (codes "container.type") (codes "CONTAINER_TYPE") v.container_type
          (both (codes "container.name") (codes "CONTAINER_NAME") v.container_name own_values)

    path_values : Dict Bytes
    path_values = both (codes "exec.output_dir") (codes "OUTPUT_DIR") v.output_dir (
        both (codes "exec.output_file") (codes "OUTPUT_FILE") v.output_file (
          both (codes "exec.prompt_file") (codes "PROMPT_FILE") v.prompt_file (
            both (codes "exec.auto_roles_commands_output")
              (codes "ATEAM_AUTO_ROLES_COMMANDS_OUTPUT") v.auto_roles_commands_output
              ((codes "EXECUTION_DIR", v.output_dir) ∷ container_values))))

    exec_values : Embedded → TemplateVars → Dict Bytes
    exec_values d v = both (codes "exec.batch") (codes "BATCH") v.batch (
        both (codes "exec.timestamp") (codes "TIMESTAMP") v.timestamp (
          both (codes "exec.profile") (codes "PROFILE") v.profile (
            both (codes "exec.id") (codes "EXEC_ID") (id_text v.exec_id) (
              both (codes "exec.agent") (codes "AGENT") v.agent (
                both (codes "exec.model") (codes "MODEL") v.model (
                  both (codes "exec.effort") (codes "EFFORT") v.effort (
                    both (codes "exec.max_budget_usd") (codes "MAX_BUDGET_USD") v.max_budget_usd (
                      both (codes "exec.max_budget_usd_batch") (codes "MAX_BUDGET_USD_BATCH")
                        v.max_budget_usd_batch
                        (both (codes "exec.subrun_args") (codes "SUBRUN_ARGS") v.sub_run_args
                          path_values)))))))))

abbrev pub braced : Bytes → Bytes
braced name = codes "{{" ++ (name ++ codes "}}")

-- `Replacer`
unfoldable pub replacer : Embedded → TemplateVars → Dict Bytes
unfolding named_values
replacer d v = map (λ e. (braced e.0, e.1)) (named_values d v)

-- The first pair whose old text begins here.
unfoldable pub matching : Dict Bytes → Bytes → Option (Bytes × Bytes)
unfolding has_prefix
matching [] s = none
matching (e ∷ es) s = if has_prefix s e.0 then some e else matching es s

-- `Replace` of Go's `strings.Replacer`, for old texts that are not empty: at each place, the pairs
-- are tried in their order. The number is what is left of a text that was replaced.
unfoldable pub replace_from : Dict Bytes → ℕ → Bytes → Bytes
unfolding matching
replace_from pairs skip [] = []
replace_from pairs (suc skip) (c ∷ s) = replace_from pairs skip s
replace_from pairs zero (c ∷ s) = elim (matching pairs (c ∷ s)) [
  | none ↦ c ∷ replace_from pairs zero s
  | some (old, value) ↦ value ++ replace_from pairs (length old - 1) s
]

abbrev pub replace : Dict Bytes → Bytes → Bytes
replace pairs s = replace_from pairs zero s

-- `ResolveTemplateArgs`, `ResolveTemplateMap`
unfoldable pub resolve_template_args : Embedded → TemplateVars → List Bytes → List Bytes
unfolding replacer replace_from
resolve_template_args d v args = map (replace (replacer d v)) args

unfoldable pub resolve_template_map :
    Embedded → TemplateVars → Option (Dict Bytes) → Option (Dict Bytes)
unfolding replacer replace_from
resolve_template_map d v none = none
resolve_template_map d v (some m) = some (map (λ e. (e.0, replace (replacer d v) e.1)) m)

-- `ResolveTemplateString`
unfoldable pub resolve_template_string : Embedded → TemplateVars → Bytes → Bytes
unfolding contains replacer replace_from
resolve_template_string d v s =
    if not (contains s (codes "{{")) then s else replace (replacer d v) s

-- `RuntimeDirFor`, `LogsDirFor`, for IDs above 0.
unfoldable pub runtime_dir_for : Bytes → ℕ → Bytes
unfolding join_path decimal
runtime_dir_for state_dir exec_id = join_path (state_dir ∷ codes "runtime" ∷ decimal exec_id ∷ [])

unfoldable pub logs_dir_for : Bytes → ℕ → Bytes
unfolding join_path decimal
logs_dir_for state_dir exec_id = join_path (state_dir ∷ codes "logs" ∷ decimal exec_id ∷ [])

-- The fields of `AgentExecutor` that the variables are made of.
pub record AgentExecutor : Type 0 where
  pub project_dir : Bytes
  pub org_dir : Bytes
  pub source_dir : Bytes
  pub project_name : Bytes
  pub profile : Bytes
  pub effort : Bytes
  pub max_budget_usd : Bytes
  pub max_budget_usd_batch : Bytes
  pub sub_run_args : Bytes
  pub container_type : Bytes
  pub container_name : Bytes

-- `StateDir`
unfoldable pub state_dir : AgentExecutor → Bytes
state_dir r = if is_empty r.project_dir then r.org_dir else r.project_dir

abbrev pub project_root : AgentExecutor → Bytes
project_root r = if is_empty r.project_dir then r.source_dir else dir_path r.project_dir

abbrev pub with_paths : Bytes → RunOpts → ℤ → TemplateVars → TemplateVars
with_paths dir opts (pos (suc n)) v = if is_empty dir then v else record v {
  output_dir = runtime_dir_for dir (suc n);
  output_file =
      (let primary = primary_output_name opts.output_kind opts.prompt_name in
        if is_empty primary then [] else join_path (runtime_dir_for dir (suc n) ∷ primary ∷ []));
  prompt_file = join_path (logs_dir_for dir (suc n) ∷ codes "prompt.md" ∷ []);
}
with_paths dir opts _ v = v

-- `BuildTemplateVars`, with the start time in its format.
unfoldable pub build_template_vars :
    AgentExecutor → RunOpts → Bytes → ℤ → Bytes → Bytes → TemplateVars
unfolding state_dir runtime_dir_for logs_dir_for dir_path base_name join_path primary_output_name
build_template_vars r opts started_at call_id agent_name model =
    with_paths (state_dir r) opts call_id (record {
      project_name = r.project_name;
      project_full_path = project_root r;
      project_dir = (if is_empty (project_root r) then [] else base_name (project_root r));
      role = opts.role_id;
      action = opts.action;
      batch = opts.batch;
      timestamp = started_at;
      profile = r.profile;
      exec_id = call_id;
      agent = agent_name;
      model = model;
      effort = r.effort;
      max_budget_usd = r.max_budget_usd;
      max_budget_usd_batch = r.max_budget_usd_batch;
      sub_run_args = r.sub_run_args;
      container_type = r.container_type;
      container_name = r.container_name;
      output_dir = [];
      output_file = [];
      prompt_file = [];
      auto_roles_commands_output = opts.auto_roles_commands_output;
    })
