-- ===== src/Tests/Arguments.antt =====
-- internal/runner/template.go on two texts, of which one has a variable.
use ateam.Prelude.{List, [], ◌≡◌, refl, Bytes, codes}
use ateam.Prelude.Int.{pos}
use ateam.Runner.Types.{RunOpts}
use ateam.Runner.Template.{
  TemplateVars, Embedded, AgentExecutor, build_template_vars, replace, replacer,
  resolve_template_string,
}
use ateam.Runner.Template.Shortcut.{resolve_template_string-replace}

abbrev docs : Embedded
docs = record { readme = []; commands = []; config = []; isolation = []; roles = [] }

abbrev executor : AgentExecutor
executor = record {
  project_dir = codes "/w/app/.ateam";
  org_dir = [];
  source_dir = [];
  project_name = codes "app";
  profile = [];
  effort = [];
  max_budget_usd = [];
  max_budget_usd_batch = [];
  sub_run_args = [];
  container_type = [];
  container_name = [];
}

abbrev opts : RunOpts
opts = record {
  role_id = codes "sec";
  action = [];
  work_dir = [];
  batch = [];
  output_kind = codes "report";
  prompt_name = [];
  auto_roles_commands_output = [];
  sub_run_args = [];
  debug_context = [];
}

abbrev vars : TemplateVars
vars = build_template_vars executor opts [] (pos 12) [] []

resolved_vars :
    resolve_template_string docs vars
      (codes "{{ROLE}} of {{project.dir}}: {{exec.output_file}}{{x}}")
    ≡ codes "sec of app: /w/app/.ateam/runtime/12/report.md{{x}}"
unfolding resolve_template_string build_template_vars replacer ateam.Runner.Template.replace_from
    ateam.Runner.Template.matching ateam.Runner.Template.named_values
    ateam.Runner.Template.state_dir ateam.Runner.Template.runtime_dir_for
    ateam.Prelude.FilePath.join_path ateam.Prelude.FilePath.dir_path
    ateam.Prelude.FilePath.base_name ateam.Prelude.FilePath.clean ateam.Prelude.eq
    ateam.Prelude.has_prefix ateam.Prelude.contains ateam.Prelude.decimal ateam.Prelude.split
    ateam.Prelude.join ateam.Runner.Types.primary_output_name ateam.Prelude.trim_right
resolved_vars = refl

resolve_template_string-replace_example :
    resolve_template_string docs vars (codes "{{EXEC_ID}} {")
    ≡ replace (replacer docs vars) (codes "{{EXEC_ID}} {")
resolve_template_string-replace_example =
    resolve_template_string-replace docs vars (codes "{{EXEC_ID}} {")
