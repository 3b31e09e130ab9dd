-- ===== src/Runtime/Config/Load.antt =====
-- `Load` of internal/runtime/config.go: the levels of runtime.hcl, the lookup of profiles, and the
-- files beside it.
use ateam.Prelude.{
  Bool, not, ◌&&◌, Option, none, some, List, [], ◌∷◌, ◌++◌, map, Bytes, codes, eq, is_empty, any,
  ◌==◌, has_prefix, trim_space, if◌then◌else◌,
}
use ateam.Prelude.Dict.{Dict, lookup, insert}
use ateam.Prelude.FilePath.{join_path}
use ateam.Runtime.Config.Blocks.{HclFile, agent_config}
use ateam.Runtime.Config.{
  AgentConfig, Agents, ContainerConfig, ProfileConfig, Config, unknown_profile, profile_agent,
  profile_container, cannot_read, cannot_parse, Outcome, ok, err, ◌>>=◌, or_some,
  resolve_inheritance,
}

-- `os.ReadFile`
pub data OnDisk : Type 0 where
  missing : OnDisk
  unreadable : Bytes → OnDisk
  file : Bytes → OnDisk

-- The third-party parser, from a text to blocks or an error.
pub data Decoded : Type 0 where
  decoded : HclFile → Decoded
  malformed : Bytes → Decoded

pub record Sources : Type 0 where
  pub disk : Bytes → OnDisk
  pub decode : Bytes → Decoded
  pub embedded_config : Bytes
  pub embedded_dockerfile : Bytes

-- The loops of `mergeHCL`: a block replaces the one of its name.
unfoldable pub merge_named {ℓ} : {A : Type ℓ} → (A → Bytes) → List A → Dict A → Dict A
merge_named name [] m = m
merge_named name (a ∷ later) m = merge_named name later (insert (name a) a m)

unfoldable pub merge_hcl : Config → HclFile → Config
unfolding merge_named agent_config
merge_hcl cfg hf = record {
  agents = merge_named (λ a. a.name) (map agent_config hf.agents) cfg.agents;
  containers = merge_named (λ c. c.name) hf.containers cfg.containers;
  profiles = merge_named (λ p. p.name) hf.profiles cfg.profiles;
  sandbox_detection = or_some hf.sandbox_detection cfg.sandbox_detection;
  docker_detection = or_some hf.docker_detection cfg.docker_detection;
}

abbrev pub merge_decoded : Config → Bytes → Decoded → Outcome Config
merge_decoded cfg path (malformed why) = err (cannot_parse path why)
merge_decoded cfg path (decoded hf) = ok (merge_hcl cfg hf)

abbrev pub merge_read : Sources → Config → Bytes → OnDisk → Outcome Config
merge_read src cfg path missing = ok cfg
merge_read src cfg path (unreadable why) = err (cannot_read path why)
merge_read src cfg path (file text) = merge_decoded cfg path (src.decode text)

-- `mergeHCLFile`, its warning left out.
unfoldable pub merge_hcl_file : Sources → Config → Bytes → Outcome Config
merge_hcl_file src cfg path = merge_read src cfg path (src.disk path)

unfoldable pub merge_levels : Sources → Config → List Bytes → Outcome Config
unfolding merge_hcl_file
merge_levels src cfg [] = ok cfg
merge_levels src cfg (path ∷ paths) = merge_hcl_file src cfg path >>= λ c. merge_levels src c paths

-- The files behind the embedded defaults, in their order.
unfoldable pub levels : Bytes → Bytes → List Bytes
levels project_dir org_dir =
    (if not (is_empty org_dir)
      then join_path (org_dir ∷ codes "defaults" ∷ codes "runtime.hcl" ∷ [])
        ∷ (join_path (org_dir ∷ codes "runtime.hcl" ∷ []) ∷ [])
      else [])
    ++ (if not (is_empty project_dir)
        then join_path (project_dir ∷ codes "runtime.hcl" ∷ []) ∷ []
        else [])

abbrev pub no_config : Config
no_config = record {
  agents = [];
  containers = [];
  profiles = [];
  sandbox_detection = none;
  docker_detection = none;
}

-- `Load`, with the order in which the map of agents is gone through; what it tells package
-- container is in the result's detection fields.
unfoldable pub load : Sources → (Agents → List Bytes) → Bytes → Bytes → Outcome Config
unfolding merge_levels levels
load src order project_dir org_dir =
    merge_decoded no_config (codes "defaults/runtime.hcl") (src.decode src.embedded_config)
    >>= λ cfg. merge_levels src cfg (levels project_dir org_dir) >>= λ merged.
        resolve_inheritance (order merged.agents) merged.agents >>= λ agents.
        ok (record merged { agents = agents })

-- `ResolveProfile`
unfoldable pub resolve_profile :
    Config → Bytes → Outcome (ProfileConfig × AgentConfig × ContainerConfig)
resolve_profile c name = elim (lookup name c.profiles) [
  | none ↦ err (unknown_profile name)
  | some prof ↦ elim (lookup prof.agent c.agents) [
    | none ↦ err (profile_agent name prof.agent)
    | some ac ↦ elim (lookup prof.container c.containers) [
      | none ↦ err (profile_container name prof.container)
      | some cc ↦ ok (prof, ac, cc)
    ]
  ]
]

-- The search path that `ResolveDockerfile` and `ResolvePrecheckCmd` share.
unfoldable pub search_path : Bytes → Bytes → Bytes → Bytes → List Bytes
search_path project_dir org_dir role_id name =
    (if not (is_empty project_dir)
      then (if not (is_empty role_id)
          then join_path (project_dir ∷ codes "roles" ∷ role_id ∷ name ∷ []) ∷ []
          else [])
        ++ join_path (project_dir ∷ name ∷ []) ∷ []
      else [])
    ++ (if not (is_empty org_dir)
        then join_path (org_dir ∷ name ∷ [])
          ∷ (join_path (org_dir ∷ codes "defaults" ∷ name ∷ []) ∷ [])
        else [])

-- `os.Stat` without an error.
unfoldable pub first_existing : (Bytes → Bool) → List Bytes → Option Bytes
first_existing stat [] = none
first_existing stat (p ∷ ps) = if stat p then some p else first_existing stat ps

-- `ResolveDockerfile`: the path of a file, or none for the embedded one, which the code writes to a
-- temporary directory.
unfoldable pub resolve_dockerfile :
    (Bytes → Bool) → ContainerConfig → Bytes → Bytes → Bytes → Option Bytes
unfolding search_path first_existing
resolve_dockerfile stat cc project_dir org_dir role_id =
    let name = if is_empty cc.dockerfile then codes "Dockerfile" else cc.dockerfile in
    first_existing stat (search_path project_dir org_dir role_id name)

abbrev pub precheck_name : Bytes
precheck_name = codes "docker-agent-precheck.sh"

abbrev pub is_path : Bytes → Bool
is_path s = any (λ c. c == b'/') s && not (has_prefix s (codes "/"))

abbrev pub discovered : Option Bytes → Option (List Bytes)
discovered none = none
discovered (some path) = some (codes "sh" ∷ (path ∷ (codes "{{CONTAINER_NAME}}" ∷ [])))

abbrev pub explicit : Bytes → Option (List Bytes) → Option (List Bytes) → Option (List Bytes)
explicit project_dir none fallback = fallback
explicit project_dir (some []) fallback = fallback
explicit project_dir (some (cmd ∷ args)) fallback = some (
    (if is_path cmd && not (is_empty project_dir) then join_path (project_dir ∷ cmd ∷ []) else cmd)
    ∷ args)

-- `ResolvePrecheckCmd`
unfoldable pub resolve_precheck_cmd :
    (Bytes → Bool) → ContainerConfig → Bytes → Bytes → Bytes → Option (List Bytes)
unfolding search_path first_existing has_prefix
resolve_precheck_cmd stat cc project_dir org_dir role_id =
    explicit project_dir cc.precheck
      (discovered (first_existing stat (search_path project_dir org_dir role_id precheck_name)))

-- `DiffOrgDefaults`: the name of a file below the organisation's directory, and whether it is missing
-- there or has changed.
pub data DiffStatus : Type 0 where
  absent changed : DiffStatus

abbrev pub diff_one : Bytes → Bytes → OnDisk → List (Bytes × DiffStatus)
diff_one rel embedded (file text) =
    if eq (trim_space text) (trim_space embedded) then [] else (rel, changed) ∷ []
diff_one rel embedded _ = (rel, absent) ∷ []

unfoldable pub diff_org_defaults : Sources → Bytes → List (Bytes × DiffStatus)
unfolding trim_space
diff_org_defaults src org_dir =
    at (codes "runtime.hcl") src.embedded_config ++ at (codes "Dockerfile") src.embedded_dockerfile
  where
    at : Bytes → Bytes → List (Bytes × DiffStatus)
    at name embedded =
        let rel = join_path (codes "defaults" ∷ name ∷ []) in
        diff_one rel embedded (src.disk (join_path (org_dir ∷ rel ∷ [])))
