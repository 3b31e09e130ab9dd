-- ===== src/Runtime/Config/Levels.antt =====
-- What `Load` makes of the levels of runtime.hcl.
use ateam.Prelude.{Option, none, some, List, [], ◌∷◌, Bytes, codes, eq, map, if◌then◌else◌}
use ateam.Prelude.FilePath.{join_path}
use ateam.Runtime.Config.Blocks.{agent_config}
use ateam.Runtime.Config.{AgentConfig, Config, or_some}
use ateam.Runtime.Config.Settled.{Settled}
use ateam.Runtime.Config.Load.{OnDisk, file, Decoded, decoded, malformed, Sources}

-- The last block of a name.
abbrev last_named : Bytes → List AgentConfig → Option AgentConfig
last_named n [] = none
last_named n (a ∷ later) = or_some (last_named n later) (if eq a.name n then some a else none)

abbrev block_decoded : Bytes → Decoded → Option AgentConfig
block_decoded n (malformed why) = none
block_decoded n (decoded hf) = last_named n (map agent_config hf.agents)

abbrev block_read : Sources → Bytes → OnDisk → Option AgentConfig
block_read src n (file text) = block_decoded n (src.decode text)
block_read src n _ = none

-- The block of the last level that has the agent; of two blocks in a file, the last one.
abbrev most_specific : Sources → Bytes → List Bytes → Option AgentConfig
most_specific src n [] = none
most_specific src n (path ∷ paths) =
    or_some (most_specific src n paths) (block_read src n (src.disk path))

-- The block that a level of this directory and file has of an agent; no directory has none.
abbrev level_block : Sources → Bytes → Bytes → List Bytes → Option AgentConfig
level_block src n [] parts = none
level_block src n (c ∷ dir) parts = block_read src n (src.disk (join_path ((c ∷ dir) ∷ parts)))

abbrev first_of : List (Option AgentConfig) → Option AgentConfig
first_of [] = none
first_of (none ∷ later) = first_of later
first_of (some a ∷ later) = some a

-- The block of an agent that counts: of the project's file, or else of the organisation's, or else
-- of the organisation's defaults, or else of the embedded defaults.
abbrev pub configured : Sources → Bytes → Bytes → Bytes → Option AgentConfig
configured src project_dir org_dir n = first_of (
    level_block src n project_dir (codes "runtime.hcl" ∷ [])
    ∷ level_block src n org_dir (codes "runtime.hcl" ∷ [])
    ∷ level_block src n org_dir (codes "defaults" ∷ codes "runtime.hcl" ∷ [])
    ∷ block_decoded n (src.decode src.embedded_config)
    ∷ [])
