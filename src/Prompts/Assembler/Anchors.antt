-- ===== src/Prompts/Assembler/Anchors.antt =====
-- internal/prompts/assembler/anchors.go: the standard chain of anchors.
use ateam.Prelude.{
  Option, some, List, [], ◌∷◌, ◌++◌, Bytes, codes, has_suffix, is_empty, if◌then◌else◌,
}
use ateam.Prompts.Assembler.{Anchor, Fs}

-- `PromptsSubdir`
abbrev pub prompts_subdir : Bytes
prompts_subdir = codes "prompts"

-- `joinPrompts`
unfoldable pub join_prompts : Bytes → Bytes
unfolding has_suffix
join_prompts root =
    if is_empty root
    then prompts_subdir
    else if has_suffix root (codes "/")
    then root ++ prompts_subdir
    else root ++ (codes "/" ++ prompts_subdir)

abbrev pub dir_anchor : (Bytes → Fs) → Bytes → Bytes → List Anchor
dir_anchor dir_fs name dir =
    if is_empty dir then [] else record { name = name; fs = dir_fs (join_prompts dir) } ∷ []

-- What `fs.Sub` makes of the embedded files, if there are any.
abbrev pub embedded_anchor : Option (Option Fs) → List Anchor
embedded_anchor (some (some fs)) = record { name = codes "embedded"; fs = fs } ∷ []
embedded_anchor _ = []

-- `BuildAnchors`; `os.DirFS` is handed in.
unfoldable pub build_anchors : (Bytes → Fs) → Bytes → Bytes → Option (Option Fs) → List Anchor
unfolding join_prompts
build_anchors dir_fs project_dir org_dir embedded =
    dir_anchor dir_fs (codes "project") project_dir
    ++ (dir_anchor dir_fs (codes "org") org_dir ++ embedded_anchor embedded)
