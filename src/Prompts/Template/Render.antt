-- ===== src/Prompts/Template/Render.antt =====
-- `Engine.Render` of internal/prompts/assembler/template.go, with the directives it resolves.
pub mod Depth
pub mod Deeper
use ateam.Prelude.{
  trim_left, ℕ, zero, suc, Bool, true, false, not, ◌&&◌, Option, none, some, List, [], ◌∷◌, ◌++◌,
  Bytes, codes, eq, is_empty, length, cut, trim_space, join, has_prefix, drop, leb, if◌then◌else◌,
}
use ateam.Prelude.Dict.{Dict, lookup}
use ateam.Prompts.Result.{
  PromptError, depth_exceeded, no_assembler, bad_quote, empty_path, extra_args, not_found,
  var_failed, dispatch_failed, rendering, while_doing, Result, ok, err, ◌>>=◌, wrap,
}
use ateam.Prompts.Assembler.{Anchor, Match, first_match, all_matches}
use ateam.Prompts.Template.Scan.{Cut, cut_open, cut_close, split_head, split_fallback, is_blank}
use ateam.Prompts.Template.Tokens.{Tokens, tokens, unterminated, tokenize}

-- What `Vars.Resolve` answers: a value, an error in a known namespace, or an unknown namespace.
pub data Lookup : Type 0 where
  value : Bytes → Lookup
  missing : Bytes → Lookup
  unknown : Lookup

abbrev pub Vars : Type 0
Vars = Bytes → Bytes → Lookup

-- `Dispatcher`: an error is its message.
pub data Dispatched : Type 0 where
  output : Bytes → Dispatched
  refused : Bytes → Dispatched

pub record Engine : Type 0 where
  pub asm : Option (List Anchor)
  pub max_depth : ℕ
  pub dispatcher : Option (Bytes → List Bytes → Dispatched)

-- `NewEngine`, for a depth that is not negative.
unfoldable pub new_engine : Option (List Anchor) → ℕ → Engine
new_engine asm max_depth = record {
  asm = asm;
  max_depth = (if leb max_depth 0 then 16 else max_depth);
  dispatcher = none;
}

abbrev pub Renderer : Type 0
Renderer = Bytes → Result Bytes

-- The directive as it was written.
abbrev pub verbatim : Bytes → Bytes
verbatim directive = codes "{{" ++ (directive ++ codes "}}")

-- A round of the loop of `render`: the text up to `{{`, what the directive is replaced by, and what
-- `further` makes of the text behind it. Without `{{`, or without `}}`, all of the text stays.
abbrev pub closed : Renderer → Renderer → Bytes → Bytes → Cut → Result Bytes
closed resolve further content before none = ok content
closed resolve further content before (some (directive, later)) =
    resolve (trim_space directive) >>= λ replacement.
    further later >>= λ rest. ok (before ++ (replacement ++ rest))

abbrev pub opened : Renderer → Renderer → Bytes → Cut → Result Bytes
opened resolve further content none = ok content
opened resolve further content (some (before, inside)) =
    closed resolve further content before (cut_close 1 inside)

-- Every round takes two bytes at least, so the length of the text is fuel enough.
unfoldable pub expand : Renderer → ℕ → Renderer
expand resolve zero content = ok content
expand resolve (suc fuel) content = opened resolve (expand resolve fuel) content (cut_open content)

-- The arguments of a directive, tokenized.
abbrev pub arguments : Bytes → Tokens → Result (List Bytes)
arguments arg (tokens ts) = ok ts
arguments arg (unterminated q) = err (bad_quote arg q)

abbrev pub one_path : Bytes → List Bytes → Result Bytes
one_path arg [] = err empty_path
one_path arg (p ∷ []) = ok p
one_path arg ts = err (extra_args arg (length ts))

-- The end of `include`, for what `FirstMatch` found; `deeper` renders one level down.
abbrev pub included : Renderer → Option Bytes → Bool → Bytes → Option Match → Result Bytes
included deeper fallback optional path (some m) = deeper m.content
included deeper (some tail) optional path none = deeper tail
included deeper none optional path none = if optional then ok [] else err (not_found path)

abbrev pub include_at : Renderer → Bytes → Bool → Option (List Anchor) → Result Bytes
include_at deeper arg optional none = err (no_assembler arg)
include_at deeper arg optional (some anchors) =
    let (path_arg, fallback) = split_fallback arg in
    deeper path_arg >>= λ expanded. arguments arg (tokenize expanded) >>= λ args.
    one_path arg args >>= λ path.
    wrap (while_doing path) (first_match anchors path) >>= included deeper fallback optional path

unfoldable pub include : Engine → Renderer → Bytes → Bool → Result Bytes
include e deeper arg optional = include_at deeper arg optional e.asm

-- The parts that `includeGlob` joins.
unfoldable pub render_matches : Renderer → Bytes → List Match → Result (List Bytes)
render_matches deeper pattern [] = ok []
render_matches deeper pattern (m ∷ ms) =
    wrap (rendering pattern m.path m.anchor) (deeper m.content) >>= λ part.
    render_matches deeper pattern ms >>= λ parts. ok (part ∷ parts)

abbrev pub include_glob_at : Renderer → Bytes → Option (List Anchor) → Result Bytes
include_glob_at deeper arg none = err (no_assembler arg)
include_glob_at deeper arg (some anchors) = deeper arg >>= λ pattern.
    wrap (while_doing pattern) (all_matches anchors (pattern ∷ [])) >>= λ ms.
    render_matches deeper pattern ms >>= λ parts. ok (join (codes "\n\n") parts)

unfoldable pub include_glob : Engine → Renderer → Bytes → Result Bytes
include_glob e deeper arg = include_glob_at deeper arg e.asm

abbrev pub dispatched : Dispatched → Result Bytes
dispatched (output t) = ok t
dispatched (refused why) = err (dispatch_failed why)

abbrev pub dynamic_at :
    Renderer → Bytes → Bytes → Option (Bytes → List Bytes → Dispatched) → Result Bytes
dynamic_at deeper name rest none = ok (
    if is_empty rest
    then verbatim (codes "dynamic." ++ name)
    else verbatim (codes "dynamic." ++ (name ++ (codes " " ++ rest))))
dynamic_at deeper name rest (some dispatch) = deeper rest >>= λ expanded.
    arguments name (tokenize expanded) >>= λ args. dispatched (dispatch name args)

unfoldable pub dynamic : Engine → Renderer → Bytes → Bytes → Result Bytes
dynamic e deeper name rest = dynamic_at deeper name rest e.dispatcher

-- `{{ns.key}}`, with the default if there is one.
abbrev pub substituted : Renderer → Bytes → Option Bytes → Lookup → Result Bytes
substituted deeper directive fallback (missing why) = err (var_failed why)
substituted deeper directive fallback unknown = ok (verbatim directive)
substituted deeper directive none (value v) = ok v
substituted deeper directive (some tail) (value v) = if is_empty v then deeper tail else ok v

-- What follows `ns.key`: nothing, a default, or a shape that passes through.
pub data Rest : Type 0 where
  nothing other_shape : Rest
  default_text : Bytes → Rest

abbrev pub rest_shape : Bytes → Rest
rest_shape [] = nothing
rest_shape (c ∷ s) =
    if eq (c ∷ []) (codes "?") then default_text (trim_left is_blank s) else other_shape

abbrev pub variable : Vars → Renderer → Bytes → Bytes → Bytes → Rest → Result Bytes
variable vars deeper directive ns key other_shape = ok (verbatim directive)
variable vars deeper directive ns key nothing = substituted deeper directive none (vars ns key)
variable vars deeper directive ns key (default_text tail) =
    substituted deeper directive (some tail) (vars ns key)

-- The dotted forms; a head without a dot, or with one at either end, passes through.
abbrev pub dotted : Engine → Vars → Renderer → Bytes → Bytes → Option (Bytes × Bytes) → Result Bytes
dotted e vars deeper directive rest none = ok (verbatim directive)
dotted e vars deeper directive rest (some (ns, key)) =
    if is_empty ns
    then ok (verbatim directive)
    else if is_empty key
    then ok (verbatim directive)
    else if eq ns (codes "dynamic")
    then dynamic e deeper key rest
    else variable vars deeper directive ns key (rest_shape rest)

-- `resolve`, with the renderer of the next depth.
unfoldable pub resolve : Engine → Vars → Renderer → Bytes → Result Bytes
unfolding include include_glob dynamic
resolve e vars deeper directive =
    let (head, rest) = split_head directive in
    if eq head (codes "include")
    then include e deeper rest false
    else if eq head (codes "include?")
    then include e deeper rest true
    else if eq head (codes "include_glob")
    then include_glob e deeper rest
    else dotted e vars deeper directive rest (cut b'.' head)

-- `render`, by the number of depths that are left: `maxDepth + 1 - depth`.
unfoldable pub render_at : ℕ → Engine → Vars → Renderer
render_at zero e vars content = err (depth_exceeded e.max_depth)
render_at (suc left) e vars content =
    expand (resolve e vars (render_at left e vars)) (length content) content

-- `Render`
unfoldable pub render : Engine → Vars → Renderer
unfolding render_at
render e vars content = render_at (suc e.max_depth) e vars content

-- `MapVars`
pub record MapVars : Type 0 where
  pub prompt : Dict Bytes
  pub exec : Dict Bytes
  pub project : Dict Bytes
  pub git : Dict Bytes
  pub container : Dict Bytes
  pub ateam : Dict Bytes
  pub role : Dict Bytes
  pub args : Dict Bytes
  pub roles : Dict Bytes
  pub env_lookup : Option (Bytes → Option Bytes)

-- The namespaces that `Enumerate` and `Resolve` know, but for `env`.
unfoldable pub namespaces : MapVars → Dict (Dict Bytes)
namespaces v =
    (codes "prompt", v.prompt)
    ∷ ((codes "exec", v.exec)
        ∷ ((codes "project", v.project)
            ∷ ((codes "git", v.git)
                ∷ ((codes "container", v.container)
                    ∷ ((codes "ateam", v.ateam)
                        ∷ ((codes "role", v.role)
                            ∷ ((codes "args", v.args) ∷ ((codes "roles", v.roles) ∷ []))))))))

abbrev pub env_value : Option (Bytes → Option Bytes) → Bytes → Lookup
env_value none key =
    missing (codes "{{env." ++ (key ++ codes "}}: no environment lookup configured"))
env_value (some f) key = elim (f key) [
  | none ↦ missing (codes "{{env." ++ (key ++ codes "}}: environment variable not set"))
  | some v ↦ value v
]

abbrev pub map_value : Bytes → Bytes → Option (Dict Bytes) → Lookup
map_value ns key none = unknown
map_value ns key (some m) = elim (lookup key m) [
  | some v ↦ value v
  | none ↦ missing (
      codes "{{"
      ++ (ns
          ++ (codes "." ++ (key ++ (codes "}}: unknown key in " ++ (ns ++ codes " namespace"))))))
]

unfoldable pub map_vars : MapVars → Vars
unfolding namespaces
map_vars v ns key =
    if eq ns (codes "env")
    then env_value v.env_lookup key
    else map_value ns key (lookup ns (namespaces v))

-- `Enumerate`
unfoldable pub populated : Dict (Dict Bytes) → Dict (Dict Bytes)
populated [] = []
populated (n ∷ ns) = let rest = populated ns in if is_empty n.1 then rest else n ∷ rest

unfoldable pub enumerate : MapVars → Dict (Dict Bytes)
unfolding populated namespaces
enumerate v = populated (namespaces v)
