-- ===== src/Secret/Resolve.antt =====
-- internal/secret/resolve.go: the chain of stores in which a secret is looked up.
pub mod Priority
use ateam.Prelude.{
  Bool, true, false, not, Option, none, some, List, [], ◌∷◌, ◌++◌, if◌then◌else◌, Bytes, codes, eq,
  is_empty,
}
use ateam.Prelude.FilePath.{join_path}
use ateam.Secret.Store.{File, Io, ok, err, get, keychain_account}

-- `Backend` is a string: `BackendFile`, `BackendKeychain` or any other.
pub data Backend : Type 0 where
  file keychain other : Backend

pub record Scope : Type 0 where
  pub name : Bytes
  pub env_file : Bytes
  pub keychain_key : Bytes

pub record Resolver : Type 0 where
  pub scopes : List Scope
  pub backend : Backend

pub record ResolveResult : Type 0 where
  pub value : Bytes
  pub source : Bytes
  pub backend : Bytes
  pub found : Bool

-- What the process reads: the files, the system's keyring, the environment, the home directory.
-- The keyring is the third-party package go-keyring, whose `Get` gives a value or an error.
pub record World : Type 0 where
  pub disk : Bytes → File
  pub keyring_available : Bool
  pub keychain_get : Bytes → Option Bytes
  pub lookup_env : Bytes → Option Bytes
  pub user_home_dir : Option Bytes

abbrev pub scope_global : Bytes
scope_global = codes "global"

abbrev pub scope_org : Bytes
scope_org = codes "org"

abbrev pub scope_project : Bytes
scope_project = codes "project"

unfoldable pub default_backend : World → Backend
default_backend w = if w.keyring_available then keychain else file

unfoldable pub global_dir : World → Bytes
global_dir w = elim w.user_home_dir [
  | none ↦ []
  | some home ↦ join_path (home ∷ codes ".config" ∷ codes "ateam" ∷ [])
]

-- The last argument is `opts.ProjectKeychainKey`, empty for nil options.
unfoldable pub new_resolver : World → Bytes → Bytes → Backend → Bytes → Resolver
unfolding global_dir
new_resolver w project_dir org_dir backend key = record {
  scopes =
      at project_dir scope_project key
      ++ (at org_dir scope_org [] ++ at (global_dir w) scope_global []);
  backend = backend;
}
  where
    at : Bytes → Bytes → Bytes → List Scope
    at dir scope key =
        if not (is_empty dir)
        then record {
          name = scope;
          env_file = join_path (dir ∷ codes "secrets.env" ∷ []);
          keychain_key = key;
        }
          ∷ []
        else []

unfoldable pub lookup_keychain : World → Scope → Bytes → Option Bytes
lookup_keychain w scope name =
    if not w.keyring_available
    then none
    else elim (w.keychain_get (keychain_account scope.name scope.keychain_key name)) [
      | none ↦ none
      | some val ↦ if is_empty val then none else some val
    ]

unfoldable pub lookup_file : World → Scope → Bytes → Option Bytes
lookup_file w scope name = elim (get (w.disk scope.env_file) name) [ ok r ↦ r | err e ↦ none ]

abbrev pub found_in : Bytes → Bytes → Bytes → ResolveResult
found_in source backend val = record {
  value = val;
  source = source;
  backend = backend;
  found = true;
}

abbrev pub not_found : ResolveResult
not_found = record { value = []; source = []; backend = []; found = false }

-- The preferred backend first; `BackendFile` falls back to the keychain, no other does.
abbrev pub choose : Backend → Option Bytes → Option Bytes → Option (Bytes × Bytes)
choose keychain (some val) _ = some (val, codes "keychain")
choose keychain none (some val) = some (val, codes "file")
choose keychain none none = none
choose file _ (some val) = some (val, codes "file")
choose file (some val) none = some (val, codes "keychain")
choose file none none = none
choose other _ (some val) = some (val, codes "file")
choose other _ none = none

unfoldable pub resolve_scope : World → Backend → Scope → Bytes → Option (Bytes × Bytes)
resolve_scope w backend scope name =
    choose backend (lookup_keychain w scope name) (lookup_file w scope name)

unfoldable pub resolve_env : World → Bytes → ResolveResult
resolve_env w name = elim (w.lookup_env name) [
  | none ↦ not_found
  | some val ↦ found_in (codes "env") (codes "env") val
]

unfoldable pub resolve_scopes : World → Backend → List Scope → Bytes → ResolveResult
unfolding resolve_env
resolve_scopes w backend [] name = resolve_env w name
resolve_scopes w backend (scope ∷ scopes) name = elim (resolve_scope w backend scope name) [
  | some (val, src) ↦ found_in scope.name src val
  | none ↦ resolve_scopes w backend scopes name
]

unfoldable pub resolve : World → Resolver → Bytes → ResolveResult
unfolding resolve_scopes
resolve w r name = resolve_scopes w r.backend r.scopes name

abbrev pub listed : Bytes → Bytes → Option Bytes → List ResolveResult
listed source backend none = []
listed source backend (some val) = found_in source backend val ∷ []

unfoldable pub resolve_all_scopes : World → List Scope → Bytes → List ResolveResult
resolve_all_scopes w [] name = listed (codes "env") (codes "env") (w.lookup_env name)
resolve_all_scopes w (scope ∷ scopes) name =
    listed scope.name (codes "keychain") (lookup_keychain w scope name)
    ++ (listed scope.name (codes "file") (lookup_file w scope name)
        ++ resolve_all_scopes w scopes name)

unfoldable pub resolve_all : World → Resolver → Bytes → List ResolveResult
unfolding resolve_all_scopes
resolve_all w r name = resolve_all_scopes w r.scopes name

-- The loop of `ScopeForName`, then its two defaults.
last_scope : Scope → List Scope → Scope
last_scope s [] = s
last_scope s (t ∷ scopes) = last_scope t scopes

find_scope : Bytes → List Scope → Option Scope
find_scope name [] = none
find_scope name (s ∷ scopes) = if eq s.name name then some s else find_scope name scopes

default_scope : World → List Scope → Scope
default_scope w [] = record {
  name = scope_global;
  env_file = join_path (global_dir w ∷ codes "secrets.env" ∷ []);
  keychain_key = [];
}
default_scope w (s ∷ scopes) = last_scope s scopes

unfoldable pub scope_for_name : World → Resolver → Bytes → Scope
unfolding last_scope find_scope default_scope global_dir
scope_for_name w r name = elim (find_scope name r.scopes) [
  | some s ↦ s
  | none ↦ default_scope w r.scopes
]
