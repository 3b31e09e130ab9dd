-- ===== src/Tests/Secrets.antt =====
-- internal/secret on one file of two keys.
use ateam.Prelude.{
  ◌↔◌, Bool, true, false, not, Option, none, some, List, [], ◌∷◌, ◌≡◌, ◌≢◌, refl, inl, Bytes, codes,
  eq, is_empty, length, All, leb, ◌==◌, if◌then◌else◌, ◌||◌, Member, arith,
}
use ateam.Prelude.Dict.{lookup}
use ateam.Secret.Store.{File, missing, content, Io, ok, err, Writes, read_lines, get, set, delete}
use ateam.Secret.Store.Lines.{IsPlain}
use ateam.Secret.Store.Entries.{IsStorable, lines_of}
use ateam.Secret.Store.Files.{Holds, get-set, get-set_ne, get-delete}
use ateam.Secret.Resolve.{
  World, Resolver, Scope, Backend, file, keychain, other, ResolveResult, resolve, resolve_all,
  resolve_env,
}
use ateam.Secret.Resolve.Priority.{resolve-Member}
use ateam.Secret.Validate.{
  AgentConfig, alternatives, validate_secrets, IsolationResult, isolate_one, isolate_credentials,
  resolve_all_required, seen_before, all_alternatives,
}
use ateam.Secret.Validate.Isolation.{lookup-isolate_one, Isolated, any_store}
use ateam.Secret.Validate.Details.{resolve_all_required-Distinct, Distinct, names, Wanted}

abbrev key_a : Bytes
key_a = codes "A"

abbrev key_b : Bytes
key_b = codes "B"

abbrev stored : List Bytes
stored = codes "A=1" ∷ codes "B=2" ∷ []

abbrev disk_file : File
disk_file = content (codes "A=1\nB=2\n")

abbrev writes : Writes
writes = record { mkdir = none; write = none }

disk_file-Holds : Holds disk_file stored
unfolding read_lines ateam.Prelude.split
disk_file-Holds = inl refl

stored-plain : All IsPlain stored
unfolding read_lines
stored-plain = (
  record { one_line = refl; no_cr = refl; fits = refl },
  (record { one_line = refl; no_cr = refl; fits = refl }, tt),
)

a3-IsStorable : IsStorable key_a (codes "3")
unfolding read_lines ateam.Prelude.cut ateam.Prelude.has_prefix ateam.Prelude.trim_space
    ateam.Secret.Store.drop_cr
a3-IsStorable = record {
  name_ne = refl;
  no_equals = refl;
  no_comment = refl;
  whole_trimmed = refl;
  name_trimmed = refl;
  value_trimmed = refl;
  plain = record { one_line = refl; no_cr = refl; fits = refl };
}

get-set_example :
    ((set writes disk_file key_a (codes "3")).1 ≡ ok tt)
    × (get (set writes disk_file key_a (codes "3")).0 key_a
        ≡ (if leb (lines_of key_a stored) 1 then ok (some (codes "3")) else get disk_file key_a))
get-set_example =
    get-set writes disk_file key_a (codes "3") stored (refl, refl) disk_file-Holds stored-plain
      a3-IsStorable

b-other : key_b ≢ key_a
b-other = λ h. ground arith

get-set_ne_example : get (set writes disk_file key_a (codes "3")).0 key_b ≡ get disk_file key_b
get-set_ne_example =
    get-set_ne writes disk_file key_a (codes "3") key_b stored (refl, refl) disk_file-Holds
      stored-plain a3-IsStorable b-other refl

get-delete_example :
    ((delete writes disk_file key_a).1 ≡ (not (lines_of key_a stored == 0), none))
    × (get (delete writes disk_file key_a).0 key_b
        ≡ (if eq key_b key_a then ok none else get disk_file key_b))
get-delete_example =
    get-delete writes disk_file key_a key_b stored (refl, refl) disk_file-Holds stored-plain refl

-- A project whose file is the one above; `E` is in the environment.
abbrev environment : Bytes → Option Bytes
environment name = if eq name (codes "E") then some (codes "7") else none

abbrev world : World
world = record {
  disk = λ path. disk_file;
  keyring_available = false;
  keychain_get = λ account. none;
  lookup_env = environment;
  user_home_dir = none;
}

abbrev project_scope : Scope
project_scope = record { name = codes "project"; env_file = codes "secrets.env"; keychain_key = [] }

abbrev resolver : Backend → Resolver
resolver b = record { scopes = project_scope ∷ []; backend = b }

a_found : (resolve world (resolver file) key_a).found ≡ true
unfolding resolve get ateam.Secret.Resolve.resolve_scope ateam.Secret.Resolve.lookup_file read_lines
    ateam.Prelude.split lookup ateam.Secret.Store.read_entries ateam.Secret.Store.parse_line
    ateam.Prelude.trim_space ateam.Prelude.has_prefix ateam.Prelude.cut ateam.Prelude.Dict.insert eq
a_found = refl

resolve-Member_example :
    Member (resolve world (resolver file) key_a) (resolve_all world (resolver file) key_a)
resolve-Member_example = resolve-Member world (resolver file) key_a a_found

file-other : file ≢ other
file-other = λ h. cc

e_backend_keychain :
    eq (resolve world (resolver file) (codes "E")).backend (codes "keychain") ≡ false
unfolding resolve get eq ateam.Secret.Resolve.resolve_scope ateam.Secret.Resolve.lookup_file
    read_lines ateam.Prelude.split lookup ateam.Secret.Store.read_entries
    ateam.Secret.Store.parse_line ateam.Prelude.trim_space ateam.Prelude.has_prefix
    ateam.Prelude.cut ateam.Prelude.Dict.insert ateam.Secret.Resolve.lookup_keychain
e_backend_keychain = refl

e_backend_file : eq (resolve world (resolver file) (codes "E")).backend (codes "file") ≡ false
unfolding resolve get eq ateam.Secret.Resolve.resolve_scope ateam.Secret.Resolve.lookup_file
    read_lines ateam.Prelude.split lookup ateam.Secret.Store.read_entries
    ateam.Secret.Store.parse_line ateam.Prelude.trim_space ateam.Prelude.has_prefix
    ateam.Prelude.cut ateam.Prelude.Dict.insert ateam.Secret.Resolve.lookup_keychain
e_backend_file = refl

abbrev agent : AgentConfig
agent = record { required_env = codes "E|A" ∷ []; env = none }

agent_valid : validate_secrets world false agent (some (resolver file)) ≡ none
unfolding validate_secrets resolve get ateam.Secret.Validate.complaint
    ateam.Secret.Validate.missing_from ateam.Secret.Validate.resolve_requirement alternatives
    ateam.Prelude.split ateam.Prelude.trim_space ateam.Secret.Resolve.resolve_scope
    ateam.Secret.Resolve.lookup_file ateam.Secret.Resolve.lookup_keychain read_lines lookup
    ateam.Secret.Store.read_entries ateam.Secret.Store.parse_line ateam.Prelude.has_prefix
    ateam.Prelude.cut ateam.Prelude.Dict.insert eq
agent_valid = refl

abbrev a_active : IsolationResult
a_active = record { active_key = key_a; active_source = codes "project"; stripped = codes "E" ∷ [] }

a_isolated : (isolate_one world (resolver file) (codes "E|A") []).1 ≡ some a_active
unfolding isolate_one resolve get ateam.Secret.Validate.activate ateam.Secret.Validate.candidates
    ateam.Secret.Validate.strip_others alternatives ateam.Prelude.split ateam.Prelude.trim_space
    ateam.Secret.Resolve.resolve_scope ateam.Secret.Resolve.lookup_file read_lines lookup
    ateam.Secret.Store.read_entries ateam.Secret.Store.parse_line ateam.Prelude.has_prefix
    ateam.Prelude.cut ateam.Prelude.Dict.insert eq ateam.Secret.Resolve.lookup_keychain
a_isolated = refl

lookup-isolate_one_example :
    Isolated world
      (resolver file)
      (alternatives (codes "E|A"))
      (codes "E")
      []
      (isolate_one world (resolver file) (codes "E|A") []).0
      a_active
lookup-isolate_one_example =
    lookup-isolate_one world (resolver file) (codes "E|A") (codes "E") [] a_isolated

a_in_store : any_store world (resolver file) (alternatives (codes "E|A")) ≡ true
unfolding isolate_one resolve get alternatives ateam.Prelude.split ateam.Prelude.trim_space
    ateam.Secret.Resolve.resolve_scope ateam.Secret.Resolve.lookup_file read_lines lookup
    ateam.Secret.Store.read_entries ateam.Secret.Store.parse_line ateam.Prelude.has_prefix
    ateam.Prelude.cut ateam.Prelude.Dict.insert eq ateam.Secret.Resolve.lookup_keychain
a_in_store = refl

resolve_all_required-Distinct_example :
    Distinct (names (resolve_all_required world agent (key_a ∷ key_b ∷ []) (some (resolver file))))
    × (Member key_b
          (names (resolve_all_required world agent (key_a ∷ key_b ∷ []) (some (resolver file))))
        ↔ Wanted agent (key_a ∷ key_b ∷ []) key_b)
resolve_all_required-Distinct_example =
    resolve_all_required-Distinct world agent (key_a ∷ key_b ∷ []) (some (resolver file)) key_b
