-- ===== src/Prompts/Parser/Validate.antt =====
-- internal/prompts/assembler/validate.go: the names that a role may have.
use ateam.Prelude.{
  Bool, true, false, ◌||◌, Option, none, some, [], ◌∷◌, ◌++◌, ◌≡◌, refl, sym, ap, ◌∙◌, Bytes, codes,
  is_empty, has_prefix, has_suffix, append_assoc, if◌then◌else◌,
}
use ateam.Prompts.Parser.{parse, role_main}
use ateam.Prompts.Parser.Search.{parse-role_main}

pub data RoleNameError : Type 0 where
  empty_role : RoleNameError
  reserved_prefix ambiguous_suffix : Bytes → RoleNameError

-- `ValidateRoleName`: none if the name is accepted.
unfoldable pub validate_role_name : Bytes → Option RoleNameError
unfolding has_prefix has_suffix
validate_role_name name =
    if is_empty name
    then some empty_role
    else if has_prefix name (codes "_")
    then some (reserved_prefix name)
    else if has_suffix name (codes ".pre") || has_suffix name (codes ".post")
    then some (ambiguous_suffix name)
    else none

refused :
    (b : Bool) (e : RoleNameError) (rest : Option RoleNameError)
    → (if b then some e else rest) ≡ none
    → b ≡ false
refused true e rest h = cc
refused false e rest h = refl

-- The main file of a role with an accepted name is parsed as the main file of this role.
pub validate_role_name-parse :
    (name : Bytes)
    → validate_role_name name ≡ none
    → parse (name ++ codes ".prompt.md") ≡ record { kind = role_main; role = name; fragment = [] }
unfolding validate_role_name
validate_role_name-parse [] h = cc
validate_role_name-parse (c ∷ role) h =
    ap (λ z. parse (c ∷ z)) (sym (append_assoc role (codes ".prompt") (codes ".md")))
    ∙ parse-role_main c role
        (refused (has_prefix (c ∷ role) (codes "_")) (reserved_prefix (c ∷ role)) _ h)
