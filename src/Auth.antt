-- ===== src/Auth.antt =====
-- totalrecall/auth/permissions.py and auth/provider.py: roles, permissions and bearer tokens.
pub mod Grants
mod Examples
use totalrecall.Common.{
  ℕ, Bool, true, false, ◌||◌, not, Option, none, some, List, [], ◌∷◌, if◌then◌else◌,
}
use totalrecall.Common.Text.{String, contains, sorted, ◌++◌, ◌==◌}
use totalrecall.Common.Dict
use totalrecall.Common.Dict.{Dict}
use totalrecall.Common.Outcome.{Outcome, ok, raise, auth_error}

abbrev pub read_catalogue : String
read_catalogue = "catalogue:read"

abbrev pub generate : String
generate = "generation:create"

abbrev pub delete_memory : String
delete_memory = "memory:delete"

abbrev pub promote_learning : String
promote_learning = "learning:promote"

abbrev pub write_memory : String
write_memory = "memory:write"

abbrev pub publish_skill : String
publish_skill = "skill:publish"

abbrev pub manage_credentials : String
manage_credentials = "credential:manage"

unfoldable pub role_permissions : Dict (List String)
role_permissions =
    ("reader", read_catalogue ∷ [])
    ∷ ("generator", read_catalogue ∷ generate ∷ [])
    ∷ ("maintainer", read_catalogue ∷ generate ∷ write_memory ∷ promote_learning ∷ [])
    ∷ (
      "admin",
      read_catalogue ∷ generate ∷ delete_memory ∷ promote_learning ∷ write_memory ∷ publish_skill
          ∷ manage_credentials ∷ [],
    )
    ∷ []

-- `permissions.update(xs)` on a set, kept as a list without repetitions
unfoldable pub update : List String → List String → List String
unfolding contains
update acc [] = acc
update acc (x ∷ xs) = update (if contains x acc then acc else x ∷ acc) xs

-- the loop over the roles
unfoldable pub collect_permissions : List String → List String → List String
unfolding update role_permissions Dict.get_or
collect_permissions acc [] = acc
collect_permissions acc (role ∷ roles) =
    collect_permissions (update acc (Dict.get_or role_permissions role [])) roles

unfoldable pub permissions_for_roles : List String → List String
unfolding collect_permissions sorted
permissions_for_roles roles = sorted (collect_permissions [] roles)

unfoldable pub has_permission : List String → String → Bool
unfolding permissions_for_roles contains
has_permission roles permission = contains permission (permissions_for_roles roles)

pub record AuthTokenConfig : Type 0 where
  pub tenant_id : String
  pub actor_id : String
  pub roles : List String

pub record TenantContext : Type 0 where
  pub tenant_id : String
  pub actor_id : String
  pub roles : List String
  pub permissions : List String

unfoldable pub authenticate : Dict AuthTokenConfig → String → Outcome TenantContext
unfolding Dict.get
authenticate token_map token = elim (Dict.get token_map token) [
  | none ↦ raise (auth_error "Invalid bearer token.")
  | some config ↦ ok (record {
    tenant_id = config.tenant_id;
    actor_id = config.actor_id;
    roles = config.roles;
    permissions = permissions_for_roles config.roles;
  })
]

unfoldable pub require_permission : TenantContext → String → Outcome (Unit {0})
unfolding contains
require_permission context permission =
    if not (contains permission context.permissions)
    then raise (auth_error ("Missing permission: " ++ (permission ++ ".")))
    else ok tt
