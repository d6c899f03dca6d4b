-- ===== src/Auth/Examples.antt =====
-- Roles and tokens that exercise the permission checks.
use totalrecall.Common.{[], ◌∷◌, ◌≡◌, refl}
use totalrecall.Common.Text.{contains}
use totalrecall.Common.Dict
use totalrecall.Common.Dict.{Dict}
use totalrecall.Common.Outcome.{raise, auth_error, ◌>>=◌}
use totalrecall.Auth.{
  role_permissions, read_catalogue, generate, delete_memory, permissions_for_roles, AuthTokenConfig,
  authenticate, require_permission,
}
use totalrecall.Auth.Grants.{authenticate-require_permission}

reader_permissions :
    permissions_for_roles ("generator" ∷ "reader" ∷ []) ≡ (read_catalogue ∷ generate ∷ [])
unfolding permissions_for_roles
reader_permissions = refl

abbrev tokens : Dict AuthTokenConfig
tokens =
    ("t1", record { tenant_id = "acme"; actor_id = "ann"; roles = "reader" ∷ [] })
    ∷ ("t2", record { tenant_id = "acme"; actor_id = "bob"; roles = "admin" ∷ [] })
    ∷ []

authenticate-require_permission_example :
    (authenticate tokens "t1" >>= λ context. require_permission context delete_memory)
    ≡ raise (auth_error "Missing permission: memory:delete.")
unfolding Dict.get Dict.get_or contains role_permissions
authenticate-require_permission_example = authenticate-require_permission tokens "t1" delete_memory
