-- ===== src/Auth/Grants.antt =====
-- What a list of roles grants, without the set and its sorting.
use totalrecall.Common.{
  Bool, true, false, ◌||◌, none, some, List, [], ◌∷◌, ◌≡◌, refl, ap, ◌∙◌, subst, arith, Bool-cases,
  Option-cases, inl, inr, if◌then◌else◌,
}
use totalrecall.Common.Text.{String, contains, insert_sorted, sorted, ◌++◌, ◌==◌, eq_iff}
use totalrecall.Common.Dict
use totalrecall.Common.Dict.{Dict}
use totalrecall.Common.Outcome.{ok, raise, auth_error, ◌>>=◌}
use totalrecall.Auth.{
  update, collect_permissions, permissions_for_roles, has_permission, role_permissions,
  manage_credentials, AuthTokenConfig, authenticate, require_permission,
}

-- Some role of the list has the permission in the table.
abbrev pub granted : String → List String → Bool
granted p [] = false
granted p (role ∷ roles) = contains p (Dict.get_or role_permissions role []) || granted p roles

contains-update :
    (p : String) (acc xs : List String)
    → contains p (update acc xs) ≡ (contains p xs || contains p acc)
unfolding contains update
contains-update p acc [] = refl
contains-update p acc (x ∷ xs) =
    ground (arith, eq_iff p x, contains-update p acc xs, contains-update p (x ∷ acc) xs)

contains-insert_sorted :
    (p x : String) (ys : List String) → contains p (insert_sorted x ys) ≡ (p == x || contains p ys)
unfolding contains insert_sorted
contains-insert_sorted p x [] = refl
contains-insert_sorted p x (y ∷ ys) = ground (arith, contains-insert_sorted p x ys)

contains-sorted : (p : String) (xs : List String) → contains p (sorted xs) ≡ contains p xs
unfolding contains sorted
contains-sorted p [] = refl
contains-sorted p (x ∷ xs) =
    ground (arith, contains-insert_sorted p x (sorted xs), contains-sorted p xs)

or_rotate : (a b c : Bool) → (a || (b || c)) ≡ (b || a || c)
or_rotate true true c = refl
or_rotate true false c = refl
or_rotate false true c = refl
or_rotate false false c = refl

contains-collect_permissions :
    (p : String) (acc roles : List String)
    → contains p (collect_permissions acc roles) ≡ (granted p roles || contains p acc)
unfolding collect_permissions
contains-collect_permissions p acc [] = refl
contains-collect_permissions p acc (role ∷ roles) =
    let own = Dict.get_or role_permissions role [] in
    contains-collect_permissions p (update acc own) roles
    ∙ ap (λ b. granted p roles || b) (contains-update p acc own)
    ∙ or_rotate (granted p roles) (contains p own) (contains p acc)

-- A list of roles has a permission exactly when the table grants it to one of the roles: the set
-- union and the sorting of the result neither add nor lose a permission.
pub has_permission-granted :
    (roles : List String) (p : String) → has_permission roles p ≡ granted p roles
unfolding has_permission permissions_for_roles contains
has_permission-granted roles p = ground (
  arith,
  contains-sorted p (collect_permissions [] roles),
  contains-collect_permissions p [] roles,
)

abbrev Agrees : String → Type 0
Agrees role = contains manage_credentials (Dict.get_or role_permissions role []) ≡ ("admin" == role)

permissions_granted :
    (p : String) (roles : List String) → contains p (permissions_for_roles roles) ≡ granted p roles
unfolding has_permission
permissions_granted p roles = has_permission-granted roles p

manages-admin :
    (role : String)
    → contains manage_credentials (Dict.get_or role_permissions role []) ≡ ("admin" == role)
unfolding contains role_permissions Dict.get_or Dict.get
manages-admin role = elim (Bool-cases ("reader" == role)) [
  | inl e ↦ subst Agrees ((eq_iff "reader" role).0 e) refl
  | inr e1 ↦ elim (Bool-cases ("generator" == role)) [
    | inl e ↦ subst Agrees ((eq_iff "generator" role).0 e) refl
    | inr e2 ↦ elim (Bool-cases ("maintainer" == role)) [
      | inl e ↦ subst Agrees ((eq_iff "maintainer" role).0 e) refl
      | inr e3 ↦ elim (Bool-cases ("admin" == role)) [
        | inl e ↦ subst Agrees ((eq_iff "admin" role).0 e) refl
        | inr e4 ↦ rw (e1, e2, e3, e4, Dict.get, Dict.get_or)
      ]
    ]
  ]
]

granted-admin : (roles : List String) → granted manage_credentials roles ≡ contains "admin" roles
unfolding contains
granted-admin [] = refl
granted-admin (role ∷ roles) = ground (arith, manages-admin role, granted-admin roles)

-- Whatever the other roles are, credentials can be managed exactly by holders of the role admin.
pub has_permission-admin :
    (roles : List String) → has_permission roles manage_credentials ≡ contains "admin" roles
has_permission-admin roles = has_permission-granted roles manage_credentials ∙ granted-admin roles

-- A bearer token followed by a permission check: an unknown token is refused as invalid, and a known
-- one passes exactly when the table grants the permission to one of the roles of its configuration.
pub authenticate-require_permission :
    (token_map : Dict AuthTokenConfig) (token p : String)
    → (authenticate token_map token >>= λ context. require_permission context p)
      ≡ elim (Dict.get token_map token) [
        | none ↦ raise (auth_error "Invalid bearer token.")
        | some config ↦
            if granted p config.roles
            then ok tt
            else raise (auth_error ("Missing permission: " ++ (p ++ ".")))
      ]
unfolding authenticate require_permission
authenticate-require_permission token_map token p = elim (Option-cases (Dict.get token_map token)) [
  | inl e ↦ rw (e, authenticate)
  | inr (config, e) ↦
      rw (e, authenticate)
        (elim (Bool-cases (granted p config.roles)) [
          | inl g ↦ rw (g, permissions_granted p config.roles ∙ g)
          | inr g ↦ rw (g, permissions_granted p config.roles ∙ g)
        ])
]
