-- ===== src/Auth.antt =====
-- backend/src/modules/auth: the exchange of the administrative key for a token (auth.service.ts), the
-- principal of a verified token (jwt.strategy.ts), and the role guard (guards/roles.guard.ts). Signing is a
-- parameter. Texts are well formed, so two of them have the same bytes where they are equal.
pub mod Laws
use climate_chain.Shared.{
  String, Bool, true, false, not, Option, none, some, List, [], ◌∷◌, ◌||◌, str_eq, truthy, includes,
  or_else, if◌then◌else◌,
}
use climate_chain.Shared.Text.{append, join}
use climate_chain.Config.Types.{AuthConfig}
use climate_chain.Js.{
  Value, undefined, str, http, ExceptionClass, Result, ok, throw, arr, Items, nil, cons, prop,
  as_string,
}

pub record TokenResponse : Type 0 where
  pub access_token : String
  pub token_type : String
  pub expires_in : String

-- `sub` and `roles`.
pub record JwtPayload : Type 0 where
  pub sub : String
  pub roles : List String

pub record AuthenticatedUser : Type 0 where
  pub user_id : String
  pub roles : List String

abbrev pub admin_payload : JwtPayload
admin_payload = record { sub = "admin"; roles = "admin" ∷ [] }

unfoldable pub is_admin_token_issuance_enabled : AuthConfig → Bool
is_admin_token_issuance_enabled auth = truthy auth.admin_api_key

abbrev issuance_disabled : Value
issuance_disabled =
    http ExceptionClass.unavailable
      (str "Administrative token issuance is disabled; set ADMIN_API_KEY to enable it") undefined

unfoldable pub issue_admin_token :
    (sign : JwtPayload → String → String) → AuthConfig → String → Result TokenResponse
issue_admin_token sign auth api_key =
    let admin_api_key = or_else auth.admin_api_key "" in
    if str_eq admin_api_key ""
    then throw issuance_disabled
    else if not (str_eq api_key admin_api_key)
    then throw (http ExceptionClass.unauthorized (str "Invalid administrative API key") undefined)
    else ok (record {
      access_token = sign admin_payload auth.jwt_expires_in;
      token_type = "Bearer";
      expires_in = auth.jwt_expires_in;
    })

-- The members of a JSON array that are texts; other members equal no role.
abbrev texts_of : Items → List String
texts_of nil = []
texts_of (cons (str s) items) = s ∷ texts_of items
texts_of (cons v items) = texts_of items

roles_of : Value → List String
roles_of (arr items) = texts_of items
roles_of v = []

-- `JwtStrategy.validate` on a decoded payload. A missing payload has no `sub` either.
unfoldable pub validate : Value → Result AuthenticatedUser
unfolding roles_of
validate payload = elim (as_string (prop "sub" payload)) [
  | none ↦ throw (http ExceptionClass.unauthorized (str "Invalid token payload") undefined)
  | some sub ↦ ok (record { user_id = sub; roles = roles_of (prop "roles" payload) })
]

-- `roles.some((role) => requiredRoles.includes(role))`
pub some_included : List String → List String → Bool
some_included [] required = false
some_included (role ∷ roles) required = includes required role || some_included roles required

-- `request.user?.roles ?? []`
abbrev pub principal_roles : Option AuthenticatedUser → List String
principal_roles none = []
principal_roles (some u) = u.roles

-- `RolesGuard.canActivate`, on the route's roles and the request's principal.
unfoldable pub can_activate : List String → Option AuthenticatedUser → Result Bool
unfolding some_included
can_activate [] user = ok true
can_activate (r ∷ required) user =
    if some_included (principal_roles user) (r ∷ required)
    then ok true
    else throw (
        http ExceptionClass.forbidden
          (str (append "Requires one of the following roles: " (join ", " (r ∷ required))))
          undefined)
