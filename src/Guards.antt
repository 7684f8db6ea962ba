-- ===== src/Guards.antt =====
-- apps/api-core/src/modules/auth/strategies/jwt.strategy.ts and apps/api-core/src/modules/auth/guards:
-- who a request is from, and what its role lets it do.
pub mod Roles
mod Tests
use Prim.Native.String.{◌++◌}
use real_estate_platform.Base.{
  ℕ, Bool, true, false, not, ◌||◌, List, [], ◌∷◌, Option, none, some, String, ◌==◌, ◌=?◌, length,
  mentions, if◌then◌else◌,
}
use real_estate_platform.Enums.{UserRole, user, agent, admin, superadmin, same_role, includes_role}
use real_estate_platform.Errors.{
  Thrown, library, unauthorized_error, forbidden_error, invalid_token, token_expired, unauthorized,
  insufficient_role,
}
use real_estate_platform.Exec.{Exec, Result, ok, err, pure, throw_if, ◌>>=◌, ◌>>◌}
use real_estate_platform.Platform.{Platform, World}
use real_estate_platform.Tokens.{AccessTokenPayload, revoked_error, is_denied}

pub record AuthenticatedUser : Type 0 where
  pub id : String
  pub email : String
  pub name : String
  pub role : UserRole
  pub jti : String

unfoldable pub authenticated_user_from_payload : AccessTokenPayload → AuthenticatedUser
authenticated_user_from_payload c = record {
  id = c.sub;
  email = c.email;
  name = c.name;
  role = c.role;
  jti = c.jti;
}

abbrev pub malformed : Thrown
malformed = unauthorized_error "Malformed access token" invalid_token

-- `validate` of the strategy, on the claims that the library accepts.
unfoldable pub validate : (p : Platform) → AccessTokenPayload → ℕ → Exec (World p) AuthenticatedUser
validate p c now = do
  throw_if (c.sub == "" || c.jti == "") malformed
  denied ← (λ w. (ok (is_denied p c.jti now w), w))
  throw_if denied revoked_error
  pure (authenticated_user_from_payload c)

-- `err` of Passport: what was thrown, an `Error` or not. In the second case an exception of the
-- framework is thrown.
pub data Failure : Type 0 where
  error : Thrown → Failure
  other : Failure

abbrev pub rethrown : Failure → Thrown
rethrown (error x) = x
rethrown other = library "Unauthorized"

-- `handleRequest`: the message of `info` is empty where it is no `Error`.
unfoldable pub handle_request :
    Bool → Option Failure → Option AuthenticatedUser → String → Result (Option AuthenticatedUser)
handle_request true failure found info = ok found
handle_request false (some f) found info = err (rethrown f)
handle_request false none (some u) info = ok (some u)
handle_request false none none info =
    let expired = mentions info "expired" in
    err (
      unauthorized_error (if expired then "Access token has expired" else "Authentication required")
        (if expired then token_expired else unauthorized))

abbrev pub authentication_required : Thrown
authentication_required = unauthorized_error "Authentication required" unauthorized

abbrev pub role_text : UserRole → String
role_text user = "user"
role_text agent = "agent"
role_text admin = "admin"
role_text superadmin = "superadmin"

-- `required.join(', ')`.
abbrev pub join_roles : List UserRole → String
join_roles [] = ""
join_roles (r ∷ []) = role_text r
join_roles (r ∷ q ∷ rs) = role_text r ++ (", " ++ join_roles (q ∷ rs))

abbrev pub role_required : List UserRole → Thrown
role_required required =
    forbidden_error ("This action requires one of: " ++ join_roles required) insufficient_role

-- `canActivate` of the roles guard, on the roles that the route requires, if any.
unfoldable pub can_activate : Option (List UserRole) → Option AuthenticatedUser → Result Bool
can_activate none u = ok true
can_activate (some []) u = ok true
can_activate (some (r ∷ rs)) none = err authentication_required
can_activate (some (r ∷ rs)) (some u) =
    if same_role u.role superadmin || includes_role (r ∷ rs) u.role
    then ok true
    else err (role_required (r ∷ rs))
