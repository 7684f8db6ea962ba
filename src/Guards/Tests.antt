-- ===== src/Guards/Tests.antt =====
-- The guards on concrete requests.
use real_estate_platform.Base.{Option, ◌≡◌, refl, true, false, none, some, [], ◌∷◌, ◌⊎◌}
use real_estate_platform.Enums.{agent, admin, superadmin, includes_role}
use real_estate_platform.Exec.{ok, err}
use real_estate_platform.Guards.{
  AuthenticatedUser, Failure, handle_request, can_activate, role_required,
}
use real_estate_platform.Guards.Roles.{can_activate-authenticated}

abbrev broker : AuthenticatedUser
broker = record {
  id = "u7";
  email = "broker@example.com";
  name = "Broker";
  role = agent;
  jti = "a7";
}

welcomed : handle_request false none (some broker) "" ≡ ok (some broker)
unfolding handle_request
welcomed = refl

allowed : can_activate (some (agent ∷ admin ∷ [])) (some broker) ≡ ok true
unfolding can_activate
allowed = refl

refused : can_activate (some (admin ∷ [])) (some broker) ≡ err (role_required (admin ∷ []))
unfolding can_activate
refused = refl

can_activate-authenticated_example :
    (u : AuthenticatedUser) × (some broker ≡ some u)
    × (◌≡◌ {A = Option Failure} none none)
    × ((u.role ≡ superadmin) ⊎ (includes_role (agent ∷ admin ∷ []) u.role ≡ true))
can_activate-authenticated_example =
    can_activate-authenticated agent (admin ∷ []) none (some broker) (some broker) "" welcomed
      allowed
