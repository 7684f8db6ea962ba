-- ===== src/Guards/Roles.antt =====
-- Who passes the guards of a route that is not public and requires roles.
use real_estate_platform.Base.{
  ◌≡◌, refl, sym, ap, ◌∙◌, ◌⊎◌, inl, inr, Bool, true, false, Option, some, none, String, List, ◌∷◌,
  arith,
}
use real_estate_platform.Enums.{UserRole, superadmin, same_role, same_role_iff, includes_role}
use real_estate_platform.Exec.{ok}
use real_estate_platform.Guards.{AuthenticatedUser, Failure, handle_request, can_activate}

authenticated :
    (f : Option Failure) (found : Option AuthenticatedUser) (info : String)
    (o : Option AuthenticatedUser)
    → handle_request false f found info ≡ ok o
    → (u : AuthenticatedUser) × (found ≡ some u) × (o ≡ some u) × (f ≡ none)
unfolding handle_request
authenticated (some f) found info o e = absurd (ground arith)
authenticated none (some u) info o e = (u, refl, ground arith, refl)
authenticated none none info o e = absurd (ground arith)

permitted :
    (r : UserRole) (rs : List UserRole) (u : AuthenticatedUser)
    → can_activate (some (r ∷ rs)) (some u) ≡ ok true
    → (u.role ≡ superadmin) ⊎ (includes_role (r ∷ rs) u.role ≡ true)
unfolding can_activate
permitted r rs u e = go (same_role u.role superadmin) refl
  where
    go :
        (b : Bool)
        → same_role u.role superadmin ≡ b
        → (u.role ≡ superadmin) ⊎ (includes_role (r ∷ rs) u.role ≡ true)
    go true h = inl ((same_role_iff u.role superadmin).0 h)
    go false h = inr (ground arith)

-- A route that is not public and requires roles is reached only by an authenticated user, with
-- nothing thrown by the strategy, who is a superadmin or has one of the roles.
pub can_activate-authenticated :
    (r : UserRole) (rs : List UserRole) (f : Option Failure) (found o : Option AuthenticatedUser)
    (info : String)
    → handle_request false f found info ≡ ok o
    → can_activate (some (r ∷ rs)) o ≡ ok true
    → (u : AuthenticatedUser) × (found ≡ some u)
      × (f ≡ none)
      × ((u.role ≡ superadmin) ⊎ (includes_role (r ∷ rs) u.role ≡ true))
can_activate-authenticated r rs f found o info e h =
    let (u, was, is, quiet) = authenticated f found info o e in
    (u, was, quiet, permitted r rs u (ap (can_activate (some (r ∷ rs))) (sym is) ∙ h))
