-- ===== src/Users.antt =====
-- apps/api-core/src/modules/users/users.service.ts: profiles, and what an administrator may change.
pub mod Administration
pub mod Removal
mod Tests
use Prim.Native.String.{◌++◌}
use real_estate_platform.Base.{
  ℕ, Bool, true, false, not, ◌&&◌, ◌||◌, List, [], Option, none, some, String, ◌==◌, is_some,
  or_else, ◌=?◌,
}
use real_estate_platform.Enums.{UserRole, same_role, superadmin}
use real_estate_platform.Errors.{
  Thrown, not_found_error, forbidden_error, bad_request_error, user_not_found, insufficient_role,
  bad_request,
}
use real_estate_platform.Exec.{Exec, Reply, query, store, throw_if, or_throw, pure, ◌>>=◌, ◌>>◌}
use real_estate_platform.Schema.{User, Account}
use real_estate_platform.Table.Checks.{require}
use real_estate_platform.Platform.{Platform, World}
use real_estate_platform.Tokens.{revoke_all_sessions}
use real_estate_platform.Auth.{has_id, find_user, on_users}
use real_estate_platform.Auth.Google.{on_accounts}

-- A field that is left out is `none`; a field that may be null is an option in itself.
pub record UpdateProfileDto : Type 0 where
  pub name : Option String
  pub phone : Option (Option String)
  pub avatar_url : Option (Option String)
  pub locale : Option String

pub record AdminUpdateUserDto : Type 0 where
  pub profile : UpdateProfileDto
  pub role : Option UserRole
  pub is_active : Option Bool
  pub is_verified : Option Bool

pub record Actor : Type 0 where
  pub id : String
  pub role : UserRole

abbrev pub no_such_user : String → Thrown
no_such_user id = not_found_error ("User \"" ++ (id ++ "\" was not found")) user_not_found

abbrev pub only_superadmin : Thrown
only_superadmin = forbidden_error "Only a superadmin can change user roles" insufficient_role

abbrev pub own_role : Thrown
own_role = bad_request_error "You cannot change your own role" bad_request []

abbrev pub own_deactivation : Thrown
own_deactivation = bad_request_error "You cannot deactivate your own account" bad_request []

abbrev pub own_deletion : Thrown
own_deletion = bad_request_error "You cannot delete your own account" bad_request []

unfoldable pub apply_profile : UpdateProfileDto → User → User
apply_profile dto u = record u {
  name = or_else dto.name u.name;
  phone = or_else dto.phone u.phone;
  avatar_url = or_else dto.avatar_url u.avatar_url;
  locale = or_else dto.locale u.locale;
}

unfoldable pub apply_admin : AdminUpdateUserDto → User → User
unfolding apply_profile
apply_admin dto u = record (apply_profile dto.profile u) {
  role = or_else dto.role u.role;
  is_active = or_else dto.is_active u.is_active;
  is_verified = or_else dto.is_verified u.is_verified;
}

-- `dto.role !== undefined && dto.role !== target.role`.
unfoldable pub changes_role : Option UserRole → UserRole → Bool
changes_role none old = false
changes_role (some r) old = not (same_role r old)

-- `dto.isActive === false`.
unfoldable pub deactivates : Option Bool → Bool
deactivates none = false
deactivates (some b) = not b

unfoldable pub anonymised : String → User → User
anonymised id u = record u {
  is_active = false;
  email = "deleted+" ++ (id ++ "@topchoice.invalid");
  name = "Deleted user";
  phone = none;
  avatar_url = none;
  password_hash = none;
  reset_token_hash = none;
  reset_token_expires_at = none;
}

module _ (p : Platform) where
  unfoldable pub ensure_exists : String → Exec (World p) (Unit {0})
  ensure_exists id = require p.users (λ w. w.users) (has_id id) (no_such_user id)

  unfoldable pub find_by_id : String → Exec (World p) User
  find_by_id id = do found ← find_user p (has_id id); or_throw found (no_such_user id)

  unfoldable pub update_profile : String → UpdateProfileDto → Exec (World p) User
  update_profile id dto = do
    ensure_exists id
    on_users p (p.users.update (has_id id) (apply_profile dto))

  -- `if (changing the role) { … }`.
  unfoldable pub assert_may_change_role : Bool → Actor → String → Exec (World p) (Unit {0})
  assert_may_change_role false actor id = pure tt
  assert_may_change_role true actor id = do
    throw_if (not (same_role actor.role superadmin)) only_superadmin
    throw_if (actor.id == id) own_role

  unfoldable pub revoke_if : Bool → ℕ → String → ℕ → Exec (World p) (Unit {0})
  revoke_if false fuel id now = pure tt
  revoke_if true fuel id now = revoke_all_sessions p fuel id now

  unfoldable pub admin_update : ℕ → String → AdminUpdateUserDto → Actor → ℕ → Exec (World p) User
  admin_update fuel id dto actor now = do
    found ← find_user p (has_id id)
    target ← or_throw found (no_such_user id)
    assert_may_change_role (changes_role dto.role target.role) actor id
    throw_if (deactivates dto.is_active && actor.id == id) own_deactivation
    u ← on_users p (p.users.update (has_id id) (apply_admin dto))
    revoke_if (changes_role dto.role target.role || deactivates dto.is_active) fuel id now
    pure u

  unfoldable pub remove : ℕ → String → String → ℕ → Exec (World p) String
  remove fuel id actor_id now = do
    throw_if (id == actor_id) own_deletion
    ensure_exists id
    on_users p (p.users.update (has_id id) (anonymised id))
    on_accounts p (p.accounts.delete_many (λ a. a.user_id == id))
    revoke_all_sessions p fuel id now
    pure id
