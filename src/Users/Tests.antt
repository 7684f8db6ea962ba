-- ===== src/Users/Tests.antt =====
-- A superadmin deactivates and demotes an agent.
use real_estate_platform.Base.{◌≡◌, refl, true, false, [], ◌∷◌, some, none, arith}
use real_estate_platform.Enums.{user, agent, superadmin}
use real_estate_platform.Exec.{ok, err, steps}
use real_estate_platform.Cache
use real_estate_platform.Schema.{User}
use real_estate_platform.Table.Checks.{require}
use real_estate_platform.Platform.{World}
use real_estate_platform.Platform.Memory.{in_memory, empty}
use real_estate_platform.Tokens.{AccessTokenPayload, revoke_all_sessions, deny_all, is_denied}
use real_estate_platform.Guards.{validate, authenticated_user_from_payload}
use real_estate_platform.Users.{
  AdminUpdateUserDto, Actor, apply_profile, apply_admin, changes_role, deactivates, ensure_exists,
  assert_may_change_role, revoke_if, admin_update, remove, own_role,
}
use real_estate_platform.Users.Administration.{
  IsAllowed, admin_update-IsAllowed, admin_update-access_kept,
}

handlers : Unit {0}
unfolding steps require Cache.set Cache.del Cache.exists Cache.sweep Cache.del_by_pattern is_denied
    deny_all revoke_all_sessions apply_profile apply_admin changes_role deactivates ensure_exists
    assert_may_change_role revoke_if admin_update remove
handlers = tt

abbrev broker : User
broker = record {
  id = "u7";
  email = "broker@example.com";
  name = "Broker";
  password_hash = some "$secret";
  phone = none;
  avatar_url = none;
  role = agent;
  is_verified = true;
  is_active = true;
  locale = "en";
  reset_token_hash = none;
  reset_token_expires_at = none;
  last_login_at = none;
  created_at = 0;
}

abbrev dismissed : User
dismissed = record broker { role = user; is_active = false }

abbrev dismissal : AdminUpdateUserDto
dismissal = record {
  profile = record { name = none; phone = none; avatar_url = none; locale = none };
  role = some user;
  is_active = some false;
  is_verified = none;
}

abbrev chief : Actor
chief = record { id = "u0"; role = superadmin }

abbrev site : World in_memory
site = record empty { users = broker ∷ [] }

abbrev after : World in_memory
after = (admin_update in_memory 3 "u7" dismissal chief 1000 site).1

done : admin_update in_memory 3 "u7" dismissal chief 1000 site ≡ (ok dismissed, after)
unfolding handlers
done = refl

not_oneself :
    admin_update in_memory 3 "u7" dismissal (record { id = "u7"; role = superadmin }) 1000 site
    ≡ (err own_role, site)
unfolding handlers
not_oneself = refl

admin_update-IsAllowed_example : IsAllowed in_memory "u7" dismissal chief site after dismissed
admin_update-IsAllowed_example =
    admin_update-IsAllowed in_memory 3 "u7" dismissal chief 1000 site after dismissed done

-- The access token that the broker holds.
abbrev badge : AccessTokenPayload
badge = record {
  sub = "u7";
  email = "broker@example.com";
  name = "Broker";
  role = agent;
  jti = "a7";
  iss = "api";
  aud = "web";
  iat = 0;
  exp = 900;
}

admin_update-access_kept_example :
    validate in_memory badge 5000 after ≡ (ok (authenticated_user_from_payload badge), after)
admin_update-access_kept_example =
    admin_update-access_kept in_memory 3 "u7" dismissal chief badge 1000 5000 site after dismissed
      done (omega arith) refl refl refl
