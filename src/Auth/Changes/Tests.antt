-- ===== src/Auth/Changes/Tests.antt =====
-- A changed password on concrete stores.
use real_estate_platform.Base.{◌≡◌, refl, true, [], ◌∷◌, some, none}
use real_estate_platform.Enums.{user}
use real_estate_platform.Exec.{ok, err, steps}
use real_estate_platform.Cache
use real_estate_platform.Schema.{User}
use real_estate_platform.Platform.{World}
use real_estate_platform.Platform.Memory.{in_memory, empty}
use real_estate_platform.Tokens.{deny_for, deny_all, revoke_all_sessions}
use real_estate_platform.Auth.Samples.{plain}
use real_estate_platform.Auth.{change_password, wrong_password}

handlers : Unit {0}
unfolding steps Cache.set deny_for deny_all revoke_all_sessions change_password
handlers = tt

abbrev eve : User
eve = record {
  id = "u7";
  email = "eve@example.com";
  name = "Eve";
  password_hash = some "$before";
  phone = none;
  avatar_url = none;
  role = user;
  is_verified = true;
  is_active = true;
  locale = "en";
  reset_token_hash = none;
  reset_token_expires_at = none;
  last_login_at = none;
  created_at = 0;
}

abbrev start : World in_memory
start = record empty { users = eve ∷ [] }

abbrev changed : World in_memory
changed = (change_password in_memory plain 3 "u7" "before" "after" "" 2000 start).1

guessed :
    change_password in_memory plain 3 "u7" "guess" "after" "" 2000 start
    ≡ (err wrong_password, start)
unfolding handlers
guessed = refl

answered : change_password in_memory plain 3 "u7" "before" "after" "" 2000 start ≡ (ok tt, changed)
unfolding handlers
answered = refl
