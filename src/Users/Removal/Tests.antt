-- ===== src/Users/Removal/Tests.antt =====
-- A superadmin removes one of two accounts; the other still logs in.
use real_estate_platform.Base.{◌≡◌, refl, true, false, [], ◌∷◌, some, none, ◌==◌}
use real_estate_platform.Enums.{user, agent}
use real_estate_platform.Exec.{ok, err, steps}
use real_estate_platform.Cache
use real_estate_platform.Schema.{User}
use real_estate_platform.Table.Checks.{require}
use real_estate_platform.Platform.{World}
use real_estate_platform.Platform.Memory.{in_memory, empty}
use real_estate_platform.Tokens.{deny_for, deny_all, revoke_all_sessions}
use real_estate_platform.Auth.{LoginDto, accepted, validate_credentials, wrong_credentials}
use real_estate_platform.Auth.Samples.{plain}
use real_estate_platform.Users.{anonymised, ensure_exists, remove, own_deletion}
use real_estate_platform.Users.Removal.{remove-no_login}

handlers : Unit {0}
unfolding steps require Cache.set Cache.del Cache.exists Cache.sweep Cache.del_by_pattern deny_for
    deny_all revoke_all_sessions accepted validate_credentials anonymised ensure_exists remove
handlers = tt

abbrev leaver : User
leaver = record {
  id = "u7";
  email = "leaver@example.com";
  name = "Leaver";
  password_hash = some "$gone";
  phone = none;
  avatar_url = none;
  role = agent;
  is_verified = true;
  is_active = true;
  locale = "ar";
  reset_token_hash = none;
  reset_token_expires_at = none;
  last_login_at = none;
  created_at = 0;
}

abbrev stayer : User
stayer = record leaver {
  id = "u8";
  email = "stayer@example.com";
  password_hash = some "$here";
  role = user;
}

abbrev site : World in_memory
site = record empty { users = leaver ∷ stayer ∷ [] }

abbrev after : World in_memory
after = (remove in_memory 3 "u7" "u0" 1000 site).1

removed : remove in_memory 3 "u7" "u0" 1000 site ≡ (ok "u7", after)
unfolding handlers
removed = refl

not_oneself : remove in_memory 3 "u7" "u7" 1000 site ≡ (err own_deletion, site)
unfolding handlers
not_oneself = refl

abbrev old_login : LoginDto
old_login = record { email = "leaver@example.com"; password = "gone" }

locked_out : validate_credentials in_memory plain old_login after ≡ (err wrong_credentials, after)
unfolding handlers
locked_out = refl

abbrev other_login : LoginDto
other_login = record { email = "stayer@example.com"; password = "here" }

still_in : validate_credentials in_memory plain other_login after ≡ (ok stayer, after)
unfolding handlers
still_in = refl

remove-no_login_example : ("u8" == "u7") ≡ false
remove-no_login_example =
    remove-no_login in_memory plain 3 "u7" "u0" "u7" 1000 other_login site after after stayer
      removed still_in
