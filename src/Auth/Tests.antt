-- ===== src/Auth/Tests.antt =====
-- The authentication service on concrete stores.
use real_estate_platform.Base.{
  ◌≡◌, ◌⊎◌, refl, true, false, [], ◌∷◌, some, none, arith, keep, length, find, ◌≤◌, Bool,
  if◌then◌else◌, ◌==◌,
}
use real_estate_platform.Enums.{user}
use real_estate_platform.Exec.{Result, ok, err, steps, answer}
use real_estate_platform.Cache
use real_estate_platform.Redis.Up.{memory-Up}
use real_estate_platform.Schema.{User}
use real_estate_platform.Platform.{World}
use real_estate_platform.Platform.Memory.{in_memory, empty}
use real_estate_platform.Tokens.{
  SessionContext, RefreshTokenPayload, AccessTokenPayload, is_denied, is_active,
  is_known_in_database, deny_for, deny_all, rotate, issue_tokens, check_refresh,
  verify_refresh_token, verify_access_token, remember_refresh_token, revoke_refresh_jti,
  revoke_access_jti, revoke_all_sessions, refresh_claims, decode_error,
}
use real_estate_platform.Tokens.Signer.{signer, Token, refresh, access}
use real_estate_platform.Auth.Samples.{plain}
use real_estate_platform.Auth
use real_estate_platform.Auth.{
  RegisterDto, LoginDto, AuthResult, ResetPasswordDto, PasswordResetMail, accepted, hash_to_check,
  wrong_credentials, disabled, to_public_user, reset_to, validate_credentials, forgot_password,
  send_reset, reset_password, reset_invalid, may_reset, has_email, complete_login, logout,
  end_refresh, end_session, end_access,
}
use real_estate_platform.Auth.Google.{GoogleProfile, validate_google_user}
use real_estate_platform.Auth.Accounts.{UniqueEmails, register-UniqueEmails}
use real_estate_platform.Auth.Linking.{validate_google_user-UniqueEmails}
use real_estate_platform.Auth.Credentials.{
  IsWrong, IsDisabled, IsLogin, validate_credentials-IsLogin, validate_credentials-refused,
}
use real_estate_platform.Auth.Sessions.{UsedUp, refresh-UsedUp, Ended, logout-Ended}
use real_estate_platform.Auth.Passwords.{holds, reset_password-single_use, reset_password-login}

handlers : Unit {0}
unfolding steps Cache.get Cache.set Cache.del Cache.exists Cache.sweep Cache.del_by_pattern
    decode_error is_denied is_active is_known_in_database deny_for deny_all rotate issue_tokens
    check_refresh verify_refresh_token verify_access_token remember_refresh_token revoke_refresh_jti
    revoke_access_jti revoke_all_sessions accepted validate_credentials forgot_password send_reset
    reset_password complete_login Auth.refresh logout end_refresh end_session end_access
handlers = tt

abbrev ann : User
ann = record {
  id = "u1";
  email = "ann@example.com";
  name = "Ann";
  password_hash = some "$secret";
  phone = none;
  avatar_url = none;
  role = user;
  is_verified = true;
  is_active = true;
  locale = "en";
  reset_token_hash = none;
  reset_token_expires_at = none;
  last_login_at = none;
  created_at = 0;
}

abbrev browser : SessionContext
browser = record { user_agent = none; ip_address = none }

abbrev site : World in_memory
site = record empty { users = ann ∷ [] }

abbrev right : LoginDto
right = record { email = "ann@example.com"; password = "secret" }

abbrev wrong : LoginDto
wrong = record { email = "ann@example.com"; password = "guess" }

logged_in : validate_credentials in_memory plain right site ≡ (ok ann, site)
unfolding handlers
logged_in = refl

validate_credentials-IsLogin_example : IsLogin in_memory plain right site ann × (site ≡ site)
validate_credentials-IsLogin_example =
    validate_credentials-IsLogin in_memory plain right site site ann logged_in

refused : validate_credentials in_memory plain wrong site ≡ (err wrong_credentials, site)
unfolding handlers
refused = refl

validate_credentials-refused_example :
    (((wrong_credentials ≡ wrong_credentials) × IsWrong plain wrong (some ann))
      ⊎ ((wrong_credentials ≡ disabled) × IsDisabled plain wrong (some ann)))
    × (site ≡ site)
validate_credentials-refused_example =
    validate_credentials-refused in_memory plain wrong site site wrong_credentials (some ann) refl
      refused

abbrev old : RefreshTokenPayload
old = refresh_claims signer "u1" "r1" 0

-- Ann has logged in at the time 0.
abbrev signed_in : World in_memory
signed_in = (complete_login in_memory signer ann browser "a1" "r1" 0 site).1

abbrev refreshed_world : World in_memory
refreshed_world = (Auth.refresh in_memory signer 3 (refresh old) browser "a2" "r2" 2000 signed_in).1

abbrev pair : AuthResult Token
pair = record {
  user = to_public_user ann;
  tokens = record {
    access_token = access (record {
      sub = "u1";
      email = "ann@example.com";
      role = user;
      name = "Ann";
      jti = "a2";
      iss = "api";
      aud = "web";
      iat = 2;
      exp = 902;
    });
    refresh_token = refresh (refresh_claims signer "u1" "r2" 2000);
    expires_in = 900;
    refresh_expires_in = 604800;
  };
}

refreshed :
    Auth.refresh in_memory signer 3 (refresh old) browser "a2" "r2" 2000 signed_in
    ≡ (ok pair, refreshed_world)
unfolding handlers
refreshed = refl

refresh-UsedUp_example : UsedUp in_memory signer 3 old 9000 signed_in refreshed_world pair
refresh-UsedUp_example =
    refresh-UsedUp in_memory signer memory-Up 3 old browser "a2" "r2" 2000 9000 signed_in
      refreshed_world pair refreshed refl refl (omega arith) (omega arith)

abbrev session : AccessTokenPayload
session = record {
  sub = "u1";
  email = "ann@example.com";
  role = user;
  name = "Ann";
  jti = "a1";
  iss = "api";
  aud = "web";
  iat = 0;
  exp = 900;
}

abbrev signed_out : World in_memory
signed_out = (logout in_memory signer 3 (some "a1") (some (refresh old)) 2000 signed_in).1

still_good :
    verify_refresh_token in_memory signer 3 (refresh old) 2000 signed_in ≡ (ok old, signed_in)
unfolding handlers
still_good = refl

out :
    logout in_memory signer 3 (some "a1") (some (refresh old)) 2000 signed_in ≡ (ok tt, signed_out)
unfolding handlers
out = refl

logout-Ended_example : Ended in_memory signer 3 old session 86400000 9000 signed_out
logout-Ended_example =
    logout-Ended in_memory signer memory-Up 3 old session 2000 86400000 9000 signed_in signed_out
      still_good out refl refl refl refl (omega arith) refl (omega arith) (omega arith)
      (omega arith) (omega arith)

-- Ann has asked for a reset with the token "t".
abbrev asked : World in_memory
asked = (forgot_password in_memory plain "ann@example.com" "t" 1000 site).1

abbrev forgetful : User
forgetful = record ann { reset_token_hash = some "t"; reset_token_expires_at = some 3601000 }

abbrev choice : ResetPasswordDto
choice = record { token = "t"; password = "fresh" }

abbrev chosen : World in_memory
chosen = (reset_password in_memory plain 3 choice "" 2000 asked).1

reset : reset_password in_memory plain 3 choice "" 2000 asked ≡ (ok tt, chosen)
unfolding handlers
reset = refl

asked_world : asked ≡ record empty { users = forgetful ∷ [] }
unfolding handlers
asked_world = refl

one_holder : length (keep (holds "t") asked.users) ≤ 1
unfolding handlers
one_holder = omega arith

replied : in_memory.users.find_first (may_reset "t" 3000) chosen.users ≡ answer none
unfolding handlers
replied = refl

reset_password-single_use_example :
    reset_password in_memory plain 3 choice "x" 3000 chosen ≡ (err reset_invalid, chosen)
reset_password-single_use_example =
    reset_password-single_use in_memory plain 3 choice choice "" "x" 2000 3000 asked chosen none
      one_holder reset refl replied

holder : find (may_reset "t" 2000) asked.users ≡ some forgetful
unfolding handlers
holder = refl

known : find (has_email "ann@example.com") asked.users ≡ some forgetful
unfolding handlers
known = refl

found :
    in_memory.users.find_first (has_email "ann@example.com") chosen.users
    ≡ answer (some (reset_to "$fresh" forgetful))
unfolding handlers
found = refl

reset_password-login_example :
    validate_credentials in_memory plain
      (record { email = "ann@example.com"; password = "fresh" })
      chosen
    ≡ (ok (reset_to "$fresh" forgetful), chosen)
reset_password-login_example =
    reset_password-login in_memory plain 3 choice "" 2000 asked chosen forgetful "ann@example.com"
      (some (reset_to "$fresh" forgetful)) holder known refl reset found

abbrev newcomer : RegisterDto
newcomer = record { name = "Bo"; email = "bo@example.com"; password = "secret"; phone = none }

abbrev joined : Result (AuthResult Token) × World in_memory
joined = Auth.register in_memory signer plain newcomer browser "u2" "" "a9" "r9" 5000 site

one_account : UniqueEmails in_memory site
one_account e = alone (ann.email == e)
  where
    alone : (b : Bool) → length (if b then ann ∷ [] else []) ≤ 1
    alone true = omega arith
    alone false = omega arith

register-UniqueEmails_example : UniqueEmails in_memory joined.1
register-UniqueEmails_example =
    register-UniqueEmails in_memory signer plain newcomer browser "u2" "" "a9" "r9" 5000 site
      joined.1 joined.0 refl one_account

abbrev profile : GoogleProfile
profile = record {
  provider_account_id = "g1";
  email = "ann@example.com";
  name = "Ann";
  avatar_url = none;
  access_token = none;
  refresh_token = none;
}

abbrev linked : Result (AuthResult Token) × World in_memory
linked = validate_google_user in_memory signer profile browser "u3" "a9" "r9" 5000 site

validate_google_user-UniqueEmails_example : UniqueEmails in_memory linked.1
validate_google_user-UniqueEmails_example =
    validate_google_user-UniqueEmails in_memory signer profile browser "u3" "a9" "r9" 5000 site
      linked.1 linked.0 refl one_account
