-- ===== src/Tokens/Tests.antt =====
-- The token service on concrete stores.
use real_estate_platform.Base.{ℕ, ◌≡◌, refl, true, false, String, [], none, arith, All, any, ◌+◌}
use real_estate_platform.Enums.{user}
use real_estate_platform.Exec.{ok, err, steps, answer}
use real_estate_platform.Cache
use real_estate_platform.Redis.Up.{memory-Up}
use real_estate_platform.Redis.Outage.{down_until}
use real_estate_platform.Platform.{Platform, World}
use real_estate_platform.Platform.Memory.{in_memory, empty}
use real_estate_platform.Tokens.{
  TokenSubject, SessionContext, IssuedTokens, RefreshTokenPayload, AccessTokenPayload, is_denied,
  is_active, is_known_in_database, deny_for, deny_all, rotate, issue_tokens, check_refresh,
  verify_refresh_token, verify_access_token, remember_refresh_token, revoke_refresh_jti,
  revoke_access_jti, revoke_all_sessions, reused_error, refresh_claims, decode_error,
  is_unrevoked_of, is_live_of, has_jti, mark_revoked_at,
}
use real_estate_platform.Tokens.Rotation.{rotate-reuse}
use real_estate_platform.Tokens.Revocation.{Lasts, live_rows, revoke_all_sessions-denied}
use real_estate_platform.Tokens.Outage.{WritesFail, rotate-replayed}
use real_estate_platform.Tokens.Signer.{signer, Token, refresh, access}

handlers : Unit {0}
unfolding steps Cache.get Cache.set Cache.del Cache.exists Cache.sweep Cache.del_by_pattern
    decode_error is_denied is_active is_known_in_database deny_for deny_all rotate issue_tokens
    check_refresh verify_refresh_token verify_access_token remember_refresh_token revoke_refresh_jti
    revoke_access_jti revoke_all_sessions
handlers = tt

abbrev ann : TokenSubject
ann = record { id = "u1"; email = "ann@example.com"; name = "Ann"; role = user }

abbrev browser : SessionContext
browser = record { user_agent = none; ip_address = none }

-- The claims of the token that was issued at the time 0.
abbrev first : RefreshTokenPayload
first = refresh_claims signer "u1" "r1" 0

abbrev issued_world : World in_memory
issued_world = (issue_tokens in_memory signer ann browser "a1" "r1" 0 empty).1

-- The pair that is issued at a second, by its identifiers.
abbrev pair : String → String → ℕ → IssuedTokens Token
pair access_jti refresh_jti at = record {
  access_token = access (record {
    sub = "u1";
    email = "ann@example.com";
    role = user;
    name = "Ann";
    jti = access_jti;
    iss = "api";
    aud = "web";
    iat = at;
    exp = at + 900;
  });
  refresh_token = refresh (record {
    sub = "u1";
    jti = refresh_jti;
    iss = "api";
    aud = "web";
    iat = at;
    exp = at + 604800;
  });
  expires_in = 900;
  refresh_expires_in = 604800;
}

issued :
    issue_tokens in_memory signer ann browser "a1" "r1" 0 empty
    ≡ (ok (pair "a1" "r1" 0), issued_world)
unfolding handlers
issued = refl

not_denied : is_denied in_memory "r1" 5000 empty ≡ false
unfolding handlers
not_denied = refl

abbrev rotated_world : World in_memory
rotated_world = (rotate in_memory signer ann first browser "a2" "r2" 2000 issued_world).1

rotated :
    rotate in_memory signer ann first browser "a2" "r2" 2000 issued_world
    ≡ (ok (pair "a2" "r2" 2), rotated_world)
unfolding handlers
rotated = refl

rotate-reuse_example :
    verify_refresh_token in_memory signer 3 (refresh first) 9000 rotated_world
    ≡ (err reused_error, (revoke_all_sessions in_memory 3 "u1" 9000 rotated_world).1)
rotate-reuse_example =
    rotate-reuse in_memory signer memory-Up 3 ann first browser "a2" "r2" 2000 9000 issued_world
      rotated_world (pair "a2" "r2" 2) rotated refl refl (omega arith) (omega arith)

abbrev revoked_world : World in_memory
revoked_world = (revoke_all_sessions in_memory 3 "u1" 9000 issued_world).1

revoked : revoke_all_sessions in_memory 3 "u1" 9000 issued_world ≡ (ok tt, revoked_world)
unfolding handlers
revoked = refl

found :
    in_memory.refresh_tokens.find_many (is_live_of "u1" 9000) issued_world.refresh_tokens
    ≡ answer (live_rows in_memory memory-Up "u1" 9000 issued_world)
unfolding handlers
found = refl

marked :
    in_memory.refresh_tokens.update_many
      (is_unrevoked_of "u1")
      (mark_revoked_at 9000)
      issued_world.refresh_tokens
    ≡ answer (1, revoked_world.refresh_tokens)
unfolding handlers
marked = refl

lasting :
    All
      (λ r. has_jti "r1" r ≡ true → Lasts 9000 600000 r)
      (live_rows in_memory memory-Up "u1" 9000 issued_world)
unfolding handlers
lasting = (λ e. omega arith, tt)

known : any (has_jti "r1") (live_rows in_memory memory-Up "u1" 9000 issued_world) ≡ true
unfolding handlers
known = refl

revoke_all_sessions-denied_example : is_denied in_memory "r1" 600000 revoked_world ≡ true
revoke_all_sessions-denied_example =
    revoke_all_sessions-denied in_memory memory-Up 3 "u1" 9000 issued_world revoked_world
      (live_rows in_memory memory-Up "u1" 9000 issued_world) (1, revoked_world.refresh_tokens) "r1"
      600000 found marked revoked (omega arith) lasting known

abbrev access_claims : AccessTokenPayload
access_claims = record {
  sub = "u1";
  email = "ann@example.com";
  role = user;
  name = "Ann";
  jti = "a1";
  iss = "api";
  aud = "web";
  iat = 0;
  exp = 900;
}

abbrev signed_out : World in_memory
signed_out = (revoke_access_jti in_memory "a1" 900 2000 issued_world).1

out : revoke_access_jti in_memory "a1" 900 2000 issued_world ≡ (ok tt, signed_out)
unfolding handlers
out = refl

-- The platform whose Redis drops writes until the time 5000; the first pair's marker is there.
abbrev down : Platform
down = record in_memory { redis = down_until 5000 }

abbrev before : World down
before = record {
  users = [];
  refresh_tokens = [];
  accounts = [];
  property_index = [];
  leads = [];
  favorites = [];
  saved_searches = [];
  areas = [];
  developers = [];
  compounds = [];
  compound_amenities = [];
  listings = [];
  redis = issued_world.redis;
}

abbrev after : World down
after = (rotate down signer ann first browser "a2" "r2" 2000 before).1

writes_fail : WritesFail down 2000
writes_fail = record {
  why = "connection is closed";
  no_set_ex = λ k v s st. refl;
  no_unlink = λ ks st. refl;
}

rotated_down :
    rotate down signer ann first browser "a2" "r2" 2000 before ≡ (ok (pair "a2" "r2" 2), after)
unfolding handlers
rotated_down = refl

still_active : is_active down "u1" "r1" 9000 before ≡ true
unfolding handlers
still_active = refl

still_free : is_denied down "r1" 9000 before ≡ false
unfolding handlers
still_free = refl

rotate-replayed_example :
    verify_refresh_token down signer 3 (refresh first) 9000 after ≡ (ok first, after)
rotate-replayed_example =
    rotate-replayed down signer 3 ann first browser "a2" "r2" 2000 9000 before after
      (pair "a2" "r2" 2) writes_fail refl rotated_down refl refl (omega arith) still_active
      still_free
