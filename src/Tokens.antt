-- ===== src/Tokens.antt =====
-- apps/api-core/src/modules/auth/token.service.ts: access and refresh tokens, rotation, revocation.
-- Signing and checking a JWT is the library's: a parameter. One call of the service reads the clock
-- once, `now`, in milliseconds.
pub mod Denial
pub mod Reach
pub mod Signer
mod Tests
pub mod Outage
pub mod Revocation
pub mod Rotation
use real_estate_platform.Base.{
  ℕ, suc, ◌+◌, ◌-◌, ◌*◌, ◌/◌, ◌<◌, ◌≡◌, max, Bool, true, false, not, ◌&&◌, ◌||◌, List, [], ◌∷◌,
  Option, none, some, String, ◌==◌, is_some, ltb, if◌then◌else◌, mentions, or_else,
}
use real_estate_platform.Enums.{UserRole}
use real_estate_platform.Errors.{
  Thrown, unauthorized_error, token_expired, invalid_token, refresh_token_reused,
}
use real_estate_platform.Exec.{
  Exec, Reply, answer, failed, query, store, change, catch_with, throw_if, throw, pure, ◌>>=◌, ◌>>◌,
  Result, ok,
}
use real_estate_platform.Schema.{RefreshToken}
use real_estate_platform.Duration.{seconds_from_now, seconds_until_expiry}
use real_estate_platform.Cache
use real_estate_platform.CacheKeys.{auth_denylist, auth_refresh, auth_refresh_pattern}
use real_estate_platform.Platform.{Platform, World}

pub record TokenSubject : Type 0 where
  pub id : String
  pub email : String
  pub name : String
  pub role : UserRole

-- Over the type of the tokens' texts.
pub record IssuedTokens (Token : Type 0) : Type 0 where
  pub access_token : Token
  pub refresh_token : Token
  pub expires_in : ℕ
  pub refresh_expires_in : ℕ

pub record SessionContext : Type 0 where
  pub user_agent : Option String
  pub ip_address : Option String

pub record AccessTokenPayload : Type 0 where
  pub sub : String
  pub email : String
  pub role : UserRole
  pub name : String
  pub jti : String
  pub iss : String
  pub aud : String
  pub iat : ℕ
  pub exp : ℕ

pub record RefreshTokenPayload : Type 0 where
  pub sub : String
  pub jti : String
  pub iss : String
  pub aud : String
  pub iat : ℕ
  pub exp : ℕ

-- What the library says of a token: its claims, or the message of the error.
pub data Verdict (A : Type 0) : Type 0 where
  valid : A → Verdict A
  rejected : String → Verdict A

-- `@nestjs/jwt`, at the secrets, issuer and audience of the configuration. A signed token is
-- checked back to its claims until the second in which it expires.
pub record Jwt : Type 1 where
  pub Token : Type 0
  pub issuer : String
  pub audience : String
  pub access_ttl : ℕ
  pub refresh_ttl : ℕ
  pub sign_access : AccessTokenPayload → Token
  pub sign_refresh : RefreshTokenPayload → Token
  pub verify_access : Token → ℕ → Verdict AccessTokenPayload
  pub verify_refresh : Token → ℕ → Verdict RefreshTokenPayload
  pub decode_refresh : Token → Option RefreshTokenPayload
  pub verify-sign_access :
      (c : AccessTokenPayload) (now : ℕ)
      → c.iss ≡ issuer
      → c.aud ≡ audience
      → now / 1000 < c.exp
      → verify_access (sign_access c) now ≡ valid c
  pub verify-sign_refresh :
      (c : RefreshTokenPayload) (now : ℕ)
      → c.iss ≡ issuer
      → c.aud ≡ audience
      → now / 1000 < c.exp
      → verify_refresh (sign_refresh c) now ≡ valid c
  pub decode-sign_refresh : (c : RefreshTokenPayload) → decode_refresh (sign_refresh c) ≡ some c
  -- `sha256Hex`, a digest of `node:crypto`.
  pub sha256_hex : Token → String

-- The error of a token that the library rejects.
unfoldable pub decode_error : String → Thrown
decode_error message =
    let expired = mentions message "expired" in
    unauthorized_error (if expired then "Token has expired" else "Token is invalid")
      (if expired then token_expired else invalid_token)

abbrev pub revoked_error : Thrown
revoked_error = unauthorized_error "Session has been revoked" invalid_token

abbrev pub reused_error : Thrown
reused_error = unauthorized_error "Refresh token has already been used" refresh_token_reused

abbrev pub no_longer_valid : Thrown
no_longer_valid = unauthorized_error "Refresh token is no longer valid" invalid_token

-- `where: { userId, revokedAt: null, expiresAt: { gt: now } }`.
abbrev pub is_live_of : String → ℕ → RefreshToken → Bool
is_live_of user_id now t =
    t.user_id == user_id && (not (is_some t.revoked_at) && ltb now t.expires_at)

abbrev pub is_unrevoked_of : String → RefreshToken → Bool
is_unrevoked_of user_id t = t.user_id == user_id && not (is_some t.revoked_at)

abbrev pub is_unrevoked_jti : String → RefreshToken → Bool
is_unrevoked_jti jti t = t.jti == jti && not (is_some t.revoked_at)

abbrev pub has_jti : String → RefreshToken → Bool
has_jti jti t = t.jti == jti

abbrev pub mark_revoked : ℕ → Option String → RefreshToken → RefreshToken
mark_revoked now replaced_by t = record t { revoked_at = some now; replaced_by_jti = replaced_by }

-- `revokeAllSessions` leaves `replacedByJti` as it is.
abbrev pub mark_revoked_at : ℕ → RefreshToken → RefreshToken
mark_revoked_at now t = record t { revoked_at = some now }

-- The seconds that a denylist entry of a live token is kept.
abbrev pub denylist_seconds : ℕ → ℕ → ℕ
denylist_seconds expires_at now = max 1 ((expires_at - now) / 1000)

-- `newJti?.jti`.
abbrev pub new_jti : Option RefreshTokenPayload → Option String
new_jti none = none
new_jti (some c) = some c.jti

-- The claims that the library signs into a refresh token.
abbrev pub refresh_claims : Jwt → String → String → ℕ → RefreshTokenPayload
refresh_claims jwt user_id jti now = record {
  sub = user_id;
  jti = jti;
  iss = jwt.issuer;
  aud = jwt.audience;
  iat = now / 1000;
  exp = now / 1000 + jwt.refresh_ttl;
}

module _ (p : Platform) where
  abbrev pub on_redis : {A : Type 0} → (p.redis.Store → A × p.redis.Store) → Exec (World p) A
  on_redis f = change (λ w. w.redis) (λ w d. record w { redis = d }) f

  abbrev pub on_refresh_tokens :
      {A : Type 0} → (p.refresh_tokens.Db → Reply (A × p.refresh_tokens.Db)) → Exec (World p) A
  on_refresh_tokens f = store (λ w. w.refresh_tokens) (λ w d. record w { refresh_tokens = d }) f

  -- The marker that a key carries; only its presence is read.
  abbrev pub put : String → ℕ → ℕ → Exec (World p) (Unit {0})
  put key ttl now = on_redis (λ st. (tt, Cache.set p.redis key "{}" ttl now st))

  unfoldable pub is_denied : String → ℕ → World p → Bool
  is_denied jti now w = Cache.exists p.redis (auth_denylist jti) now w.redis

  unfoldable pub is_active : String → String → ℕ → World p → Bool
  is_active user_id jti now w = Cache.exists p.redis (auth_refresh user_id jti) now w.redis

  -- `findUnique(…).catch(() => null)` and what is read of the row.
  unfoldable pub is_known_in_database : String → String → ℕ → World p → Bool
  is_known_in_database user_id jti now w =
      elim (p.refresh_tokens.find_first (has_jti jti) w.refresh_tokens) [
        | failed m ↦ false
        | answer none ↦ false
        | answer (some t) ↦ is_live_of user_id now t
      ]

  unfoldable pub remember_refresh_token :
      {Token : Type 0}
      → (Token → String)
      → ℕ
      → String
      → String
      → Token
      → SessionContext
      → ℕ
      → Exec (World p) (Unit {0})
  remember_refresh_token sha ttl user_id jti token context now = do
    put (auth_refresh user_id jti) ttl now
    catch_with tt (do
      on_refresh_tokens (
          p.refresh_tokens.create (record {
            user_id = user_id;
            jti = jti;
            token_hash = sha token;
            user_agent = context.user_agent;
            ip_address = context.ip_address;
            expires_at = seconds_from_now ttl now;
            revoked_at = none;
            replaced_by_jti = none;
          }))
      pure tt)

  -- `if (remaining > 0) await this.cache.set(authDenylist(jti), …, remaining)`.
  unfoldable pub deny_for : String → ℕ → ℕ → Exec (World p) (Unit {0})
  deny_for jti remaining now = elim (ltb 0 remaining) [
    | true ↦ put (auth_denylist jti) remaining now
    | false ↦ pure tt
  ]

  unfoldable pub revoke_refresh_jti :
      String → String → ℕ → Option String → ℕ → Exec (World p) (Unit {0})
  revoke_refresh_jti user_id jti exp replaced_by now = do
    deny_for jti (seconds_until_expiry exp now) now
    on_redis (Cache.del p.redis (auth_refresh user_id jti ∷ []) now)
    catch_with tt (do
      on_refresh_tokens
          (p.refresh_tokens.update_many (is_unrevoked_jti jti) (mark_revoked now replaced_by))
      pure tt)

  unfoldable pub revoke_access_jti : String → ℕ → ℕ → Exec (World p) (Unit {0})
  revoke_access_jti jti exp now = deny_for jti (seconds_until_expiry exp now) now

  -- `Promise.all` over the live tokens: one denylist entry each.
  unfoldable pub deny_all : List RefreshToken → ℕ → Exec (World p) (Unit {0})
  deny_all [] now = pure tt
  deny_all (t ∷ ts) now = do
    put (auth_denylist t.jti) (denylist_seconds t.expires_at now) now
    deny_all ts now

  -- The fuel bounds the batches of the key scan.
  unfoldable pub revoke_all_sessions : ℕ → String → ℕ → Exec (World p) (Unit {0})
  revoke_all_sessions fuel user_id now = do
    on_redis (Cache.del_by_pattern p.redis fuel (auth_refresh_pattern user_id) 250 now)
    live ←
        catch_with []
          (query (λ w. p.refresh_tokens.find_many (is_live_of user_id now) w.refresh_tokens))
    deny_all live now
    catch_with tt (do
      on_refresh_tokens
          (p.refresh_tokens.update_many (is_unrevoked_of user_id) (mark_revoked_at now))
      pure tt)

  unfoldable pub purge_expired_refresh_tokens : ℕ → Exec (World p) ℕ
  purge_expired_refresh_tokens now =
      on_refresh_tokens (p.refresh_tokens.delete_many (λ t. ltb t.expires_at now))

  abbrev pub decoded : {A : Type 0} → Verdict A → Exec (World p) A
  decoded (valid payload) = pure payload
  decoded (rejected message) = throw (decode_error message)

  -- `verifyRefreshToken` on the claims of a token that the library accepts.
  unfoldable pub check_refresh : ℕ → RefreshTokenPayload → ℕ → Exec (World p) RefreshTokenPayload
  check_refresh fuel payload now w = elim (is_denied payload.jti now w) [
    | true ↦ (revoke_all_sessions fuel payload.sub now >> throw reused_error) w
    | false ↦
        elim (is_active payload.sub payload.jti now w
          || is_known_in_database payload.sub payload.jti now w) [
            | true ↦ pure payload w
            | false ↦ throw no_longer_valid w
          ]
  ]

  module _ (jwt : Jwt) where
    unfoldable pub issue_tokens :
        TokenSubject
        → SessionContext
        → String
        → String
        → ℕ
        → Exec (World p) (IssuedTokens jwt.Token)
    issue_tokens user context access_jti refresh_jti now = do
      let access = jwt.sign_access (record {
        sub = user.id;
        email = user.email;
        role = user.role;
        name = user.name;
        jti = access_jti;
        iss = jwt.issuer;
        aud = jwt.audience;
        iat = now / 1000;
        exp = now / 1000 + jwt.access_ttl;
      })
      let refresh = jwt.sign_refresh (refresh_claims jwt user.id refresh_jti now)
      remember_refresh_token jwt.sha256_hex jwt.refresh_ttl user.id refresh_jti refresh context now
      pure (record {
        access_token = access;
        refresh_token = refresh;
        expires_in = jwt.access_ttl;
        refresh_expires_in = jwt.refresh_ttl;
      })

    unfoldable pub verify_access_token : jwt.Token → ℕ → Exec (World p) AccessTokenPayload
    verify_access_token token now = do
      payload ← decoded (jwt.verify_access token now)
      denied ← (λ w. (ok (is_denied payload.jti now w), w))
      throw_if denied revoked_error
      pure payload

    unfoldable pub verify_refresh_token : ℕ → jwt.Token → ℕ → Exec (World p) RefreshTokenPayload
    verify_refresh_token fuel token now = do
      payload ← decoded (jwt.verify_refresh token now)
      check_refresh fuel payload now

    unfoldable pub rotate :
        TokenSubject
        → RefreshTokenPayload
        → SessionContext
        → String
        → String
        → ℕ
        → Exec (World p) (IssuedTokens jwt.Token)
    rotate user old context access_jti refresh_jti now = do
      issued ← issue_tokens user context access_jti refresh_jti now
      revoke_refresh_jti old.sub old.jti old.exp (new_jti (jwt.decode_refresh issued.refresh_token))
          now
      pure issued
