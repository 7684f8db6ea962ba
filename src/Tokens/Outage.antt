-- ===== src/Tokens/Outage.antt =====
-- apps/api-core/src/modules/auth/token.service.ts: a rotation while Redis throws.
use real_estate_platform.Base.{
  ℕ, ◌/◌, ◌<◌, ◌≡◌, refl, sym, ap, ◌∙◌, Bool, true, false, String, List, Option, ltb, ◌∷◌, [],
}
use real_estate_platform.Exec.{failed, ok, change}
use real_estate_platform.Exec.Inversion.{>>-ok, >>=-ok}
use real_estate_platform.Cache
use real_estate_platform.CacheKeys.{auth_refresh, auth_denylist}
use real_estate_platform.Platform.{Platform, World}
use real_estate_platform.Duration.{seconds_until_expiry}
use real_estate_platform.Tokens.{
  TokenSubject, SessionContext, IssuedTokens, RefreshTokenPayload, Jwt, is_denied, is_active, put,
  deny_for, rotate, issue_tokens, on_redis, verify_refresh_token, remember_refresh_token,
  revoke_refresh_jti,
}
use real_estate_platform.Tokens.Denial.{dropped_error-redis}
use real_estate_platform.Tokens.Rotation.{verify-signed, check_refresh-free}

module _ (p : Platform) where
  -- At this time each write of Redis throws.
  pub record WritesFail (now : ℕ) : Type 0 where
    pub why : String
    pub no_set_ex :
        (k v : String) (secs : ℕ) (st : p.redis.Store) → p.redis.set_ex k v secs now st ≡ failed why
    pub no_unlink : (ks : List String) (st : p.redis.Store) → p.redis.unlink ks now st ≡ failed why

  put-dropped :
      (k : String) (ttl now : ℕ) (w w' : World p) {x : Unit {0}}
      → WritesFail now
      → ltb 0 ttl ≡ true
      → put p k ttl now w ≡ (ok x, w')
      → w'.redis ≡ w.redis
  unfolding change Cache.set
  put-dropped k ttl now w w' down positive e =
      ap (λ r. r.1.redis) (sym e) ∙ rw (Cache.set, positive, down.no_set_ex k "{}" ttl w.redis) refl

  deny_for-dropped :
      (j : String) (ttl now : ℕ) (w w' : World p) {x : Unit {0}}
      → WritesFail now
      → deny_for p j ttl now w ≡ (ok x, w')
      → w'.redis ≡ w.redis
  unfolding deny_for
  deny_for-dropped j ttl now w w' down e = go (ltb 0 ttl) refl
    where
      go : (b : Bool) → ltb 0 ttl ≡ b → w'.redis ≡ w.redis
      go true h = put-dropped (auth_denylist j) ttl now w w' down h (rw (deny_for, h) at e)
      go false h = ap (λ r. r.1.redis) (sym (rw (deny_for, h) at e))

  drop-dropped :
      (k : String) (now : ℕ) (w w' : World p) {n : ℕ}
      → WritesFail now
      → on_redis p (Cache.del p.redis (k ∷ []) now) w ≡ (ok n, w')
      → w'.redis ≡ w.redis
  unfolding change Cache.del
  drop-dropped k now w w' down e =
      ap (λ r. r.1.redis) (sym e) ∙ rw (Cache.del, down.no_unlink (k ∷ []) w.redis) refl

  revoke-dropped :
      (u j : String) (exp : ℕ) (by : Option String) (now : ℕ) (w w' : World p) {x : Unit {0}}
      → WritesFail now
      → revoke_refresh_jti p u j exp by now w ≡ (ok x, w')
      → w'.redis ≡ w.redis
  unfolding revoke_refresh_jti
  revoke-dropped u j exp by now w w' down e =
      let (a, w1, e1, rest) = >>-ok _ _ w e in
      let (b, w2, e2, rest2) = >>-ok _ _ w1 rest in
      dropped_error-redis p _ w2 w' rest2
      ∙ drop-dropped (auth_refresh u j) now w1 w2 down e2
      ∙ deny_for-dropped j (seconds_until_expiry exp now) now w w1 down e1

  active-of_redis :
      (u j : String) (t : ℕ) (w w' : World p)
      → w'.redis ≡ w.redis
      → is_active p u j t w' ≡ is_active p u j t w
  unfolding is_active
  active-of_redis u j t w w' same = ap (λ st. Cache.exists p.redis (auth_refresh u j) t st) same

  denied-same :
      (j : String) (t : ℕ) (w w' : World p)
      → w'.redis ≡ w.redis
      → is_denied p j t w' ≡ is_denied p j t w
  unfolding is_denied
  denied-same j t w w' same = ap (λ st. Cache.exists p.redis (auth_denylist j) t st) same

  module _ (jwt : Jwt) where
    issue-dropped :
        (user : TokenSubject) (context : SessionContext) (access_jti refresh_jti : String) (now : ℕ)
        (w w' : World p) (issued : IssuedTokens jwt.Token)
        → WritesFail now
        → ltb 0 jwt.refresh_ttl ≡ true
        → issue_tokens p jwt user context access_jti refresh_jti now w ≡ (ok issued, w')
        → w'.redis ≡ w.redis
    unfolding issue_tokens remember_refresh_token
    issue-dropped user context aj rj now w w' issued down positive e =
        let (a, w1, e1, rest) = >>-ok _ _ w e in
        let (b, w2, e2, rest2) = >>-ok _ _ w e1 in
        ap (λ r. r.1.redis) (sym rest)
        ∙ dropped_error-redis p _ w2 w1 rest2
        ∙ put-dropped _ jwt.refresh_ttl now w w2 down positive e2

    -- Where each write of Redis throws while a refresh token is rotated, its marker is still there
    -- later and it is not on the denylist, the rotated token is accepted again, whatever the database
    -- has been told.
    pub rotate-replayed :
        (fuel : ℕ) (user : TokenSubject) (old : RefreshTokenPayload) (context : SessionContext)
        (access_jti refresh_jti : String) (now t : ℕ) (w w' : World p)
        (issued : IssuedTokens jwt.Token)
        → WritesFail now
        → ltb 0 jwt.refresh_ttl ≡ true
        → rotate p jwt user old context access_jti refresh_jti now w ≡ (ok issued, w')
        → old.iss ≡ jwt.issuer
        → old.aud ≡ jwt.audience
        → t / 1000 < old.exp
        → is_active p old.sub old.jti t w ≡ true
        → is_denied p old.jti t w ≡ false
        → verify_refresh_token p jwt fuel (jwt.sign_refresh old) t w' ≡ (ok old, w')
    unfolding rotate
    rotate-replayed fuel user old context aj rj now t w w' issued down positive e iss aud live
          active free =
        let (a, w1, e1, rest) = >>=-ok _ _ w e in
        let (b, w2, e2, rest2) = >>-ok _ _ w1 rest in
        let same =
          ap (λ r. r.1.redis) (sym rest2)
          ∙ revoke-dropped old.sub old.jti old.exp _ now w1 w2 down e2
          ∙ issue-dropped user context aj rj now w w1 a down positive e1 in
        verify-signed p jwt fuel old t w' iss aud live
        ∙ check_refresh-free p fuel old t w' (denied-same old.jti t w w' same ∙ free)
        ∙ rw (active-of_redis old.sub old.jti t w w' same, active) refl
