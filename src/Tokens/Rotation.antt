-- ===== src/Tokens/Rotation.antt =====
-- One use of a refresh token: what rotation and reuse do.
use real_estate_platform.Base.{
  ℕ, ◌+◌, ◌/◌, ◌≤◌, ◌<◌, ◌≡◌, refl, sym, ap, ◌∙◌, Bool, true, false, ◌||◌, String, List, [], ◌∷◌,
  if◌then◌else◌, arith, subst, inl, inr, Bool-cases,
}
use real_estate_platform.Exec.{Result, ok, err, ok-injective, ◌>>◌, ◌>>=◌}
use real_estate_platform.Exec.Inversion.{>>-ok, >>=-ok, ok-not_err}
use real_estate_platform.Errors.{Thrown}
use real_estate_platform.Exec.Totality.{
  Runs, >>-Runs, >>=-Runs, catch_with-Runs, change-Runs, pure-Runs,
}
use real_estate_platform.Redis.Up.{Up}
use real_estate_platform.Platform.{Platform, World}
use real_estate_platform.Schema.{RefreshToken}
use real_estate_platform.Tokens.{
  TokenSubject, SessionContext, IssuedTokens, RefreshTokenPayload, Jwt, is_denied, is_active,
  is_known_in_database, put, deny_all, revoke_all_sessions, refresh_claims, check_refresh,
  verify_refresh_token, rotate, issue_tokens, reused_error, no_longer_valid,
}
use real_estate_platform.Tokens.Denial.{revoke_refresh_jti-denied, remember-marks}

chosen-ok :
    {W A : Type 0} (b : Bool) (a : A) (w : W) (x : Thrown) {c : A} {w' : W}
    → ◌≡◌ {A = Result A × W} (if b then (ok a, w) else (err x, w)) (ok c, w')
    → (c ≡ a) × (w' ≡ w)
chosen-ok b a w x e = (ground arith, ground arith)

module _ (p : Platform) where
  put-Runs : (k : String) (ttl now : ℕ) → Runs (put p k ttl now)
  put-Runs k ttl now = change-Runs _ _ _

  pub deny_all-Runs : (ts : List RefreshToken) (now : ℕ) → Runs (deny_all p ts now)
  unfolding deny_all
  deny_all-Runs [] now = pure-Runs tt
  deny_all-Runs (t ∷ ts) now = >>-Runs _ _ (put-Runs _ _ now) (deny_all-Runs ts now)

  -- Revoking all sessions of a user never throws.
  pub revoke_all_sessions-Runs :
      (fuel : ℕ) (u : String) (now : ℕ) → Runs (revoke_all_sessions p fuel u now)
  unfolding revoke_all_sessions
  revoke_all_sessions-Runs fuel u now = >>-Runs _ _ (change-Runs _ _ _) (
      >>=-Runs _ _ (catch_with-Runs [] _)
        (λ live. >>-Runs _ _ (deny_all-Runs live now) (catch_with-Runs tt _)))

  pub check_refresh-denied :
      (fuel : ℕ) (payload : RefreshTokenPayload) (now : ℕ) (w : World p)
      → is_denied p payload.jti now w ≡ true
      → check_refresh p fuel payload now w
        ≡ (err reused_error, (revoke_all_sessions p fuel payload.sub now w).1)
  unfolding check_refresh ◌>>◌
  check_refresh-denied fuel payload now w denied =
      let (a, w', e) = revoke_all_sessions-Runs fuel payload.sub now w in
      rw (check_refresh, denied, ◌>>◌, e) refl

  pub check_refresh-free :
      (fuel : ℕ) (payload : RefreshTokenPayload) (now : ℕ) (w : World p)
      → is_denied p payload.jti now w ≡ false
      → check_refresh p fuel payload now w ≡ (
          if is_active p payload.sub payload.jti now w
            || is_known_in_database p payload.sub payload.jti now w
          then (ok payload, w)
          else (err no_longer_valid, w))
  unfolding check_refresh
  check_refresh-free fuel payload now w free =
      elim (Bool-cases (
        is_active p payload.sub payload.jti now w
        || is_known_in_database p payload.sub payload.jti now w)) [
          | inl there ↦ rw (check_refresh, free, there) refl
          | inr lost ↦ rw (check_refresh, free, lost) refl
        ]

  -- An accepted token is not denied, and accepting it changes nothing.
  pub check_refresh-ok :
      (fuel : ℕ) (payload : RefreshTokenPayload) (now : ℕ) (w : World p) {c : RefreshTokenPayload}
      {w' : World p}
      → check_refresh p fuel payload now w ≡ (ok c, w')
      → (c ≡ payload) × (w' ≡ w) × (is_denied p payload.jti now w ≡ false)
  check_refresh-ok fuel payload now w e = elim (Bool-cases (is_denied p payload.jti now w)) [
    | inl denied ↦
        absurd (ok-not_err (ap (λ r. r.0) (sym e ∙ check_refresh-denied fuel payload now w denied)))
    | inr free ↦
        let (same, kept) =
          chosen-ok _ payload w no_longer_valid
            (sym (check_refresh-free fuel payload now w free) ∙ e) in
        (same, kept, free)
  ]

  module _ (jwt : Jwt) where
    -- A token that the library accepts is checked against the stores.
    pub verify-signed :
        (fuel : ℕ) (c : RefreshTokenPayload) (t : ℕ) (w : World p)
        → c.iss ≡ jwt.issuer
        → c.aud ≡ jwt.audience
        → t / 1000 < c.exp
        → verify_refresh_token p jwt fuel (jwt.sign_refresh c) t w ≡ check_refresh p fuel c t w
    unfolding verify_refresh_token ◌>>=◌
    verify-signed fuel c t w iss aud live = rw (jwt.verify-sign_refresh c t iss aud live) refl

    -- Once a refresh token has been rotated, Redis answering, each later use of it until it expires
    -- is refused as a reuse, and every session of its user is revoked.
    pub rotate-reuse :
        Up p.redis
        → (fuel : ℕ) (user : TokenSubject) (old : RefreshTokenPayload) (context : SessionContext)
          (access_jti refresh_jti : String) (now t : ℕ) (w w' : World p)
          (issued : IssuedTokens jwt.Token)
        → rotate p jwt user old context access_jti refresh_jti now w ≡ (ok issued, w')
        → old.iss ≡ jwt.issuer
        → old.aud ≡ jwt.audience
        → now ≤ t
        → t / 1000 < old.exp
        → verify_refresh_token p jwt fuel (jwt.sign_refresh old) t w'
          ≡ (err reused_error, (revoke_all_sessions p fuel old.sub t w').1)
    unfolding rotate
    rotate-reuse up fuel user old context aj rj now t w w' issued e iss aud later live =
        let (a, w1, e1, rest) = >>=-ok _ _ w e in
        let (b, w2, e2, rest2) = >>-ok _ _ w1 rest in
        let denied =
          revoke_refresh_jti-denied p up old.sub old.jti old.exp _ now t w1 w2 e2 later live in
        verify-signed fuel old t w' iss aud live
        ∙ check_refresh-denied fuel old t w'
            (subst (λ v. is_denied p old.jti t v ≡ true) (ap (λ r. r.1) rest2) denied)

    -- A pair that is issued holds a refresh token that is accepted until it expires, Redis
    -- answering, unless its identifier is on the denylist.
    issue_tokens-accepted :
        Up p.redis
        → (fuel : ℕ) (user : TokenSubject) (context : SessionContext)
          (access_jti refresh_jti : String) (now t : ℕ) (w w' : World p)
          (issued : IssuedTokens jwt.Token)
        → issue_tokens p jwt user context access_jti refresh_jti now w ≡ (ok issued, w')
        → is_denied p refresh_jti t w ≡ false
        → now ≤ t
        → t / 1000 < now / 1000 + jwt.refresh_ttl
        → verify_refresh_token p jwt fuel issued.refresh_token t w'
          ≡ (ok (refresh_claims jwt user.id refresh_jti now), w')
    unfolding issue_tokens
    issue_tokens-accepted up fuel user context aj rj now t w w' issued e free later live =
        let (a, w1, e1, rest) = >>-ok _ _ w e in
        let claims = refresh_claims jwt user.id rj now in
        let (kept, active) =
          remember-marks p up jwt.sha256_hex jwt.refresh_ttl user.id rj _ context now t w w1 e1
            later live in
        let there = ap (λ r. r.1) rest in
        let free' = subst (λ v. is_denied p rj t v ≡ false) there (kept rj ∙ free) in
        let active' = subst (λ v. is_active p user.id rj t v ≡ true) there active in
        ap (λ token. verify_refresh_token p jwt fuel token t w')
          (ap IssuedTokens.refresh_token (sym (ok-injective (ap (λ r. r.0) rest))))
        ∙ verify-signed fuel claims t w' refl refl live
        ∙ check_refresh-free fuel claims t w' free'
        ∙ rw active' refl
