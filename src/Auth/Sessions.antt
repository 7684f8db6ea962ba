-- ===== src/Auth/Sessions.antt =====
-- Sessions: refreshing one and ending one.
use real_estate_platform.Base.{
  ℕ, ◌+◌, ◌*◌, ◌/◌, ◌≤◌, ◌<◌, ◌≡◌, sym, ap, ◌∙◌, subst, inl, inr, Bool, true, false, not, some,
  none, String, find, arith, ltb, ◌==◌, Bool-cases,
}
use real_estate_platform.Exec.{ok, err, ok-injective, catch_with, ◌>>=◌}
use real_estate_platform.Exec.Inversion.{>>=-ok, >>-ok, query-ok, or_throw-ok, throw_if-ok}
use real_estate_platform.Redis.Up.{Up}
use real_estate_platform.Schema.{User}
use real_estate_platform.Platform.{Platform, World}
use real_estate_platform.Tokens.{
  SessionContext, Jwt, RefreshTokenPayload, AccessTokenPayload, is_denied, revoke_all_sessions,
  verify_refresh_token, verify_access_token, reused_error, revoked_error, rotate, revoke_access_jti,
  deny_for,
}
use real_estate_platform.Tokens.Rotation.{
  rotate-reuse, verify-signed, check_refresh-ok, check_refresh-denied,
}
use real_estate_platform.Tokens.Denial.{revoke_refresh_jti-denied}
use real_estate_platform.Tokens.Revocation.{
  put_entry-denied, revoke_access_jti-denied, verify_access-denied,
}
use real_estate_platform.Duration.{seconds_until_expiry}
use real_estate_platform.Auth.{
  AuthResult, to_public_user, to_subject, has_id, refresh, logout, end_refresh, end_session,
  end_access,
}

live_before : (n t e : ℕ) → n ≤ t → t / 1000 < e → n / 1000 < e
live_before n t e h k = ground arith

lt_of_ltb : (n : ℕ) → ltb 0 n ≡ true → 0 < n
lt_of_ltb n h = ground arith

lt_le : (a b c : ℕ) → a < b → b ≤ c → a < c
lt_le a b c h k = omega arith

not-true : (b : Bool) → not b ≡ false → b ≡ true
not-true b h = ground arith

module _ (p : Platform) (jwt : Jwt) where
  -- What a refresh that succeeds means: an active user, and a token that is used up.
  pub record UsedUp (fuel : ℕ) (old : RefreshTokenPayload) (t : ℕ) (w w' : World p)
      (r : AuthResult jwt.Token) : Type 0 where
    pub account : User
    pub registered : find (has_id old.sub) (p.users.rows w.users) ≡ some account
    pub active : account.is_active ≡ true
    pub answered : r.user ≡ to_public_user account
    pub replayed :
        verify_refresh_token p jwt fuel (jwt.sign_refresh old) t w'
        ≡ (err reused_error, (revoke_all_sessions p fuel old.sub t w').1)

  -- A refresh that succeeds, Redis answering, was asked for a registered and active user, answers
  -- that user, and uses its token up: each later use of it until it expires is refused as a reuse and
  -- ends every session of the user.
  pub refresh-UsedUp :
      Up p.redis
      → (fuel : ℕ) (old : RefreshTokenPayload) (context : SessionContext)
        (access_jti refresh_jti : String) (now t : ℕ) (w w' : World p) (r : AuthResult jwt.Token)
      → refresh p jwt fuel (jwt.sign_refresh old) context access_jti refresh_jti now w ≡ (ok r, w')
      → old.iss ≡ jwt.issuer
      → old.aud ≡ jwt.audience
      → now ≤ t
      → t / 1000 < old.exp
      → UsedUp fuel old t w w' r
  unfolding refresh
  refresh-UsedUp up fuel old context aj rj now t w w' r e iss aud later live =
      let (c, w1, e1, rest1) = >>=-ok _ _ w e in
      let (found, w2, e2, rest2) = >>=-ok _ _ w1 rest1 in
      let (u, w3, e3, rest3) = >>=-ok _ _ w2 rest2 in
      let (b, w4, e4, rest4) = >>-ok _ _ w3 rest3 in
      let (tokens, w5, e5, rest5) = >>=-ok _ _ w4 rest4 in
      let checked =
        sym (verify-signed p jwt fuel old now w iss aud (live_before now t old.exp later live))
        ∙ e1 in
      let (same, kept, free) = check_refresh-ok p fuel old now w checked in
      let (replied, kept2) = query-ok _ w1 e2 in
      let (listed, kept3) = or_throw-ok _ _ w2 e3 in
      let (active, kept4) = throw_if-ok _ _ w3 e4 in
      let rows = sym (p.users.find_first_rows _ w1.users found replied) ∙ listed in
      record {
        account = u;
        registered =
            ap (λ v. find (has_id old.sub) (p.users.rows v.users)) (sym kept)
            ∙ ap (λ k. find (has_id k.sub) (p.users.rows w1.users)) (sym same)
            ∙ rows;
        active = not-true u.is_active active;
        answered = ap (λ x. x.user) (sym (ok-injective (ap (λ x. x.0) rest5)));
        replayed =
            rotate-reuse p jwt up fuel (to_subject u) old context aj rj now t w4 w' tokens
              (ap (λ k. rotate p jwt (to_subject u) k context aj rj now w4) (sym same)
                ∙ e5
                ∙ ap (λ v. (ok tokens, v)) (ap (λ x. x.1) rest5))
              iss aud later live;
      }

  -- The refresh token of a session is refused as a reuse at the time t, the access token at the
  -- time s.
  pub record Ended (fuel : ℕ) (c : RefreshTokenPayload) (a : AccessTokenPayload) (t s : ℕ)
      (w' : World p) : Type 0 where
    pub no_refresh :
        verify_refresh_token p jwt fuel (jwt.sign_refresh c) t w'
        ≡ (err reused_error, (revoke_all_sessions p fuel c.sub t w').1)
    pub no_access : verify_access_token p jwt (jwt.sign_access a) s w' ≡ (err revoked_error, w')

  module _ (up : Up p.redis) where
    other_entry :
        (i j : String) (ttl now t : ℕ) → (i == j) ≡ false → (i == j) ≡ true → t < now + ttl * 1000
    other_entry i j ttl now t differ same = absurd (ground arith)

    revoke_access_jti-keeps :
        (i j : String) (exp now t : ℕ) (w w' : World p) {x : Unit {0}}
        → revoke_access_jti p i exp now w ≡ (ok x, w')
        → now ≤ t
        → (i == j) ≡ false
        → is_denied p j t w ≡ true
        → is_denied p j t w' ≡ true
    unfolding revoke_access_jti deny_for
    revoke_access_jti-keeps i j exp now t w w' e later differ h =
        elim (Bool-cases (ltb 0 (seconds_until_expiry exp now))) [
          | inl positive ↦
              let stored = rw (deny_for, positive) at e in
              subst (λ r. is_denied p j t r.1 ≡ true) stored
                (put_entry-denied p up i j (seconds_until_expiry exp now) now t w
                  (lt_of_ltb _ positive) later
                  (other_entry i j (seconds_until_expiry exp now) now t differ) h)
          | inr gone ↦
              let stored = rw (deny_for, gone) at e in
              subst (λ v. is_denied p j t v ≡ true) (ap (λ r. r.1) stored) h
        ]

    end_refresh-denied :
        (fuel : ℕ) (c : RefreshTokenPayload) (now t : ℕ) (w w' : World p) {x : Unit {0}}
        → verify_refresh_token p jwt fuel (jwt.sign_refresh c) now w ≡ (ok c, w)
        → end_refresh p jwt fuel (some (jwt.sign_refresh c)) now w ≡ (ok x, w')
        → now ≤ t
        → t / 1000 < c.exp
        → is_denied p c.jti t w' ≡ true
    unfolding end_refresh catch_with ◌>>=◌ end_session
    end_refresh-denied fuel c now t w w' accepted e later live =
        revoke_refresh_jti-denied p up c.sub c.jti c.exp none now t w w' (rw accepted at e) later
          live

    -- A logout with a refresh token that is accepted and the access token of the principal, Redis
    -- answering, ends both: from then on the refresh token is refused as a reuse until it expires
    -- itself, and the access token until it expires, if it expires no later than one that is issued
    -- at the logout, both have the issuer and the audience of the library, and their identifiers
    -- differ.
    pub logout-Ended :
        (fuel : ℕ) (c : RefreshTokenPayload) (a : AccessTokenPayload) (now t s : ℕ) (w w' : World p)
        {x : Unit {0}}
        → verify_refresh_token p jwt fuel (jwt.sign_refresh c) now w ≡ (ok c, w)
        → logout p jwt fuel (some a.jti) (some (jwt.sign_refresh c)) now w ≡ (ok x, w')
        → c.iss ≡ jwt.issuer
        → c.aud ≡ jwt.audience
        → a.iss ≡ jwt.issuer
        → a.aud ≡ jwt.audience
        → a.exp ≤ now / 1000 + jwt.access_ttl
        → (a.jti == c.jti) ≡ false
        → now ≤ t
        → t / 1000 < c.exp
        → now ≤ s
        → s / 1000 < a.exp
        → Ended fuel c a t s w'
    unfolding logout end_access
    logout-Ended fuel c a now t s w w' accepted e ciss caud aiss aaud early differ clater clive
          alater alive =
        let (b, w1, e1, rest) =
          >>-ok (end_refresh p jwt fuel (some (jwt.sign_refresh c)) now) _ w e in
        let denied = end_refresh-denied fuel c now t w w1 accepted e1 clater clive in
        let denied' = revoke_access_jti-keeps a.jti c.jti _ now t w1 w' rest clater differ denied in
        let exp = now / 1000 + jwt.access_ttl in
        record {
          no_refresh =
              verify-signed p jwt fuel c t w' ciss caud clive
              ∙ check_refresh-denied p fuel c t w' denied';
          no_access = verify_access-denied p jwt a s w' aiss aaud alive (
              revoke_access_jti-denied p up a.jti exp now s w1 w' rest alater
                (lt_le _ _ _ alive early));
        }
