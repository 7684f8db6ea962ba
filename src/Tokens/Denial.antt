-- ===== src/Tokens/Denial.antt =====
-- The denylist and the refresh markers that the token service keeps in Redis, where Redis answers.
use real_estate_platform.Base.{
  ℕ, ◌+◌, ◌-◌, ◌*◌, ◌/◌, ◌≤◌, ◌<◌, ◌≡◌, refl, sym, ap, ◌∙◌, true, false, String, [], ◌∷◌, Option,
  is_some, ltb, ◌==◌, arith, eq_refl, eq_iff, ◌⊎◌, inl, inr,
}
use real_estate_platform.Exec.{
  Reply, failed, answer, Result, ok, store, catch_with, pure, ◌>>◌, change,
}
use real_estate_platform.Exec.Inversion.{>>-ok}
use real_estate_platform.Duration.{seconds_until_expiry}
use real_estate_platform.Redis.Up.{Up}
use real_estate_platform.Cache
use real_estate_platform.Cache.Laws.{exists-at, set-at, del-at}
use real_estate_platform.CacheKeys.{auth_denylist, auth_refresh, auth_denylist-auth_refresh}
use real_estate_platform.Platform.{Platform, World}
use real_estate_platform.Tokens.{
  is_denied, is_active, deny_for, put, on_redis, on_refresh_tokens, revoke_refresh_jti,
  remember_refresh_token, SessionContext,
}

-- A write whose error is dropped answers, with the write done or nothing changed.
pub dropped_error :
    {W D A : Type 0} (read : W → D) (write : W → D → W) (f : D → Reply (A × D)) (w : W)
    → (catch_with tt (store read write f >> pure tt) w ≡ (ok tt, w))
      ⊎ ((a : A × D) × (f (read w) ≡ answer a)
          × (catch_with tt (store read write f >> pure tt) w ≡ (ok tt, write w a.1)))
unfolding catch_with store ◌>>◌
dropped_error {D} {A} read write f w = go (f (read w)) refl
  where
    go :
        (r : Reply (A × D))
        → f (read w) ≡ r
        → (catch_with tt (store read write f >> pure tt) w ≡ (ok tt, w))
          ⊎ ((a : A × D) × (f (read w) ≡ answer a)
              × (catch_with tt (store read write f >> pure tt) w ≡ (ok tt, write w a.1)))
    go (failed m) h = inl (ground arith)
    go (answer (a, d)) h = inr ((a, d), h, ground arith)

pub dropped_error-answered :
    {W D A : Type 0} (read : W → D) (write : W → D → W) (f : D → Reply (A × D)) (w : W) {a : A × D}
    → f (read w) ≡ answer a
    → catch_with tt (store read write f >> pure tt) w ≡ (ok tt, write w a.1)
unfolding catch_with store ◌>>◌
dropped_error-answered read write f w e = rw (store, e) refl

pub live_at : (n t e : ℕ) → n ≤ t → t / 1000 < e → ltb t (n + (e - n / 1000) * 1000) ≡ true
live_at n t e h k = ground arith

pub still_live : (n t e : ℕ) → n ≤ t → t / 1000 < e → 0 < e - n / 1000
still_live n t e h k = ground arith

marker_lasts : (n t ttl : ℕ) → n ≤ t → t / 1000 < n / 1000 + ttl → ltb t (n + ttl * 1000) ≡ true
marker_lasts n t ttl h k = ground arith

ttl_positive : (n t ttl : ℕ) → n ≤ t → t / 1000 < n / 1000 + ttl → 0 < ttl
ttl_positive n t ttl h k = ground arith

true_of_positive : (n : ℕ) → 0 < n → ltb 0 n ≡ true
true_of_positive n h = ground arith

marker_is_no_entry : (u i j : String) → (auth_refresh u i == auth_denylist j) ≡ false
marker_is_no_entry u i j = ground (
  arith,
  auth_denylist-auth_refresh j u i,
  eq_iff (auth_denylist j) (auth_refresh u i),
  eq_iff (auth_refresh u i) (auth_denylist j),
)

module _ (p : Platform) where
  -- A call that writes refresh tokens in the database, its error dropped, leaves Redis as it was.
  pub dropped_error-redis :
      {A : Type 0} (f : p.refresh_tokens.Db → Reply (A × p.refresh_tokens.Db)) (w w' : World p)
      {x : Result (Unit {0})}
      → catch_with tt (on_refresh_tokens p f >> pure tt) w ≡ (x, w')
      → w'.redis ≡ w.redis
  dropped_error-redis f w w' e =
      elim (dropped_error (λ v. v.refresh_tokens) (λ v d. record v { refresh_tokens = d }) f w) [
        | inl same ↦ ap (λ a. a.1.redis) (sym e ∙ same)
        | inr (a, replied, done) ↦ ap (λ a. a.1.redis) (sym e ∙ done)
      ]

  pub denied-of_redis :
      (j : String) (t : ℕ) (w w' : World p)
      → w'.redis ≡ w.redis
      → is_denied p j t w ≡ true
      → is_denied p j t w' ≡ true
  unfolding is_denied
  denied-of_redis j t w w' same h = ap (λ st. Cache.exists p.redis (auth_denylist j) t st) same ∙ h

module _ (p : Platform) (up : Up p.redis) where
  pub is_denied-at :
      (j : String) (t : ℕ) (w : World p)
      → is_denied p j t w ≡ is_some (p.redis.at (auth_denylist j) t w.redis)
  unfolding is_denied
  is_denied-at j t w = exists-at p.redis up (auth_denylist j) t w.redis

  pub is_active-at :
      (u j : String) (t : ℕ) (w : World p)
      → is_active p u j t w ≡ is_some (p.redis.at (auth_refresh u j) t w.redis)
  unfolding is_active
  is_active-at u j t w = exists-at p.redis up (auth_refresh u j) t w.redis

  -- A denylist entry denies its token for as long as it lasts.
  pub put-denied :
      (j : String) (ttl now t : ℕ) (w : World p)
      → 0 < ttl
      → now ≤ t
      → ltb t (now + ttl * 1000) ≡ true
      → is_denied p j t (put p (auth_denylist j) ttl now w).1 ≡ true
  unfolding change
  put-denied j ttl now t w positive later lasts =
      is_denied-at j t (put p (auth_denylist j) ttl now w).1
      ∙ ap is_some (
          set-at p.redis up (auth_denylist j) "{}" ttl now w.redis positive (auth_denylist j) t
            later)
      ∙ (rw (eq_refl (auth_denylist j), lasts) refl)

  -- A marker of a session is no denylist entry.
  pub put_marker-denied :
      (u i j : String) (ttl now t : ℕ) (w : World p)
      → 0 < ttl
      → now ≤ t
      → is_denied p j t (put p (auth_refresh u i) ttl now w).1 ≡ is_denied p j t w
  unfolding change
  put_marker-denied u i j ttl now t w positive later =
      is_denied-at j t (put p (auth_refresh u i) ttl now w).1
      ∙ ap is_some (
          set-at p.redis up (auth_refresh u i) "{}" ttl now w.redis positive (auth_denylist j) t
            later
          ∙ rw (marker_is_no_entry u i j) refl)
      ∙ sym (is_denied-at j t w)

  drop_marker-denied :
      (u i j : String) (now t : ℕ) (w : World p)
      → is_denied p j t (on_redis p (Cache.del p.redis (auth_refresh u i ∷ []) now) w).1
        ≡ is_denied p j t w
  unfolding change
  drop_marker-denied u i j now t w =
      is_denied-at j t (on_redis p (Cache.del p.redis (auth_refresh u i ∷ []) now) w).1
      ∙ ap is_some (
          del-at p.redis up (auth_refresh u i) [] now w.redis (auth_denylist j) t
          ∙ rw (marker_is_no_entry u i j) refl)
      ∙ sym (is_denied-at j t w)

  pub deny_for-denied :
      (j : String) (ttl now t : ℕ) (w : World p)
      → 0 < ttl
      → now ≤ t
      → ltb t (now + ttl * 1000) ≡ true
      → is_denied p j t (deny_for p j ttl now w).1 ≡ true
  unfolding deny_for
  deny_for-denied j ttl now t w positive later lasts =
      rw (deny_for, true_of_positive ttl positive) (put-denied j ttl now t w positive later lasts)

  -- The session that is revoked is denied until its token expires.
  pub revoke_refresh_jti-denied :
      (u j : String) (exp : ℕ) (by : Option String) (now t : ℕ) (w w' : World p) {x : Unit {0}}
      → revoke_refresh_jti p u j exp by now w ≡ (ok x, w')
      → now ≤ t
      → t / 1000 < exp
      → is_denied p j t w' ≡ true
  unfolding revoke_refresh_jti
  revoke_refresh_jti-denied u j exp by now t w w' e later live =
      let (a, w1, e1, rest) = >>-ok _ _ w e in
      let (b, w2, e2, rest2) = >>-ok _ _ w1 rest in
      let positive = still_live now t exp later live in
      let denied =
        deny_for-denied j (seconds_until_expiry exp now) now t w positive later
          (live_at now t exp later live) in
      denied-of_redis p j t w2 w' (dropped_error-redis p _ w2 w' rest2) (
        ap (λ r. is_denied p j t r.1) (sym e2)
        ∙ drop_marker-denied u j j now t w1
        ∙ ap (λ r. is_denied p j t r.1) (sym e1)
        ∙ denied)

  -- A session that is remembered has its marker until its token expires, and denies no token.
  pub remember-marks :
      {Token : Type 0} (sha : Token → String) (ttl : ℕ) (u j : String) (token : Token)
      (context : SessionContext) (now t : ℕ) (w w' : World p) {x : Unit {0}}
      → remember_refresh_token p sha ttl u j token context now w ≡ (ok x, w')
      → now ≤ t
      → t / 1000 < now / 1000 + ttl
      → ((i : String) → is_denied p i t w' ≡ is_denied p i t w) × (is_active p u j t w' ≡ true)
  unfolding remember_refresh_token change
  remember-marks sha ttl u j token context now t w w' e later live =
      let (a, w1, e1, rest) = >>-ok (put p (auth_refresh u j) ttl now) _ w e in
      let same = dropped_error-redis p _ w1 w' rest ∙ ap (λ r. r.1.redis) (sym e1) in
      let positive = ttl_positive now t ttl later live in
      (
        λ i.
            is_denied-at i t w'
            ∙ ap (λ st. is_some (p.redis.at (auth_denylist i) t st)) same
            ∙ sym (is_denied-at i t (put p (auth_refresh u j) ttl now w).1)
            ∙ put_marker-denied u j i ttl now t w positive later,
        is_active-at u j t w'
            ∙ ap (λ st. is_some (p.redis.at (auth_refresh u j) t st)) same
            ∙ ap is_some (
                set-at p.redis up (auth_refresh u j) "{}" ttl now w.redis positive
                  (auth_refresh u j) t later)
            ∙ rw (eq_refl (auth_refresh u j), marker_lasts now t ttl later live) refl,
      )
