-- ===== src/Tokens/Revocation.antt =====
-- What revoking all sessions of a user, or one access token, does to the tokens in circulation.
use real_estate_platform.Base.{
  ℕ, ◌+◌, ◌-◌, ◌*◌, ◌/◌, ◌≤◌, ◌<◌, ◌≡◌, refl, sym, ap, ◌∙◌, subst, Bool, true, false, not, String,
  List, [], ◌∷◌, some, none, Option, is_some, ltb, ◌==◌, if◌then◌else◌, arith, eq_iff, inl, inr,
  Bool-cases, max, All, any, keep,
}
use real_estate_platform.Exec.{
  answer, ok, ok-injective, err, ◌>>◌, ◌>>=◌, change, query, catch_with, throw_if,
}
use real_estate_platform.Exec.Inversion.{>>-ok, >>=-ok}
use real_estate_platform.Redis.Up.{Up}
use real_estate_platform.Table.{patch}
use real_estate_platform.Cache
use real_estate_platform.Cache.Laws.{set-at}
use real_estate_platform.CacheKeys.{auth_denylist, auth_denylist-injective}
use real_estate_platform.Platform.{Platform, World}
use real_estate_platform.Schema.{RefreshToken}
use real_estate_platform.Duration.{seconds_until_expiry}
use real_estate_platform.Tokens.{
  AccessTokenPayload, Jwt, is_denied, put, deny_all, denylist_seconds, has_jti, is_live_of,
  is_unrevoked_of, mark_revoked_at, revoke_all_sessions, revoke_access_jti, revoked_error,
  verify_access_token, on_redis,
}
use real_estate_platform.Tokens.Denial.{
  is_denied-at, put-denied, denied-of_redis, dropped_error-answered, deny_for-denied, still_live,
  live_at,
}

-- No session of the user is left unrevoked, and the rows of the others are as they were.
none_unrevoked :
    (u : String) (now : ℕ) (rs : List RefreshToken)
    → any (is_unrevoked_of u) (patch (is_unrevoked_of u) (mark_revoked_at now) rs) ≡ false
none_unrevoked u now [] = refl
none_unrevoked u now (r ∷ rs) = ground (arith, none_unrevoked u now rs)

abbrev pub of_others : String → RefreshToken → Bool
of_others u t = not (t.user_id == u)

others_kept :
    (u : String) (now : ℕ) (rs : List RefreshToken)
    → keep (of_others u) (patch (is_unrevoked_of u) (mark_revoked_at now) rs)
      ≡ keep (of_others u) rs
others_kept u now [] = refl
others_kept u now (r ∷ rs) = ground (arith, others_kept u now rs)

-- The denylist entry of a row lasts past the time `t`.
abbrev pub Lasts : ℕ → ℕ → RefreshToken → Type 0
Lasts now t r = t < now + denylist_seconds r.expires_at now * 1000

entry_positive : (e n : ℕ) → 0 < max 1 ((e - n) / 1000)
entry_positive e n = ground arith

ltb_of_lt : (a b : ℕ) → a < b → ltb a b ≡ true
ltb_of_lt a b h = ground arith

entry_stays :
    (i j : String) (end t : ℕ) (o : Option String)
    → ((i == j) ≡ true → t < end)
    → is_some o ≡ true
    → is_some
        (if auth_denylist i == auth_denylist j then (if ltb t end then some "{}" else none) else o)
      ≡ true
entry_stays i j end t o lasts h =
    ground
      (arith, eq_iff (auth_denylist i) (auth_denylist j), auth_denylist-injective i j, eq_iff i j)

module _ (p : Platform) (up : Up p.redis) where
  pub put_entry-denied :
      (i j : String) (ttl now t : ℕ) (w : World p)
      → 0 < ttl
      → now ≤ t
      → ((i == j) ≡ true → t < now + ttl * 1000)
      → is_denied p j t w ≡ true
      → is_denied p j t (put p (auth_denylist i) ttl now w).1 ≡ true
  unfolding change
  put_entry-denied i j ttl now t w positive later lasts h =
      let after =
        set-at p.redis up (auth_denylist i) "{}" ttl now w.redis positive (auth_denylist j) t
          later in
      let before = sym (is_denied-at p up j t w) ∙ h in
      is_denied-at p up j t (put p (auth_denylist i) ttl now w).1
      ∙ ap is_some after
      ∙ entry_stays i j (now + ttl * 1000) t (p.redis.at (auth_denylist j) t w.redis) lasts before

  deny_all-keeps :
      (ts : List RefreshToken) (j : String) (now t : ℕ) (w : World p)
      → now ≤ t
      → All (λ r. has_jti j r ≡ true → Lasts now t r) ts
      → is_denied p j t w ≡ true
      → is_denied p j t (deny_all p ts now w).1 ≡ true
  unfolding deny_all ◌>>◌ change
  deny_all-keeps [] j now t w later lasts h = h
  deny_all-keeps (r ∷ ts) j now t w later lasts h = deny_all-keeps ts j now t _ later lasts.1 (
      put_entry-denied r.jti j (denylist_seconds r.expires_at now) now t w
        (entry_positive r.expires_at now) later lasts.0 h)

  deny_all-denied :
      (ts : List RefreshToken) (j : String) (now t : ℕ) (w : World p)
      → now ≤ t
      → All (λ r. has_jti j r ≡ true → Lasts now t r) ts
      → any (has_jti j) ts ≡ true
      → is_denied p j t (deny_all p ts now w).1 ≡ true
  unfolding deny_all ◌>>◌ change
  deny_all-denied [] j now t w later lasts h = absurd (ground arith)
  deny_all-denied (r ∷ ts) j now t w later lasts h = elim (Bool-cases (r.jti == j)) [
    | inr differ ↦ deny_all-denied ts j now t _ later lasts.1 (rw differ at h)
    | inl same ↦ deny_all-keeps ts j now t _ later lasts.1 (
        subst
          (λ i.
            is_denied p j t (put p (auth_denylist i) (denylist_seconds r.expires_at now) now w).1
            ≡ true)
          (sym ((eq_iff r.jti j).0 same))
          (put-denied p up j (denylist_seconds r.expires_at now) now t w
            (entry_positive r.expires_at now) later (ltb_of_lt _ _ (lasts.0 same))))
  ]

  -- The rows that are left after all sessions of a user have been revoked.
  pub record RowsRevoked (u : String) (w w' : World p) : Type 0 where
    pub none_left : any (is_unrevoked_of u) (p.refresh_tokens.rows w'.refresh_tokens) ≡ false
    pub others :
        keep (of_others u) (p.refresh_tokens.rows w'.refresh_tokens)
        ≡ keep (of_others u) (p.refresh_tokens.rows w.refresh_tokens)

  abbrev pub live_rows : String → ℕ → World p → List RefreshToken
  live_rows u now w = keep (is_live_of u now) (p.refresh_tokens.rows w.refresh_tokens)

  query_answered :
      (u : String) (now : ℕ) (w : World p) (rs : List RefreshToken)
      → p.refresh_tokens.find_many (is_live_of u now) w.refresh_tokens ≡ answer rs
      → catch_with []
          (query (λ v. p.refresh_tokens.find_many (is_live_of u now) v.refresh_tokens))
          w
        ≡ (ok rs, w)
  unfolding catch_with query
  query_answered u now w rs e = rw e refl

  deny_all-database :
      (ts : List RefreshToken) (now : ℕ) (w : World p)
      → (deny_all p ts now w).1.refresh_tokens ≡ w.refresh_tokens
  unfolding deny_all ◌>>◌ change
  deny_all-database [] now w = refl
  deny_all-database (t ∷ ts) now w = deny_all-database ts now _

  -- The state before the rows are marked: they are as they were, and the live tokens are denied.
  revoking :
      (fuel : ℕ) (u : String) (now : ℕ) (w w' : World p) (rs : List RefreshToken)
      (a : ℕ × p.refresh_tokens.Db) {x : Unit {0}}
      → p.refresh_tokens.find_many (is_live_of u now) w.refresh_tokens ≡ answer rs
      → p.refresh_tokens.update_many (is_unrevoked_of u) (mark_revoked_at now) w.refresh_tokens
        ≡ answer a
      → revoke_all_sessions p fuel u now w ≡ (ok x, w')
      → (v : World p) × (w'.redis ≡ (deny_all p (live_rows u now w) now v).1.redis)
        × (w'.refresh_tokens ≡ a.1)
  unfolding revoke_all_sessions change
  revoking fuel u now w w' rs a found marked e =
      let (b, w1, e1, rest) =
        >>-ok (on_redis p (Cache.del_by_pattern p.redis fuel _ 250 now)) _ w e in
      let (ts, w2, e2, rest2) = >>=-ok _ _ w1 rest in
      let (c, w3, e3, rest3) = >>-ok (deny_all p ts now) _ w2 rest2 in
      let database1 = ap (λ r. r.1.refresh_tokens) (sym e1) in
      let asked =
        sym (
          query_answered u now w1 rs
            (ap (λ d. p.refresh_tokens.find_many (is_live_of u now) d) database1 ∙ found))
        ∙ e2 in
      let live : ts ≡ live_rows u now w =
        sym (ok-injective (ap (λ r. r.0) asked)) ∙ p.refresh_tokens.find_many_rows _ _ rs found in
      let database3 =
        ap (λ r. r.1.refresh_tokens) (sym e3)
        ∙ deny_all-database ts now w2
        ∙ ap (λ r. r.1.refresh_tokens) (sym asked)
        ∙ database1 in
      let mark = p.refresh_tokens.update_many (is_unrevoked_of u) (mark_revoked_at now) in
      let done =
        dropped_error-answered (λ v. v.refresh_tokens) (λ v d. record v { refresh_tokens = d }) mark
          w3 (ap mark database3 ∙ marked) in
      let end = sym rest3 ∙ done in
      (
        w2,
        ap (λ r. r.1.redis) end
            ∙ ap (λ r. r.1.redis) (sym e3)
            ∙ ap (λ us. (deny_all p us now w2).1.redis) live,
        ap (λ r. r.1.refresh_tokens) end,
      )

  -- Where the database and Redis answer, revoking all sessions of a user leaves no unrevoked row of
  -- the user, and keeps the rows of the others.
  revoke_all_sessions-RowsRevoked :
      (fuel : ℕ) (u : String) (now : ℕ) (w w' : World p) (rs : List RefreshToken)
      (a : ℕ × p.refresh_tokens.Db) {x : Unit {0}}
      → p.refresh_tokens.find_many (is_live_of u now) w.refresh_tokens ≡ answer rs
      → p.refresh_tokens.update_many (is_unrevoked_of u) (mark_revoked_at now) w.refresh_tokens
        ≡ answer a
      → revoke_all_sessions p fuel u now w ≡ (ok x, w')
      → RowsRevoked u w w'
  revoke_all_sessions-RowsRevoked fuel u now w w' rs a found marked e =
      let (v, redis, database) = revoking fuel u now w w' rs a found marked e in
      let rows =
        ap p.refresh_tokens.rows database
        ∙ (p.refresh_tokens.update_many_rows (is_unrevoked_of u) (mark_revoked_at now)
            w.refresh_tokens a marked).1 in
      record {
        none_left = ap (any (is_unrevoked_of u)) rows ∙ none_unrevoked u now _;
        others = ap (keep (of_others u)) rows ∙ others_kept u now _;
      }

  -- Where the database and Redis answer, revoking all sessions of a user denies each token that was
  -- live, at every time at which the denylist entries of all its rows last.
  pub revoke_all_sessions-denied :
      (fuel : ℕ) (u : String) (now : ℕ) (w w' : World p) (rs : List RefreshToken)
      (a : ℕ × p.refresh_tokens.Db) {x : Unit {0}} (j : String) (t : ℕ)
      → p.refresh_tokens.find_many (is_live_of u now) w.refresh_tokens ≡ answer rs
      → p.refresh_tokens.update_many (is_unrevoked_of u) (mark_revoked_at now) w.refresh_tokens
        ≡ answer a
      → revoke_all_sessions p fuel u now w ≡ (ok x, w')
      → now ≤ t
      → All (λ r. has_jti j r ≡ true → Lasts now t r) (live_rows u now w)
      → any (has_jti j) (live_rows u now w) ≡ true
      → is_denied p j t w' ≡ true
  revoke_all_sessions-denied fuel u now w w' rs a j t found marked e later lasts known =
      let (v, redis, database) = revoking fuel u now w w' rs a found marked e in
      denied-of_redis p j t (deny_all p (live_rows u now w) now v).1 w' redis
        (deny_all-denied (live_rows u now w) j now t v later lasts known)

  pub revoke_access_jti-denied :
      (j : String) (exp now t : ℕ) (w w' : World p) {x : Unit {0}}
      → revoke_access_jti p j exp now w ≡ (ok x, w')
      → now ≤ t
      → t / 1000 < exp
      → is_denied p j t w' ≡ true
  unfolding revoke_access_jti
  revoke_access_jti-denied j exp now t w w' e later live =
      subst (λ v. is_denied p j t v ≡ true) (ap (λ r. r.1) e)
        (deny_for-denied p up j (seconds_until_expiry exp now) now t w
          (still_live now t exp later live) later (live_at now t exp later live))

module _ (p : Platform) (jwt : Jwt) where
  pub verify_access-denied :
      (c : AccessTokenPayload) (t : ℕ) (w : World p)
      → c.iss ≡ jwt.issuer
      → c.aud ≡ jwt.audience
      → t / 1000 < c.exp
      → is_denied p c.jti t w ≡ true
      → verify_access_token p jwt (jwt.sign_access c) t w ≡ (err revoked_error, w)
  unfolding verify_access_token ◌>>=◌ throw_if ◌>>◌
  verify_access-denied c t w iss aud live denied =
      rw (jwt.verify-sign_access c t iss aud live, denied) refl

  -- An access token that has been revoked, Redis answering, is refused for as long as the
  -- library would accept it.
  revoke_access_jti-refused :
      Up p.redis
      → (c : AccessTokenPayload) (now t : ℕ) (w w' : World p) {x : Unit {0}}
      → revoke_access_jti p c.jti c.exp now w ≡ (ok x, w')
      → c.iss ≡ jwt.issuer
      → c.aud ≡ jwt.audience
      → now ≤ t
      → t / 1000 < c.exp
      → verify_access_token p jwt (jwt.sign_access c) t w' ≡ (err revoked_error, w')
  revoke_access_jti-refused up c now t w w' e iss aud later live =
      verify_access-denied c t w' iss aud live
        (revoke_access_jti-denied p up c.jti c.exp now t w w' e later live)
