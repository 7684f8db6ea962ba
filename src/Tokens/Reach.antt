-- ===== src/Tokens/Reach.antt =====
-- apps/api-core/src/modules/auth/token.service.ts: revoking all sessions of a user, and tokens that
-- are no refresh tokens.
use real_estate_platform.Base.{
  ℕ, ◌-◌, ◌/◌, ◌≤◌, ◌<◌, ◌≡◌, refl, sym, ap, ◌∙◌, Bool, false, String, List, [], ◌∷◌, none, is_some,
  ◌==◌, ◌=?◌, if◌then◌else◌, arith, eq_iff, max, any, keep,
}
use real_estate_platform.Exec.{
  Reply, failed, answer, ok, ok-injective, ◌>>◌, change, catch_with, query,
}
use real_estate_platform.Exec.Inversion.{>>-ok, >>=-ok}
use real_estate_platform.Cache
use real_estate_platform.Cache.Absence.{set-absent, sweep-IsGone}
use real_estate_platform.CacheKeys.{auth_denylist, auth_denylist-injective, auth_refresh_pattern}
use real_estate_platform.Platform.{Platform, World}
use real_estate_platform.Schema.{RefreshToken}
use real_estate_platform.Tokens.{
  is_denied, deny_all, denylist_seconds, has_jti, is_live_of, revoke_all_sessions, on_redis,
}
use real_estate_platform.Tokens.Denial.{dropped_error-redis}

entry_positive : (e n : ℕ) → 0 < max 1 ((e - n) / 1000)
entry_positive e n = ground arith

entry_differs : (i j : String) → (i == j) ≡ false → (auth_denylist i == auth_denylist j) ≡ false
entry_differs i j h =
    ground
      (arith, eq_iff (auth_denylist i) (auth_denylist j), auth_denylist-injective i j, eq_iff i j)

any-kept :
    (j : String) (q : RefreshToken → Bool) (rs : List RefreshToken)
    → any (has_jti j) rs ≡ false
    → any (has_jti j) (keep q rs) ≡ false
any-kept j q [] h = refl
any-kept j q (r ∷ rs) h = ground (arith, any-kept j q rs)

none_there : (b : Bool) (n : ℕ) → n ≡ (if b then 1 else 0) → b ≡ false → (n =? 1) ≡ false
none_there b n e h = ground arith

module _ (p : Platform) where
  -- A token is not denied when the denylist has no entry for it.
  pub not_denied :
      (j : String) (t : ℕ) (w : World p)
      → p.redis.at (auth_denylist j) t w.redis ≡ none
      → is_denied p j t w ≡ false
  unfolding is_denied Cache.exists
  not_denied j t w h = go (p.redis.exists (auth_denylist j) t w.redis) refl
    where
      go :
          (reply : Reply ℕ)
          → p.redis.exists (auth_denylist j) t w.redis ≡ reply
          → (elim reply [ failed m ↦ false | answer n ↦ n =? 1 ]) ≡ false
      go (failed m) e = refl
      go (answer n) e =
          none_there (is_some (p.redis.at (auth_denylist j) t w.redis)) n
            (p.redis.exists_at (auth_denylist j) t w.redis n e) (ap is_some h)

  deny_all-absent :
      (ts : List RefreshToken) (j : String) (now t : ℕ) (w : World p)
      → now ≤ t
      → any (has_jti j) ts ≡ false
      → p.redis.at (auth_denylist j) t w.redis ≡ none
      → p.redis.at (auth_denylist j) t (deny_all p ts now w).1.redis ≡ none
  unfolding deny_all ◌>>◌ change
  deny_all-absent [] j now t w later unlisted h = h
  deny_all-absent (r ∷ ts) j now t w later unlisted h =
      let others : any (has_jti j) ts ≡ false = ground arith in
      let differ : (r.jti == j) ≡ false = ground arith in
      deny_all-absent ts j now t _ later others (
        set-absent p.redis (auth_denylist r.jti) "{}" (denylist_seconds r.expires_at now) now
          w.redis (auth_denylist j) t (entry_positive r.expires_at now) later
          (entry_differs r.jti j differ) h)

  asked-unlisted :
      (u j : String) (now : ℕ) (w w' : World p) (ts : List RefreshToken)
      → any (has_jti j) (p.refresh_tokens.rows w.refresh_tokens) ≡ false
      → catch_with []
          (query (λ v. p.refresh_tokens.find_many (is_live_of u now) v.refresh_tokens))
          w
        ≡ (ok ts, w')
      → (any (has_jti j) ts ≡ false) × (w' ≡ w)
  unfolding catch_with query
  asked-unlisted u j now w w' ts unlisted =
      go (p.refresh_tokens.find_many (is_live_of u now) w.refresh_tokens) refl
    where
      go :
          (reply : Reply (List RefreshToken))
          → p.refresh_tokens.find_many (is_live_of u now) w.refresh_tokens ≡ reply
          → catch_with {W = World p} [] (query (λ v. reply)) w ≡ (ok ts, w')
          → (any (has_jti j) ts ≡ false) × (w' ≡ w)
      go (failed m) h e = (
        ap (λ us. any (has_jti j) us) (sym (ok-injective (ap (λ r. r.0) e))),
        sym (ap (λ r. r.1) e),
      )
      go (answer rs) h e = (
        ap (any (has_jti j))
              (sym (ok-injective (ap (λ r. r.0) e)) ∙ p.refresh_tokens.find_many_rows _ _ rs h)
            ∙ any-kept j (is_live_of u now) (p.refresh_tokens.rows w.refresh_tokens) unlisted,
        sym (ap (λ r. r.1) e),
      )

  pub revoke_all_sessions-absent :
      (fuel : ℕ) (u j : String) (now t : ℕ) (w w' : World p) {x : Unit {0}}
      → revoke_all_sessions p fuel u now w ≡ (ok x, w')
      → now ≤ t
      → any (has_jti j) (p.refresh_tokens.rows w.refresh_tokens) ≡ false
      → p.redis.at (auth_denylist j) t w.redis ≡ none
      → p.redis.at (auth_denylist j) t w'.redis ≡ none
  unfolding revoke_all_sessions change Cache.del_by_pattern
  revoke_all_sessions-absent fuel u j now t w w' e later unlisted h =
      let (a, w1, e1, rest) =
        >>-ok (on_redis p (Cache.del_by_pattern p.redis fuel (auth_refresh_pattern u) 250 now)) _ w
          e in
      let (ts, w2, e2, rest2) = >>=-ok _ _ w1 rest in
      let (c, w3, e3, rest3) = >>-ok (deny_all p ts now) _ w2 rest2 in
      let swept =
        ap (λ r. p.redis.at (auth_denylist j) t r.1.redis) (sym e1)
        ∙ sweep-IsGone p.redis fuel "0" (auth_refresh_pattern u) 250 now 0 w.redis (auth_denylist j)
            t h in
      let unlisted1 =
        ap (λ r. any (has_jti j) (p.refresh_tokens.rows r.1.refresh_tokens)) (sym e1) ∙ unlisted in
      let (none_of, same) = asked-unlisted u j now w1 w2 ts unlisted1 e2 in
      ap (λ st. p.redis.at (auth_denylist j) t st) (dropped_error-redis p _ w3 w' rest3)
      ∙ ap (λ r. p.redis.at (auth_denylist j) t r.1.redis) (sym e3)
      ∙ deny_all-absent ts j now t w2 later none_of
          (ap (λ v. p.redis.at (auth_denylist j) t v.redis) same ∙ swept)
