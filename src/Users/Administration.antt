-- ===== src/Users/Administration.antt =====
-- apps/api-core/src/modules/users: an administrator's change of an account.
use real_estate_platform.Base.{
  ℕ, ◌≤◌, ◌≡◌, refl, sym, ap, ◌∙◌, ◌⊎◌, inl, inr, Bool, true, false, not, ◌&&◌, ◌||◌, String, some,
  none, find, any, ◌==◌, arith, some-injective,
}
use real_estate_platform.Enums.{superadmin, same_role}
use real_estate_platform.Exec.{Result, ok, ok-injective, ◌>>◌, ◌>>=◌, throw_if, or_throw}
use real_estate_platform.Exec.Inversion.{
  >>-ok, >>=-ok, query-ok, store-ok, or_throw-ok, throw_if-ok,
}
use real_estate_platform.CacheKeys.{auth_denylist}
use real_estate_platform.Platform.{Platform, World}
use real_estate_platform.Schema.{User}
use real_estate_platform.Table.{patch}
use real_estate_platform.Tokens.{AccessTokenPayload, has_jti, is_denied}
use real_estate_platform.Tokens.Reach.{revoke_all_sessions-absent, not_denied}
use real_estate_platform.Auth.{has_id, find_user, on_users}
use real_estate_platform.Auth.Passwords.{revoke_all_sessions-users}
use real_estate_platform.Guards.{validate, authenticated_user_from_payload}
use real_estate_platform.Users.{
  AdminUpdateUserDto, Actor, apply_admin, changes_role, deactivates, assert_may_change_role,
  revoke_if, admin_update, no_such_user,
}

pure-kept :
    {W A : Type 0} {a b : A} {w w' : W} → ◌≡◌ {A = Result A × W} (ok a, w) (ok b, w') → w' ≡ w
pure-kept e = ground arith

module _ (p : Platform) where
  assert_may_change_role-ok :
      (b : Bool) (actor : Actor) (id : String) (w w' : World p) {x : Unit {0}}
      → assert_may_change_role p b actor id w ≡ (ok x, w')
      → (w' ≡ w)
        × ((b ≡ false)
            ⊎ ((not (same_role actor.role superadmin) ≡ false) × ((actor.id == id) ≡ false)))
  unfolding assert_may_change_role
  assert_may_change_role-ok false actor id w w' e = (sym (ap (λ r. r.1) e), inl refl)
  assert_may_change_role-ok true actor id w w' e =
      let (a, w1, e1, rest) = >>-ok _ _ w e in
      let (is_super, kept1) = throw_if-ok _ _ w e1 in
      let (is_other, kept2) = throw_if-ok _ _ w1 rest in (kept2 ∙ kept1, inr (is_super, is_other))

  revoke_if-users :
      (b : Bool) (fuel : ℕ) (id : String) (now : ℕ) (w : World p)
      → (revoke_if p b fuel id now w).1.users ≡ w.users
  unfolding revoke_if
  revoke_if-users false fuel id now w = refl
  revoke_if-users true fuel id now w = revoke_all_sessions-users p fuel id now w

  -- An administrator's change that is allowed.
  pub record IsAllowed (id : String) (dto : AdminUpdateUserDto) (actor : Actor) (w w' : World p)
      (u : User) : Type 0 where
    pub target : User
    pub registered : find (has_id id) (p.users.rows w.users) ≡ some target
    pub role :
        (changes_role dto.role target.role ≡ false)
        ⊎ ((not (same_role actor.role superadmin) ≡ false) × ((actor.id == id) ≡ false))
    pub not_oneself : (deactivates dto.is_active && actor.id == id) ≡ false
    pub changed : u ≡ apply_admin dto target
    pub stored : p.users.rows w'.users ≡ patch (has_id id) (apply_admin dto) (p.users.rows w.users)

  -- A change by an administrator that succeeds is of a registered user; it changes the role only for
  -- a superadmin who is another user, never deactivates the administrator, answers the changed user
  -- and stores that change.
  pub admin_update-IsAllowed :
      (fuel : ℕ) (id : String) (dto : AdminUpdateUserDto) (actor : Actor) (now : ℕ) (w w' : World p)
      (u : User)
      → admin_update p fuel id dto actor now w ≡ (ok u, w')
      → IsAllowed id dto actor w w' u
  unfolding admin_update
  admin_update-IsAllowed fuel id dto actor now w w' u e =
      let (found, w1, e1, rest1) = >>=-ok (find_user p (has_id id)) _ w e in
      let (target, w2, e2, rest2) = >>=-ok (or_throw found (no_such_user id)) _ w1 rest1 in
      let (a, w3, e3, rest3) =
        >>-ok (assert_may_change_role p (changes_role dto.role target.role) actor id) _ w2 rest2 in
      let (b, w4, e4, rest4) = >>-ok _ _ w3 rest3 in
      let (v, w5, e5, rest5) =
        >>=-ok (on_users p (p.users.update (has_id id) (apply_admin dto))) _ w4 rest4 in
      let (c, w6, e6, rest6) = >>-ok (revoke_if p _ fuel id now) _ w5 rest5 in
      let (asked, kept1) = query-ok _ w e1 in
      let (is_found, kept2) = or_throw-ok _ _ w1 e2 in
      let (kept3, allowed) =
        assert_may_change_role-ok (changes_role dto.role target.role) actor id w2 w3 e3 in
      let (other, kept4) = throw_if-ok _ _ w3 e4 in
      let (db, updated, written) = store-ok _ _ _ w4 e5 in
      let same = kept4 ∙ kept3 ∙ kept2 ∙ kept1 in
      let listed = sym (p.users.find_first_rows _ w.users found asked) ∙ is_found in
      let ((row, was, is_changed), rows) = p.users.update_rows _ _ w4.users (v, db) updated in
      let one =
        some-injective
          (sym (ap (λ x. find (has_id id) (p.users.rows x.users)) (sym same) ∙ was) ∙ listed) in
      record {
        target = target;
        registered = listed;
        role = allowed;
        not_oneself = other;
        changed = sym (ok-injective (ap (λ r. r.0) rest6)) ∙ is_changed ∙ ap (apply_admin dto) one;
        stored =
            ap p.users.rows (
              sym (ap (λ r. r.1.users) rest6)
              ∙ ap (λ r. r.1.users) (sym e6)
              ∙ revoke_if-users _ fuel id now w5
              ∙ ap (λ x. x.users) written)
            ∙ rows
            ∙ ap (λ x. patch (has_id id) (apply_admin dto) (p.users.rows x.users)) same;
      }

  revoke_if-absent :
      (b : Bool) (fuel : ℕ) (id j : String) (now t : ℕ) (w w' : World p) {x : Unit {0}}
      → revoke_if p b fuel id now w ≡ (ok x, w')
      → now ≤ t
      → any (has_jti j) (p.refresh_tokens.rows w.refresh_tokens) ≡ false
      → p.redis.at (auth_denylist j) t w.redis ≡ none
      → p.redis.at (auth_denylist j) t w'.redis ≡ none
  unfolding revoke_if
  revoke_if-absent false fuel id j now t w w' e later unlisted h =
      ap (λ r. p.redis.at (auth_denylist j) t r.1.redis) (sym e) ∙ h
  revoke_if-absent true fuel id j now t w w' e later unlisted h =
      revoke_all_sessions-absent p fuel id j now t w w' e later unlisted h

  validate-free :
      (c : AccessTokenPayload) (t : ℕ) (w : World p)
      → (c.sub == "" || c.jti == "") ≡ false
      → is_denied p c.jti t w ≡ false
      → validate p c t w ≡ (ok (authenticated_user_from_payload c), w)
  unfolding validate ◌>>=◌ ◌>>◌ throw_if
  validate-free c t w full free = rw (full, free) refl

  -- Whatever an administrator changes, deactivation and demotion included, an access token with an
  -- identifier that no refresh token has and that is not on the denylist still passes the guard
  -- afterwards, with the role that it was issued with.
  pub admin_update-access_kept :
      (fuel : ℕ) (id : String) (dto : AdminUpdateUserDto) (actor : Actor) (c : AccessTokenPayload)
      (now t : ℕ) (w w' : World p) (u : User)
      → admin_update p fuel id dto actor now w ≡ (ok u, w')
      → now ≤ t
      → (c.sub == "" || c.jti == "") ≡ false
      → any (has_jti c.jti) (p.refresh_tokens.rows w.refresh_tokens) ≡ false
      → p.redis.at (auth_denylist c.jti) t w.redis ≡ none
      → validate p c t w' ≡ (ok (authenticated_user_from_payload c), w')
  unfolding admin_update
  admin_update-access_kept fuel id dto actor c now t w w' u e later full unlisted h =
      let (found, w1, e1, rest1) = >>=-ok (find_user p (has_id id)) _ w e in
      let (target, w2, e2, rest2) = >>=-ok (or_throw found (no_such_user id)) _ w1 rest1 in
      let (a, w3, e3, rest3) =
        >>-ok (assert_may_change_role p (changes_role dto.role target.role) actor id) _ w2 rest2 in
      let (b, w4, e4, rest4) = >>-ok _ _ w3 rest3 in
      let (v, w5, e5, rest5) =
        >>=-ok (on_users p (p.users.update (has_id id) (apply_admin dto))) _ w4 rest4 in
      let (d, w6, e6, rest6) = >>-ok (revoke_if p _ fuel id now) _ w5 rest5 in
      let (asked, kept1) = query-ok _ w e1 in
      let (is_found, kept2) = or_throw-ok _ _ w1 e2 in
      let (kept3, allowed) =
        assert_may_change_role-ok (changes_role dto.role target.role) actor id w2 w3 e3 in
      let (other, kept4) = throw_if-ok _ _ w3 e4 in
      let (db, updated, written) = store-ok _ _ _ w4 e5 in
      let same = kept4 ∙ kept3 ∙ kept2 ∙ kept1 in
      let unlisted5 =
        ap (λ x. any (has_jti c.jti) (p.refresh_tokens.rows x.refresh_tokens)) written
        ∙ ap (λ x. any (has_jti c.jti) (p.refresh_tokens.rows x.refresh_tokens)) same
        ∙ unlisted in
      let absent5 =
        ap (λ x. p.redis.at (auth_denylist c.jti) t x.redis) written
        ∙ ap (λ x. p.redis.at (auth_denylist c.jti) t x.redis) same
        ∙ h in
      let absent6 = revoke_if-absent _ fuel id c.jti now t w5 w6 e6 later unlisted5 absent5 in
      let absent = ap (λ r. p.redis.at (auth_denylist c.jti) t r.1.redis) (sym rest6) ∙ absent6 in
      validate-free c t w' full (not_denied p c.jti t w' absent)
