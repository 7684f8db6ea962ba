-- ===== src/Auth/Passwords.antt =====
-- Forgotten, reset and changed passwords.
use real_estate_platform.Base.{
  text_is, ℕ, ◌≤◌, ◌≡◌, refl, sym, ap, ◌∙◌, Bool, true, false, Option, some, none, String, find,
  keep, length, List, [], ◌∷◌, arith, ◌==◌, eq_iff, eq_refl, some-injective,
}
use real_estate_platform.Exec.{ok, err, answer, ◌>>=◌, ◌>>◌, query, or_throw, throw_if}
use real_estate_platform.Exec.Inversion.{>>=-ok, >>-ok, query-ok, store-ok, or_throw-ok}
use real_estate_platform.Exec.Frames.{
  Keeps, >>-Keeps, >>=-Keeps, catch_with-Keeps, pure-Keeps, query-Keeps, store-Keeps, change-Keeps,
}
use real_estate_platform.Schema.{User, RefreshToken}
use real_estate_platform.Secrets.{Secrets, matches, or_false}
use real_estate_platform.Table.{patch}
use real_estate_platform.Platform.{Platform, World}
use real_estate_platform.Tokens.{revoke_all_sessions, deny_all}
use real_estate_platform.Auth.{
  ResetPasswordDto, has_email, has_id, may_reset, reset_to, reset_invalid, reset_password,
  find_user, on_users, LoginDto, validate_credentials, accepted,
}

abbrev pub holds : String → User → Bool
holds hash u = text_is u.reset_token_hash hash

find-none_of_empty :
    (hash : String) (t : ℕ) (us : List User)
    → length (keep (holds hash) us) ≡ 0
    → find (may_reset hash t) us ≡ none
find-none_of_empty hash t [] h = refl
find-none_of_empty hash t (u ∷ us) h = ground (arith, find-none_of_empty hash t us)

found_holds :
    (hash : String) (t : ℕ) (us : List User) (u : User)
    → find (may_reset hash t) us ≡ some u
    → 1 ≤ length (keep (holds hash) us)
found_holds hash t [] u e = absurd (ground arith)
found_holds hash t (v ∷ us) u e = ground (arith, found_holds hash t us u)

cleared_of_absent :
    (hash id password : String) (us : List User)
    → length (keep (holds hash) us) ≡ 0
    → length (keep (holds hash) (patch (has_id id) (reset_to password) us)) ≡ 0
cleared_of_absent hash id password [] h = refl
cleared_of_absent hash id password (u ∷ us) h =
    ground (arith, cleared_of_absent hash id password us)

find-reset :
    (email id password : String) (us : List User) (u : User)
    → find (has_email email) us ≡ some u
    → u.id ≡ id
    → find (has_email email) (patch (has_id id) (reset_to password) us) ≡ some (reset_to password u)
find-reset email id password [] u e h = absurd (ground arith)
find-reset email id password (v ∷ us) u e h =
    ground (arith, find-reset email id password us u, eq_iff u.id id)

-- Once the one holder of a digest has been reset, nobody holds it.
cleared :
    (hash password : String) (now : ℕ) (us : List User) (u : User)
    → length (keep (holds hash) us) ≤ 1
    → find (may_reset hash now) us ≡ some u
    → length (keep (holds hash) (patch (has_id u.id) (reset_to password) us)) ≡ 0
cleared hash password now [] u h e = absurd (ground arith)
cleared hash password now (v ∷ us) u h e = ground (
  arith,
  cleared hash password now us u,
  found_holds hash now us u,
  cleared_of_absent hash u.id password us,
  eq_refl v.id,
)

module _ (p : Platform) where
  module _ {X : Type 0} (part : World p → X)
      (redis_free : (w : World p) (d : p.redis.Store) → part (record w { redis = d }) ≡ part w)
      (tokens_free : (w : World p) (d : p.refresh_tokens.Db)
        → part (record w { refresh_tokens = d }) ≡ part w) where
    deny_all-Keeps : (ts : List RefreshToken) (now : ℕ) → Keeps part (deny_all p ts now)
    unfolding deny_all
    deny_all-Keeps [] now = pure-Keeps _ tt
    deny_all-Keeps (t ∷ ts) now =
        >>-Keeps _ _ _ (change-Keeps _ _ _ _ redis_free) (deny_all-Keeps ts now)

    -- Revoking sessions writes Redis and the refresh tokens only.
    pub revoke_all_sessions-Keeps :
        (fuel : ℕ) (u : String) (now : ℕ) → Keeps part (revoke_all_sessions p fuel u now)
    unfolding revoke_all_sessions
    revoke_all_sessions-Keeps fuel u now = >>-Keeps _ _ _ (change-Keeps _ _ _ _ redis_free) (
        >>=-Keeps _ _ _ (catch_with-Keeps _ [] _ (query-Keeps _ _)) (λ live.
          >>-Keeps _ _ _ (deny_all-Keeps live now) (
            catch_with-Keeps _ tt _
              (>>-Keeps _ _ _ (store-Keeps _ _ _ _ tokens_free) (pure-Keeps _ tt)))))

  -- Revoking sessions writes no user.
  pub revoke_all_sessions-users :
      (fuel : ℕ) (u : String) (now : ℕ) → Keeps (λ w. w.users) (revoke_all_sessions p fuel u now)
  revoke_all_sessions-users = revoke_all_sessions-Keeps (λ w. w.users) (λ w d. refl) (λ w d. refl)

  module _ (s : Secrets) where
    nobody_resets :
        (fuel : ℕ) (dto : ResetPasswordDto) (salt : String) (t : ℕ) (w : World p)
        → p.users.find_first (may_reset (s.sha256_hex dto.token) t) w.users ≡ answer none
        → reset_password p s fuel dto salt t w ≡ (err reset_invalid, w)
    unfolding reset_password ◌>>=◌ query or_throw
    nobody_resets fuel dto salt t w e = rw e refl

    -- The users after a reset: the holder of the token has the new password.
    reset_rows :
        (fuel : ℕ) (dto : ResetPasswordDto) (salt : String) (now : ℕ) (w w' : World p)
        {x : Unit {0}}
        → reset_password p s fuel dto salt now w ≡ (ok x, w')
        → (u : User) × (find (may_reset (s.sha256_hex dto.token) now) (p.users.rows w.users)
            ≡ some u)
          × (p.users.rows w'.users
              ≡ patch (has_id u.id) (reset_to (s.hash salt dto.password)) (p.users.rows w.users))
    unfolding reset_password
    reset_rows fuel dto salt now w w' e =
        let (found, w1, e1, rest1) =
          >>=-ok (find_user p (may_reset (s.sha256_hex dto.token) now)) _ w e in
        let (u, w2, e2, rest2) = >>=-ok (or_throw found reset_invalid) _ w1 rest1 in
        let (row, w3, e3, rest3) =
          >>-ok (on_users p (p.users.update (has_id u.id) (reset_to (s.hash salt dto.password)))) _
            w2 rest2 in
        let (asked, kept1) = query-ok _ w e1 in
        let (is_found, kept2) = or_throw-ok _ _ w1 e2 in
        let (db, updated, written) = store-ok _ _ _ w2 e3 in
        let rows =
          ap (λ v. p.users.rows v.users) written
          ∙ (p.users.update_rows _ _ w2.users (row, db) updated).1
          ∙ ap
              (λ v.
                patch (has_id u.id) (reset_to (s.hash salt dto.password)) (p.users.rows v.users))
              (kept2 ∙ kept1) in
        (
          u,
          sym (p.users.find_first_rows _ w.users found asked) ∙ is_found,
          ap p.users.rows
                (sym (ap (λ r. r.1.users) rest3) ∙ revoke_all_sessions-users fuel u.id now w3)
              ∙ rows,
        )

    -- A reset token is good for one reset: where no two users hold its digest, a second reset with it
    -- is refused at any time at which the database answers, and changes nothing.
    pub reset_password-single_use :
        (fuel : ℕ) (dto again : ResetPasswordDto) (salt salt' : String) (now t : ℕ) (w w' : World p)
        (o : Option User) {x : Unit {0}}
        → length (keep (holds (s.sha256_hex dto.token)) (p.users.rows w.users)) ≤ 1
        → reset_password p s fuel dto salt now w ≡ (ok x, w')
        → again.token ≡ dto.token
        → p.users.find_first (may_reset (s.sha256_hex again.token) t) w'.users ≡ answer o
        → reset_password p s fuel again salt' t w' ≡ (err reset_invalid, w')
    reset_password-single_use fuel dto again salt salt' now t w w' o one e same replied =
        let hash = s.sha256_hex dto.token in
        let (u, listed, rows) = reset_rows fuel dto salt now w w' e in
        let nobody =
          ap (λ us. length (keep (holds hash) us)) rows
          ∙ cleared hash (s.hash salt dto.password) now (p.users.rows w.users) u one listed in
        let none_found =
          p.users.find_first_rows _ w'.users o replied
          ∙ ap (λ k. find (may_reset (s.sha256_hex k) t) (p.users.rows w'.users)) same
          ∙ find-none_of_empty hash t (p.users.rows w'.users) nobody in
        nobody_resets fuel again salt' t w' (replied ∙ ap answer none_found)

    can_login :
        (dto : LoginDto) (u : User) (hash : String) (w : World p)
        → p.users.find_first (has_email dto.email) w.users ≡ answer (some u)
        → u.password_hash ≡ some hash
        → (hash == "") ≡ false
        → matches s hash dto.password ≡ true
        → u.is_active ≡ true
        → validate_credentials p s dto w ≡ (ok u, w)
    unfolding validate_credentials ◌>>=◌ ◌>>◌ query or_throw throw_if accepted
    can_login dto u hash w e h full right active = rw (e, h, full, right, active) refl

    -- Where the holder of a reset token is the active user of an address, and the database answers,
    -- the new password logs in with that address after the reset.
    pub reset_password-login :
        (fuel : ℕ) (dto : ResetPasswordDto) (salt : String) (now : ℕ) (w w' : World p) (u : User)
        (email : String) (o : Option User) {x : Unit {0}}
        → find (may_reset (s.sha256_hex dto.token) now) (p.users.rows w.users) ≡ some u
        → find (has_email email) (p.users.rows w.users) ≡ some u
        → u.is_active ≡ true
        → reset_password p s fuel dto salt now w ≡ (ok x, w')
        → p.users.find_first (has_email email) w'.users ≡ answer o
        → validate_credentials p s (record { email = email; password = dto.password }) w'
          ≡ (ok (reset_to (s.hash salt dto.password) u), w')
    reset_password-login fuel dto salt now w w' u email o holder known active e replied =
        let hash = s.hash salt dto.password in
        let (v, listed, rows) = reset_rows fuel dto salt now w w' e in
        let same = some-injective (sym listed ∙ holder) in
        let now_found =
          p.users.find_first_rows _ w'.users o replied
          ∙ ap (find (has_email email)) rows
          ∙ find-reset email v.id hash (p.users.rows w.users) u known (ap (λ k. k.id) (sym same)) in
        can_login (record { email = email; password = dto.password }) (reset_to hash u) hash w'
          (replied ∙ ap answer now_found) refl (s.hash-not_empty salt dto.password)
          (ap or_false (s.verify-hash salt dto.password)) active
