-- ===== src/Users/Removal.antt =====
-- apps/api-core/src/modules/users: an administrator's removal of an account.
mod Tests
use real_estate_platform.Base.{
  ℕ, ◌≡◌, refl, sym, ap, ◌∙◌, Bool, true, false, not, String, List, [], ◌∷◌, some, none, keep, find,
  any, length, ◌==◌, arith,
}
use real_estate_platform.Exec.{ok, ok-injective}
use real_estate_platform.Exec.Inversion.{>>-ok, store-ok, throw_if-ok}
use real_estate_platform.Platform.{Platform, World}
use real_estate_platform.Schema.{User, Account}
use real_estate_platform.Secrets.{Secrets}
use real_estate_platform.Table.{patch}
use real_estate_platform.Table.Checks.{require-ok}
use real_estate_platform.Tokens.{revoke_all_sessions}
use real_estate_platform.Auth.{LoginDto, has_id, has_email, on_users, validate_credentials}
use real_estate_platform.Auth.Credentials.{validate_credentials-IsLogin}
use real_estate_platform.Auth.Google.{on_accounts}
use real_estate_platform.Auth.Passwords.{revoke_all_sessions-Keeps}
use real_estate_platform.Users.{anonymised, ensure_exists, remove, own_deletion, no_such_user}

abbrev pub belongs_to : String → Account → Bool
belongs_to id a = a.user_id == id

none_left :
    (id : String) (rows : List Account)
    → any (belongs_to id) (keep (λ a. not (belongs_to id a)) rows) ≡ false
none_left id [] = refl
none_left id (a ∷ rows) = ground (arith, none_left id rows)

-- After a removal, an active row is another user's.
active_is_other :
    (email id : String) (us : List User) (u : User)
    → find (has_email email) (patch (has_id id) (anonymised id) us) ≡ some u
    → u.is_active ≡ true
    → (u.id == id) ≡ false
unfolding anonymised
active_is_other email id [] u e h = absurd (ground arith)
active_is_other email id (v ∷ us) u e h = ground (arith, active_is_other email id us u)

module _ (p : Platform) where
  -- The rows of a user and of the linked accounts before and after a removal.
  pub record IsRemoved (id actor_id : String) (w w' : World p) : Type 0 where
    pub not_oneself : (id == actor_id) ≡ false
    pub registered : any (has_id id) (p.users.rows w.users) ≡ true
    pub users : p.users.rows w'.users ≡ patch (has_id id) (anonymised id) (p.users.rows w.users)
    pub unlinked : any (belongs_to id) (p.accounts.rows w'.accounts) ≡ false

  revoked-kept :
      (fuel : ℕ) (id : String) (now : ℕ) (w w' : World p) {x : Unit {0}}
      → revoke_all_sessions p fuel id now w ≡ (ok x, w')
      → (w'.users ≡ w.users) × (w'.accounts ≡ w.accounts)
  revoked-kept fuel id now w w' e = (
    sym (ap (λ r. r.1.users) e)
        ∙ revoke_all_sessions-Keeps p (λ v. v.users) (λ v k. refl) (λ v k. refl) fuel id now w,
    sym (ap (λ r. r.1.accounts) e)
        ∙ revoke_all_sessions-Keeps p (λ v. v.accounts) (λ v k. refl) (λ v k. refl) fuel id now w,
  )

  -- A removal that succeeds is of a registered user and not of the administrator; it answers the
  -- identifier, anonymises the user's row and no other, and leaves no account linked to the user.
  remove-IsRemoved :
      (fuel : ℕ) (id actor_id answered : String) (now : ℕ) (w w' : World p)
      → remove p fuel id actor_id now w ≡ (ok answered, w')
      → (answered ≡ id) × IsRemoved id actor_id w w'
  unfolding remove ensure_exists
  remove-IsRemoved fuel id actor_id answered now w w' e =
      let (a, w1, e1, rest1) = >>-ok _ _ w e in
      let (b, w2, e2, rest2) = >>-ok (ensure_exists p id) _ w1 rest1 in
      let (c, w3, e3, rest3) =
        >>-ok (on_users p (p.users.update (has_id id) (anonymised id))) _ w2 rest2 in
      let (d, w4, e4, rest4) =
        >>-ok (on_accounts p (p.accounts.delete_many (belongs_to id))) _ w3 rest3 in
      let (f, w5, e5, rest5) = >>-ok _ _ w4 rest4 in
      let (is_other, kept1) = throw_if-ok _ _ w e1 in
      let (known, kept2) =
        require-ok p.users (λ v. v.users) (has_id id) (no_such_user id) w1 w2 e2 in
      let (db, updated, written) = store-ok _ _ _ w2 e3 in
      let (links, deleted, unlinked) = store-ok _ _ _ w3 e4 in
      let same = kept2 ∙ kept1 in
      let last = ap (λ r. r.1) rest5 in
      let (users_kept, accounts_kept) = revoked-kept fuel id now w4 w5 e5 in
      (
        sym (ok-injective (ap (λ r. r.0) rest5)),
        record {
          not_oneself = is_other;
          registered = ap (λ v. any (has_id id) (p.users.rows v.users)) (sym kept1) ∙ known;
          users =
              ap p.users.rows (
                sym (ap (λ v. v.users) last)
                ∙ users_kept
                ∙ ap (λ v. v.users) unlinked
                ∙ ap (λ v. v.users) written)
              ∙ (p.users.update_rows _ _ w2.users (c, db) updated).1
              ∙ ap (λ v. patch (has_id id) (anonymised id) (p.users.rows v.users)) same;
          unlinked =
              ap (λ v. any (belongs_to id) (p.accounts.rows v))
                (sym (ap (λ v. v.accounts) last) ∙ accounts_kept ∙ ap (λ v. v.accounts) unlinked)
              ∙ ap (any (belongs_to id))
                  (p.accounts.delete_many_rows _ w3.accounts (d, links) deleted).1
              ∙ none_left id (p.accounts.rows w3.accounts);
        },
      )

  -- After a removal, no address and no password log in as the user who was removed.
  pub remove-no_login :
      (s : Secrets) (fuel : ℕ) (id actor_id answered : String) (now : ℕ) (dto : LoginDto)
      (w w' w'' : World p) (u : User)
      → remove p fuel id actor_id now w ≡ (ok answered, w')
      → validate_credentials p s dto w' ≡ (ok u, w'')
      → (u.id == id) ≡ false
  remove-no_login s fuel id actor_id answered now dto w w' w'' u e login =
      let (sent, removed) = remove-IsRemoved fuel id actor_id answered now w w' e in
      let (accepted, same) = validate_credentials-IsLogin p s dto w' w'' u login in
      active_is_other dto.email id (p.users.rows w.users) u
        (ap (find (has_email dto.email)) (sym removed.users) ∙ accepted.registered) accepted.active
