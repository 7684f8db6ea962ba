-- ===== src/Auth/Changes.antt =====
-- What changing a password needs, and what it writes.
mod Tests
use real_estate_platform.Base.{
  ◌≡◌, sym, ap, ◌∙◌, Bool, true, false, not, Option, some, none, String, find, given, arith, ℕ,
}
use real_estate_platform.Exec.{ok, or_throw}
use real_estate_platform.Exec.Inversion.{
  >>=-ok, >>-ok, query-ok, store-ok, or_throw-ok, throw_if-ok,
}
use real_estate_platform.Schema.{User}
use real_estate_platform.Secrets.{Secrets, matches}
use real_estate_platform.Table.{patch}
use real_estate_platform.Platform.{Platform, World}
use real_estate_platform.Auth.{has_id, change_to, change_password, user_missing, no_password}
use real_estate_platform.Auth.Passwords.{revoke_all_sessions-users}

given-some : (o : Option String) (h : String) → given o ≡ some h → o ≡ some h
given-some o h e = ground arith

right_password : (b : Bool) → not b ≡ false → b ≡ true
right_password b h = ground arith

module _ (p : Platform) (s : Secrets) where
  -- The users' rows before and after a user has changed the password.
  pub record IsChanged (id current fresh salt : String) (w w' : World p) : Type 0 where
    pub user : User
    pub registered : find (has_id id) (p.users.rows w.users) ≡ some user
    pub hash : String
    pub has_hash : user.password_hash ≡ some hash
    pub right : matches s hash current ≡ true
    pub rows :
        p.users.rows w'.users
        ≡ patch (has_id id) (change_to (s.hash salt fresh)) (p.users.rows w.users)

  -- A password is changed only for a registered user whose stored hash the current password matches;
  -- then the rows of that id hold the hash of the new password, and no other user's row is written.
  change_password-IsChanged :
      (fuel : ℕ) (id current fresh salt : String) (now : ℕ) (w w' : World p) {x : Unit {0}}
      → change_password p s fuel id current fresh salt now w ≡ (ok x, w')
      → IsChanged id current fresh salt w w'
  unfolding change_password
  change_password-IsChanged fuel id current fresh salt now w w' e =
      let (found, w1, e1, rest1) = >>=-ok _ _ w e in
      let (u, w2, e2, rest2) = >>=-ok (or_throw found user_missing) _ w1 rest1 in
      let (hash, w3, e3, rest3) =
        >>=-ok (or_throw (given u.password_hash) no_password) _ w2 rest2 in
      let (b, w4, e4, rest4) = >>-ok _ _ w3 rest3 in
      let (row, w5, e5, rest5) = >>-ok _ _ w4 rest4 in
      let (replied, same1) = query-ok _ w e1 in
      let (is_found, same2) = or_throw-ok _ _ w1 e2 in
      let (has, same3) = or_throw-ok _ _ w2 e3 in
      let (matching, same4) = throw_if-ok _ _ w3 e4 in
      let (db, updated, written) = store-ok _ _ _ w4 e5 in
      let kept = same4 ∙ same3 ∙ same2 ∙ same1 in
      record {
        user = u;
        registered = sym (p.users.find_first_rows _ w.users found replied) ∙ is_found;
        hash = hash;
        has_hash = given-some u.password_hash hash has;
        right = right_password (matches s hash current) matching;
        rows =
            ap p.users.rows
              (sym (ap (λ r. r.1.users) rest5) ∙ revoke_all_sessions-users p fuel id now w5)
            ∙ ap (λ v. p.users.rows v.users) written
            ∙ (p.users.update_rows _ _ w4.users (row, db) updated).1
            ∙ ap (λ v. patch (has_id id) (change_to (s.hash salt fresh)) (p.users.rows v.users))
                kept;
      }
