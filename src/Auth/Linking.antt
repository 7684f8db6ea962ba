-- ===== src/Auth/Linking.antt =====
-- `validateGoogleUser` of apps/api-core/src/modules/auth/auth.service.ts, and the addresses of accounts.
use real_estate_platform.Base.{
  ℕ, ◌≡◌, refl, sym, ap, ◌∙◌, subst, inl, inr, Bool, true, false, not, Option, some, none, String,
  find, is_some,
}
use real_estate_platform.Exec.{Result, ok, err, query, throw_if, rolled_back, transaction}
use real_estate_platform.Exec.Inversion.{>>=-cases, query-ok, query-err, store-ok, store-err}
use real_estate_platform.Exec.Frames.{
  Keeps, >>=-Keeps, >>-Keeps, query-Keeps, store-Keeps, throw_if-Keeps, or_throw-Keeps,
}
use real_estate_platform.Auth.Google.{
  GoogleProfile, is_identity, google_user, google_account, verified, on_accounts, existing_or_new,
  verify_unless, verify_existing, link_account, owner_of, user_of_identity, validate_google_user,
}
use real_estate_platform.Schema.{User, Account}
use real_estate_platform.Platform.{Platform, World}
use real_estate_platform.Tokens.{SessionContext, Jwt}
use real_estate_platform.Auth.{AuthResult, has_email, has_id, find_user, complete_login, disabled}
use real_estate_platform.Auth.Accounts.{
  accounts_at, UniqueEmails, update_user-Keeps, unique_of_same, create_user-UniqueEmails,
  complete_login-Keeps,
}

module _ (p : Platform) where
  -- The steps of a link of a Google identity, on the accounts with each address.
  verify_unless-Keeps :
      (e : String) (b : Bool) (id : String) (u : User)
      → Keeps (accounts_at p e) (verify_unless p b id u)
  unfolding verify_unless
  verify_unless-Keeps e true id u w = refl
  verify_unless-Keeps e false id u w = update_user-Keeps p e id verified (λ x. refl) w

  verify_existing-Keeps :
      (e : String) (o : Option User) (u : User) → Keeps (accounts_at p e) (verify_existing p o u)
  unfolding verify_existing
  verify_existing-Keeps e none u w = refl
  verify_existing-Keeps e (some v) u w = verify_unless-Keeps e v.is_verified v.id u w

  existing_or_new-UniqueEmails :
      (o : Option User) (profile : GoogleProfile) (id : String) (now : ℕ) (w w' : World p)
      (r : Result User)
      → o ≡ find (has_email profile.email) (p.users.rows w.users)
      → existing_or_new p o profile id now w ≡ (r, w')
      → UniqueEmails p w
      → UniqueEmails p w'
  unfolding existing_or_new google_user
  existing_or_new-UniqueEmails (some u) profile id now w w' r known e k =
      subst (UniqueEmails p) (ap (λ x. x.1) e) k
  existing_or_new-UniqueEmails none profile id now w w' (err x) known e k =
      subst (UniqueEmails p) (sym (store-err _ _ _ w e)) k
  existing_or_new-UniqueEmails none profile id now w w' (ok u) known e k =
      let (db, made, written) = store-ok _ _ _ w e in
      subst (UniqueEmails p) (sym written) (
        create_user-UniqueEmails p (google_user profile id now) w u db made (ap is_some (sym known))
          k)

  link_account-UniqueEmails :
      (profile : GoogleProfile) (id : String) (now : ℕ) (w w' : World p) (r : Result User)
      → link_account p profile id now w ≡ (r, w')
      → UniqueEmails p w
      → UniqueEmails p w'
  unfolding link_account
  link_account-UniqueEmails profile id now w w' r e k =
      elim (>>=-cases (find_user p (has_email profile.email)) _ w e) [
        | inl (x, refused, is) ↦ subst (UniqueEmails p) (sym (query-err _ w refused)) k
        | inr (found, w1, asked, rest1) ↦
            let (replied, same) = query-ok _ w asked in
            let known =
              p.users.find_first_rows _ w.users found replied
              ∙ ap (λ v. find (has_email profile.email) (p.users.rows v.users)) (sym same) in
            let k1 = subst (UniqueEmails p) (sym same) k in
            elim (>>=-cases (existing_or_new p found profile id now) _ w1 rest1) [
              | inl (x, refused, is) ↦
                  existing_or_new-UniqueEmails found profile id now w1 w' (err x) known refused k1
              | inr (u, w2, made, rest2) ↦
                  let k2 =
                    existing_or_new-UniqueEmails found profile id now w1 w2 (ok u) known made k1 in
                  unique_of_same p w2 w'
                    (λ a.
                      ap (λ x. accounts_at p a x.1) (sym rest2)
                      ∙ >>-Keeps (accounts_at p a)
                          (on_accounts p (p.accounts.create (google_account profile u.id)))
                          (verify_existing p found u) (store-Keeps _ _ _ _ (λ v d. refl))
                          (verify_existing-Keeps a found u) w2)
                    k2
            ]
      ]

  transaction-UniqueEmails :
      (profile : GoogleProfile) (id : String) (now : ℕ) (w : World p)
      → UniqueEmails p w
      → UniqueEmails p (transaction (link_account p profile id now) w).1
  unfolding transaction
  transaction-UniqueEmails profile id now w k = go (link_account p profile id now w) refl
    where
      go :
          (x : Result User × World p)
          → link_account p profile id now w ≡ x
          → UniqueEmails p (rolled_back w x).1
      go (ok u, v) e = link_account-UniqueEmails profile id now w v (ok u) e k
      go (err x, v) e = k

  user_of_identity-UniqueEmails :
      (jwt : Jwt) (o : Option Account) (profile : GoogleProfile) (id : String) (now : ℕ)
      (w : World p)
      → UniqueEmails p w
      → UniqueEmails p (user_of_identity p jwt o profile id now w).1
  unfolding user_of_identity owner_of
  user_of_identity-UniqueEmails jwt none profile id now w k =
      transaction-UniqueEmails profile id now w k
  user_of_identity-UniqueEmails jwt (some a) profile id now w k =
      unique_of_same p w (user_of_identity p jwt (some a) profile id now w).1
        (λ e.
          >>=-Keeps (accounts_at p e) (find_user p (has_id a.user_id)) _ (query-Keeps _ _)
            (λ found. or_throw-Keeps _ found _) w)
        k

  -- Signing in with Google, whether it returns or throws, never makes two accounts with one address.
  pub validate_google_user-UniqueEmails :
      (jwt : Jwt) (profile : GoogleProfile) (context : SessionContext)
      (id access_jti refresh_jti : String) (now : ℕ) (w w' : World p)
      (r : Result (AuthResult jwt.Token))
      → validate_google_user p jwt profile context id access_jti refresh_jti now w ≡ (r, w')
      → UniqueEmails p w
      → UniqueEmails p w'
  unfolding validate_google_user
  validate_google_user-UniqueEmails jwt profile context id aj rj now w w' r e k =
      elim (>>=-cases
        (query (λ v. p.accounts.find_first (is_identity profile.provider_account_id) v.accounts)) _
        w e) [
          | inl (x, refused, is) ↦ subst (UniqueEmails p) (sym (query-err _ w refused)) k
          | inr (linked, w1, asked, rest1) ↦
              let k1 = subst (UniqueEmails p) (sym (query-ok _ w asked).1) k in
              let k2 = user_of_identity-UniqueEmails jwt linked profile id now w1 k1 in
              elim (>>=-cases (user_of_identity p jwt linked profile id now) _ w1 rest1) [
                | inl (x, refused, is) ↦ subst (λ y. UniqueEmails p y.1) refused k2
                | inr (u, w2, got, rest2) ↦
                    unique_of_same p w2 w'
                      (λ a.
                        ap (λ x. accounts_at p a x.1) (sym rest2)
                        ∙ >>-Keeps (accounts_at p a) (throw_if (not u.is_active) disabled)
                            (complete_login p jwt u context aj rj now) (throw_if-Keeps _ _ _)
                            (complete_login-Keeps p jwt a u context aj rj now) w2)
                      (subst (λ y. UniqueEmails p y.1) got k2)
              ]
        ]
