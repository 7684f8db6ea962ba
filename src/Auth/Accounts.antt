-- ===== src/Auth/Accounts.antt =====
-- apps/api-core/src/modules/auth/auth.service.ts: the accounts that registration and Google sign-in
-- make, and their addresses.
use real_estate_platform.Base.{
  ℕ, ◌+◌, ◌≤◌, ◌≡◌, refl, sym, ap, ◌∙◌, subst, inl, inr, Bool, true, false, String, find, keep,
  length, List, [], ◌∷◌, length-keep-concat, ◌==◌, eq_iff, arith, if◌then◌else◌, is_some,
}
use real_estate_platform.Exec.{Result, answer, throw_if}
use real_estate_platform.Exec.Inversion.{
  >>=-cases, >>-cases, query-ok, query-err, store-ok, store-err, throw_if-ok, throw_if-err,
}
use real_estate_platform.Exec.Frames.{
  Keeps, >>=-Keeps, >>-Keeps, catch_with-Keeps, pure-Keeps, store-Keeps, store-Keeps_answered,
  change-Keeps,
}
use real_estate_platform.Schema.{User}
use real_estate_platform.Table.{patch}
use real_estate_platform.Secrets.{Secrets}
use real_estate_platform.Platform.{Platform, World}
use real_estate_platform.Tokens.{SessionContext, Jwt, issue_tokens, remember_refresh_token}
use real_estate_platform.Auth.{
  RegisterDto, AuthResult, has_email, has_id, new_user, log_in_at, email_taken, on_users, find_user,
  complete_login, register, to_subject,
}

same_emails :
    (e id : String) (f : User → User) (us : List User)
    → ((u : User) → (f u).email ≡ u.email)
    → length (keep (has_email e) (patch (has_id id) f us)) ≡ length (keep (has_email e) us)
same_emails e id f [] h = refl
same_emails e id f (u ∷ us) h = ground (arith, same_emails e id f us h, h u)

none_of_unfound :
    (e : String) (us : List User)
    → is_some (find (has_email e) us) ≡ false
    → length (keep (has_email e) us) ≡ 0
none_of_unfound e [] h = refl
none_of_unfound e (u ∷ us) h = ground (arith, none_of_unfound e us)

one_more : (n : ℕ) (b : Bool) → n ≤ 1 → (b ≡ true → n ≡ 0) → n + (if b then 1 else 0) ≤ 1
one_more n b h k = ground arith

module _ (p : Platform) where
  -- How many accounts have an address.
  abbrev pub accounts_at : String → World p → ℕ
  accounts_at e w = length (keep (has_email e) (p.users.rows w.users))

  -- No two accounts have the same address.
  abbrev pub UniqueEmails : World p → Type 0
  UniqueEmails w = (e : String) → accounts_at e w ≤ 1

  pub update_user-Keeps :
      (e id : String) (f : User → User)
      → ((u : User) → (f u).email ≡ u.email)
      → Keeps (accounts_at e) (on_users p (p.users.update (has_id id) f))
  update_user-Keeps e id f h = store-Keeps_answered (accounts_at e) _ _ _ (λ w a replied.
      ap (λ us. length (keep (has_email e) us)) (p.users.update_rows _ f w.users a replied).1
      ∙ same_emails e id f (p.users.rows w.users) h)

  issue_tokens-Keeps :
      (jwt : Jwt) (e : String) (u : User) (context : SessionContext) (aj rj : String) (now : ℕ)
      → Keeps (accounts_at e) (issue_tokens p jwt (to_subject u) context aj rj now)
  unfolding issue_tokens remember_refresh_token
  issue_tokens-Keeps jwt e u context aj rj now =
      >>-Keeps _ _ _
        (>>-Keeps _ _ _ (change-Keeps _ _ _ _ (λ w d. refl)) (
          catch_with-Keeps _ tt _
            (>>-Keeps _ _ _ (store-Keeps _ _ _ _ (λ w d. refl)) (pure-Keeps _ tt))))
        (λ w. refl)

  pub complete_login-Keeps :
      (jwt : Jwt) (e : String) (u : User) (context : SessionContext) (aj rj : String) (now : ℕ)
      → Keeps (accounts_at e) (complete_login p jwt u context aj rj now)
  unfolding complete_login
  complete_login-Keeps jwt e u context aj rj now =
      >>=-Keeps _ _ _ (issue_tokens-Keeps jwt e u context aj rj now) (λ tokens.
        >>-Keeps _ _ _
          (catch_with-Keeps _ tt _ (
            >>-Keeps _ _ _ (update_user-Keeps e u.id (log_in_at now) (λ v. refl))
              (pure-Keeps _ tt)))
          (λ w. refl))

  pub unique_of_same :
      (w w' : World p)
      → ((e : String) → accounts_at e w' ≡ accounts_at e w)
      → UniqueEmails w
      → UniqueEmails w'
  unique_of_same w w' h k e = subst (λ n. n ≤ 1) (sym (h e)) (k e)

  -- An account that is made at an address that none has.
  pub create_user-UniqueEmails :
      (u : User) (w : World p) (row : User) (db : p.users.Db)
      → p.users.create u w.users ≡ answer (row, db)
      → is_some (find (has_email u.email) (p.users.rows w.users)) ≡ false
      → UniqueEmails w
      → UniqueEmails (record w { users = db })
  create_user-UniqueEmails u w row db replied fresh k e =
      let rows = (p.users.create_rows u w.users (row, db) replied).1 in
      let counted =
        ap (λ us. length (keep (has_email e) us)) rows
        ∙ length-keep-concat (has_email e) (p.users.rows w.users) u in
      subst (λ n. n ≤ 1) (sym counted)
        (one_more _ (u.email == e) (k e) (λ same.
          subst (λ a. accounts_at a w ≡ 0) ((eq_iff u.email e).0 same)
            (none_of_unfound u.email (p.users.rows w.users) fresh)))

  -- Registration, whether it returns or throws, never makes two accounts with one address.
  pub register-UniqueEmails :
      (jwt : Jwt) (s : Secrets) (dto : RegisterDto) (context : SessionContext)
      (id salt access_jti refresh_jti : String) (now : ℕ) (w w' : World p)
      (r : Result (AuthResult jwt.Token))
      → register p jwt s dto context id salt access_jti refresh_jti now w ≡ (r, w')
      → UniqueEmails w
      → UniqueEmails w'
  unfolding register new_user
  register-UniqueEmails jwt s dto context id salt aj rj now w w' r e k =
      elim (>>=-cases (find_user p (has_email dto.email)) _ w e) [
        | inl (x, refused, is) ↦ subst UniqueEmails (sym (query-err _ w refused)) k
        | inr (found, w1, asked, rest1) ↦
            let (replied, same1) = query-ok _ w asked in
            elim (>>-cases (throw_if (is_some found) email_taken) _ w1 rest1) [
              | inl (x, refused, is) ↦
                  subst UniqueEmails (sym ((throw_if-err _ _ w1 refused).1 ∙ same1)) k
              | inr (a, w2, passed, rest2) ↦
                  let (fresh, same2) = throw_if-ok _ _ w1 passed in
                  let same = same2 ∙ same1 in
                  let row = new_user dto id (s.hash salt dto.password) now in
                  elim (>>=-cases (on_users p (p.users.create row)) _ w2 rest2) [
                    | inl (x, refused, is) ↦
                        subst UniqueEmails (sym (store-err _ _ _ w2 refused ∙ same)) k
                    | inr (u, w3, stored, rest3) ↦
                        let (db, made, written) = store-ok _ _ _ w2 stored in
                        let unknown =
                          ap (λ v. is_some (find (has_email dto.email) (p.users.rows v.users))) same
                          ∙ ap is_some (sym (p.users.find_first_rows _ w.users found replied))
                          ∙ fresh in
                        let k3 = subst UniqueEmails (sym written) (
                          create_user-UniqueEmails row w2 u db made unknown
                            (subst UniqueEmails (sym same) k)) in
                        unique_of_same w3 w'
                          (λ a.
                            ap (λ x. accounts_at a x.1) (sym rest3)
                            ∙ complete_login-Keeps jwt a u context aj rj now w3)
                          k3
                  ]
            ]
      ]
