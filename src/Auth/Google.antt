-- ===== src/Auth/Google.antt =====
-- `validateGoogleUser` of apps/api-core/src/modules/auth/auth.service.ts: signing in with a
-- Google identity.
use real_estate_platform.Base.{ℕ, Bool, true, false, not, ◌&&◌, Option, none, some, String, ◌==◌}
use real_estate_platform.Enums.{user}
use real_estate_platform.Errors.{library}
use real_estate_platform.Exec.{
  Exec, Reply, query, store, throw_if, or_throw, pure, ◌>>=◌, ◌>>◌, transaction,
}
use real_estate_platform.Schema.{User, Account}
use real_estate_platform.Platform.{Platform, World}
use real_estate_platform.Tokens.{SessionContext, Jwt}
use real_estate_platform.Auth.{
  AuthResult, has_email, has_id, disabled, on_users, find_user, complete_login,
}

pub record GoogleProfile : Type 0 where
  pub provider_account_id : String
  pub email : String
  pub name : String
  pub avatar_url : Option String
  pub access_token : Option String
  pub refresh_token : Option String

abbrev pub is_identity : String → Account → Bool
is_identity id a = a.provider == "google" && a.provider_account_id == id

unfoldable pub google_user : GoogleProfile → String → ℕ → User
google_user profile id now = record {
  id = id;
  email = profile.email;
  name = profile.name;
  password_hash = none;
  phone = none;
  avatar_url = profile.avatar_url;
  role = user;
  is_verified = true;
  is_active = true;
  locale = "en";
  reset_token_hash = none;
  reset_token_expires_at = none;
  last_login_at = none;
  created_at = now;
}

abbrev pub google_account : GoogleProfile → String → Account
google_account profile user_id = record {
  user_id = user_id;
  provider = "google";
  provider_account_id = profile.provider_account_id;
  type = "oauth";
  access_token = profile.access_token;
  refresh_token = profile.refresh_token;
}

abbrev pub verified : User → User
verified u = record u { is_verified = true }

module _ (p : Platform) where
  abbrev pub on_accounts :
      {A : Type 0} → (p.accounts.Db → Reply (A × p.accounts.Db)) → Exec (World p) A
  on_accounts f = store (λ w. w.accounts) (λ w d. record w { accounts = d }) f

  -- `existing ?? (await tx.user.create(…))`.
  unfoldable pub existing_or_new : Option User → GoogleProfile → String → ℕ → Exec (World p) User
  existing_or_new (some u) profile id now = pure u
  existing_or_new none profile id now = on_users p (p.users.create (google_user profile id now))

  unfoldable pub verify_unless : Bool → String → User → Exec (World p) User
  verify_unless true id u = pure u
  verify_unless false id u = on_users p (p.users.update (has_id id) verified)

  -- `if (existing && !existing.isVerified)`.
  unfoldable pub verify_existing : Option User → User → Exec (World p) User
  verify_existing none u = pure u
  verify_existing (some e) u = verify_unless e.is_verified e.id u

  unfoldable pub link_account : GoogleProfile → String → ℕ → Exec (World p) User
  link_account profile id now = do
    existing ← find_user p (has_email profile.email)
    u ← existing_or_new existing profile id now
    on_accounts (p.accounts.create (google_account profile u.id))
    verify_existing existing u

  module _ (jwt : Jwt) where
    -- The user of a row that is linked; its foreign key lets the row be read.
    unfoldable pub owner_of : Account → Exec (World p) User
    owner_of a = do
      found ← find_user p (has_id a.user_id)
      or_throw found (library "Inconsistent query result")

    unfoldable pub user_of_identity :
        Option Account → GoogleProfile → String → ℕ → Exec (World p) User
    user_of_identity (some a) profile id now = owner_of a
    user_of_identity none profile id now = transaction (link_account profile id now)

    unfoldable pub validate_google_user :
        GoogleProfile
        → SessionContext
        → String
        → String
        → String
        → ℕ
        → Exec (World p) (AuthResult jwt.Token)
    validate_google_user profile context id access_jti refresh_jti now = do
      linked ←
          query (λ w. p.accounts.find_first (is_identity profile.provider_account_id) w.accounts)
      u ← user_of_identity linked profile id now
      throw_if (not u.is_active) disabled
      complete_login p jwt u context access_jti refresh_jti now
