-- ===== src/Auth.antt =====
-- apps/api-core/src/modules/auth/auth.service.ts: registration, login, sessions, passwords and Google
-- sign-in. The identifiers, salts and random tokens that a call draws are its arguments; the mails
-- that it only logs are part of its value.
pub mod Accounts
pub mod Linking
pub mod Credentials
pub mod Sessions
pub mod Passwords
pub mod Changes
pub mod Google
pub mod Samples
mod Tests
use real_estate_platform.Base.{
  text_is, ℕ, ◌+◌, ◌*◌, ◌/◌, Bool, true, false, not, ◌&&◌, List, [], ◌∷◌, Option, none, some,
  String, ◌==◌, is_some, ltb, or_else, given, if◌then◌else◌,
}
use real_estate_platform.Enums.{UserRole, user}
use real_estate_platform.Errors.{
  Thrown, ErrorCode, unauthorized_error, forbidden_error, conflict_error, not_found_error,
  bad_request_error, detail, email_already_exists, invalid_credentials, account_disabled,
  invalid_token, user_not_found, password_reset_invalid,
}
use real_estate_platform.Exec.{
  Exec, Reply, query, store, catch_with, throw_if, or_throw, pure, ◌>>=◌, ◌>>◌,
}
use real_estate_platform.Schema.{User}
use real_estate_platform.Secrets.{Secrets, matches}
use real_estate_platform.Duration.{seconds_from_now}
use real_estate_platform.Platform.{Platform, World}
use real_estate_platform.Tokens.{
  TokenSubject, SessionContext, IssuedTokens, RefreshTokenPayload, Jwt, issue_tokens,
  verify_refresh_token, rotate, revoke_refresh_jti, revoke_access_jti, revoke_all_sessions,
}

pub record RegisterDto : Type 0 where
  pub name : String
  pub email : String
  pub password : String
  pub phone : Option String

pub record LoginDto : Type 0 where
  pub email : String
  pub password : String

pub record ResetPasswordDto : Type 0 where
  pub token : String
  pub password : String

pub record PublicUser : Type 0 where
  pub id : String
  pub email : String
  pub name : String
  pub role : UserRole
  pub phone : Option String
  pub avatar_url : Option String
  pub is_verified : Bool
  pub locale : String
  pub created_at : ℕ

pub record AuthResult (Token : Type 0) : Type 0 where
  pub user : PublicUser
  pub tokens : IssuedTokens Token

pub record PasswordResetMail : Type 0 where
  pub to : String
  pub name : String
  pub token : String
  pub expires_in_minutes : ℕ

abbrev pub reset_token_ttl_minutes : ℕ
reset_token_ttl_minutes = 60

abbrev pub to_public_user : User → PublicUser
to_public_user u = record {
  id = u.id;
  email = u.email;
  name = u.name;
  role = u.role;
  phone = u.phone;
  avatar_url = u.avatar_url;
  is_verified = u.is_verified;
  locale = u.locale;
  created_at = u.created_at;
}

abbrev pub to_subject : User → TokenSubject
to_subject u = record { id = u.id; email = u.email; name = u.name; role = u.role }

abbrev pub has_email : String → User → Bool
has_email email u = u.email == email

abbrev pub has_id : String → User → Bool
has_id id u = u.id == id

abbrev pub later_than : ℕ → Option ℕ → Bool
later_than now none = false
later_than now (some t) = ltb now t

abbrev pub may_reset : String → ℕ → User → Bool
may_reset hash now u = text_is u.reset_token_hash hash && later_than now u.reset_token_expires_at

abbrev pub email_taken : Thrown
email_taken =
    conflict_error "An account with this email already exists" email_already_exists
      (detail "email" "already registered" "unique")

abbrev pub wrong_credentials : Thrown
wrong_credentials = unauthorized_error "Incorrect email or password" invalid_credentials

abbrev pub disabled : Thrown
disabled = forbidden_error "This account has been disabled" account_disabled

abbrev pub session_gone : Thrown
session_gone = unauthorized_error "Session no longer exists" invalid_token

abbrev pub user_missing : Thrown
user_missing = not_found_error "User not found" user_not_found

abbrev pub reset_invalid : Thrown
reset_invalid =
    bad_request_error "This reset link is invalid or has expired" password_reset_invalid []

abbrev pub no_password : Thrown
no_password =
    bad_request_error "This account signs in with Google and has no password set"
      invalid_credentials []

abbrev pub wrong_password : Thrown
wrong_password = unauthorized_error "Current password is incorrect" invalid_credentials

-- The row that a registration stores, with the defaults of the schema.
unfoldable pub new_user : RegisterDto → String → String → ℕ → User
new_user dto id hash now = record {
  id = id;
  email = dto.email;
  name = dto.name;
  password_hash = some hash;
  phone = dto.phone;
  avatar_url = none;
  role = user;
  is_verified = false;
  is_active = true;
  locale = "en";
  reset_token_hash = none;
  reset_token_expires_at = none;
  last_login_at = none;
  created_at = now;
}

abbrev pub log_in_at : ℕ → User → User
log_in_at now u = record u { last_login_at = some now }

abbrev pub offer_reset : String → ℕ → User → User
offer_reset hash now u = record u {
  reset_token_hash = some hash;
  reset_token_expires_at = some (seconds_from_now (reset_token_ttl_minutes * 60) now);
}

abbrev pub reset_to : String → User → User
reset_to hash u = record u {
  password_hash = some hash;
  reset_token_hash = none;
  reset_token_expires_at = none;
}

abbrev pub change_to : String → User → User
change_to hash u = record u { password_hash = some hash }

-- `user?.passwordHash ?? dummy`.
abbrev pub hash_to_check : Secrets → Option User → String
hash_to_check s none = s.dummy_hash
hash_to_check s (some u) = or_else u.password_hash s.dummy_hash

-- The user, unless `!user || !user.passwordHash || !matches`.
unfoldable pub accepted : Option User → Bool → Option User
accepted none ok = none
accepted (some u) ok = if is_some (given u.password_hash) && ok then some u else none

module _ (p : Platform) where
  abbrev pub on_users : {A : Type 0} → (p.users.Db → Reply (A × p.users.Db)) → Exec (World p) A
  on_users f = store (λ w. w.users) (λ w d. record w { users = d }) f

  abbrev pub find_user : (User → Bool) → Exec (World p) (Option User)
  find_user q = query (λ w. p.users.find_first q w.users)

  unfoldable pub me : String → Exec (World p) PublicUser
  me id = do found ← find_user (has_id id); u ← or_throw found user_missing; pure (to_public_user u)

  module _ (s : Secrets) where
    unfoldable pub validate_credentials : LoginDto → Exec (World p) User
    validate_credentials dto = do
      found ← find_user (has_email dto.email)
      u ←
          or_throw (accepted found (matches s (hash_to_check s found) dto.password))
            wrong_credentials
      throw_if (not u.is_active) disabled
      pure u

    -- `!user || !user.isActive` ends the call; else the mail is sent.
    unfoldable pub send_reset : Option User → String → ℕ → Exec (World p) (Option PasswordResetMail)
    send_reset none token now = pure none
    send_reset (some u) token now = elim u.is_active [
      | false ↦ pure none
      | true ↦
          on_users (p.users.update (has_id u.id) (offer_reset (s.sha256_hex token) now))
          >> pure (
              some (record {
                to = u.email;
                name = u.name;
                token = token;
                expires_in_minutes = reset_token_ttl_minutes;
              }))
    ]

    unfoldable pub forgot_password : String → String → ℕ → Exec (World p) (Option PasswordResetMail)
    forgot_password email token now = do
      found ← find_user (has_email email)
      send_reset found token now

    unfoldable pub reset_password : ℕ → ResetPasswordDto → String → ℕ → Exec (World p) (Unit {0})
    reset_password fuel dto salt now = do
      found ← find_user (may_reset (s.sha256_hex dto.token) now)
      u ← or_throw found reset_invalid
      on_users (p.users.update (has_id u.id) (reset_to (s.hash salt dto.password)))
      revoke_all_sessions p fuel u.id now

    unfoldable pub change_password :
        ℕ → String → String → String → String → ℕ → Exec (World p) (Unit {0})
    change_password fuel user_id current_password new_password salt now = do
      found ← find_user (has_id user_id)
      u ← or_throw found user_missing
      hash ← or_throw (given u.password_hash) no_password
      throw_if (not (matches s hash current_password)) wrong_password
      on_users (p.users.update (has_id user_id) (change_to (s.hash salt new_password)))
      revoke_all_sessions p fuel user_id now

  module _ (jwt : Jwt) where
    unfoldable pub complete_login :
        User → SessionContext → String → String → ℕ → Exec (World p) (AuthResult jwt.Token)
    complete_login u context access_jti refresh_jti now = do
      tokens ← issue_tokens p jwt (to_subject u) context access_jti refresh_jti now
      catch_with tt (do on_users (p.users.update (has_id u.id) (log_in_at now)); pure tt)
      pure (record { user = to_public_user u; tokens = tokens })

    unfoldable pub register :
        Secrets
        → RegisterDto
        → SessionContext
        → String
        → String
        → String
        → String
        → ℕ
        → Exec (World p) (AuthResult jwt.Token)
    register s dto context id salt access_jti refresh_jti now = do
      existing ← find_user (has_email dto.email)
      throw_if (is_some existing) email_taken
      u ← on_users (p.users.create (new_user dto id (s.hash salt dto.password) now))
      complete_login u context access_jti refresh_jti now

    unfoldable pub refresh :
        ℕ → jwt.Token → SessionContext → String → String → ℕ → Exec (World p) (AuthResult jwt.Token)
    refresh fuel token context access_jti refresh_jti now = do
      payload ← verify_refresh_token p jwt fuel token now
      found ← find_user (has_id payload.sub)
      u ← or_throw found session_gone
      throw_if (not u.is_active) disabled
      tokens ← rotate p jwt (to_subject u) payload context access_jti refresh_jti now
      pure (record { user = to_public_user u; tokens = tokens })

    -- `if (payload) await this.tokens.revokeRefreshJti(…)`.
    unfoldable pub end_session : Option RefreshTokenPayload → ℕ → Exec (World p) (Unit {0})
    end_session none now = pure tt
    end_session (some c) now = revoke_refresh_jti p c.sub c.jti c.exp none now

    unfoldable pub end_refresh : ℕ → Option jwt.Token → ℕ → Exec (World p) (Unit {0})
    end_refresh fuel none now = pure tt
    end_refresh fuel (some token) now = do
      payload ← catch_with none (do c ← verify_refresh_token p jwt fuel token now; pure (some c))
      end_session payload now

    unfoldable pub end_access : Option String → ℕ → Exec (World p) (Unit {0})
    end_access none now = pure tt
    end_access (some jti) now = revoke_access_jti p jti (now / 1000 + jwt.access_ttl) now

    -- The identifier of the principal's access token, if there is a principal, and the refresh token;
    -- an empty text is no token.
    unfoldable pub logout : ℕ → Option String → Option jwt.Token → ℕ → Exec (World p) (Unit {0})
    logout fuel principal_jti token now = do
      end_refresh fuel token now
      end_access principal_jti now
