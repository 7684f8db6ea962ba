-- ===== src/Tokens/Signer.antt =====
-- A signer for the tests: a token is its kind and its claims, and has no secret.
use real_estate_platform.Base.{
  ℕ, ◌/◌, ◌<◌, ◌≡◌, refl, Bool, true, false, ltb, Option, some, none, arith,
}
use real_estate_platform.Tokens.{
  Jwt, AccessTokenPayload, RefreshTokenPayload, Verdict, valid, rejected,
}

pub data Token : Type 0 where
  access : AccessTokenPayload → Token
  refresh : RefreshTokenPayload → Token

abbrev pub unless_expired : {A : Type 0} → Bool → A → Verdict A
unless_expired true c = valid c
unless_expired false c = rejected "jwt expired"

abbrev pub check_access : Token → ℕ → Verdict AccessTokenPayload
check_access (access c) now = unless_expired (ltb (now / 1000) c.exp) c
check_access (refresh c) now = rejected "invalid signature"

abbrev pub check_refresh : Token → ℕ → Verdict RefreshTokenPayload
check_refresh (access c) now = rejected "invalid signature"
check_refresh (refresh c) now = unless_expired (ltb (now / 1000) c.exp) c

abbrev pub decode : Token → Option RefreshTokenPayload
decode (access c) = none
decode (refresh c) = some c

pub unless_expired-valid :
    {A : Type 0} (a b : ℕ) (c : A) → a < b → unless_expired (ltb a b) c ≡ valid c
unless_expired-valid a b c h = ground arith

abbrev pub signer : Jwt
signer = record {
  Token = Token;
  issuer = "api";
  audience = "web";
  access_ttl = 900;
  refresh_ttl = 604800;
  sign_access = access;
  sign_refresh = refresh;
  verify_access = check_access;
  verify_refresh = check_refresh;
  decode_refresh = decode;
  verify-sign_access = λ c now iss aud live. unless_expired-valid (now / 1000) c.exp c live;
  verify-sign_refresh = λ c now iss aud live. unless_expired-valid (now / 1000) c.exp c live;
  decode-sign_refresh = λ c. refl;
  sha256_hex = λ t. "digest";
}
