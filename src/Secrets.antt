-- ===== src/Secrets.antt =====
-- Password hashes and digests (argon2 and node:crypto), which the authentication service calls:
-- parameters. A hash is checked against the password that it was made of.
use real_estate_platform.Base.{String, Bool, true, false, ◌≡◌, ◌==◌}
use real_estate_platform.Exec.{Reply, answer, failed}

pub record Secrets : Type 0 where
  -- `argon2.hash` of a password, with the salt that it draws.
  pub hash : String → String → String
  -- `argon2.verify` of a hash and a password; it throws on a text that is no hash.
  pub verify : String → String → Reply Bool
  pub sha256_hex : String → String
  -- The hash that equalises the time of a login of an unknown user.
  pub dummy_hash : String
  pub verify-hash : (salt password : String) → verify (hash salt password) password ≡ answer true
  -- An encoded hash is never the empty text.
  pub hash-not_empty : (salt password : String) → (hash salt password == "") ≡ false

-- `argon2.verify(…).catch(() => false)`.
abbrev pub or_false : Reply Bool → Bool
or_false (failed m) = false
or_false (answer b) = b

abbrev pub matches : Secrets → String → String → Bool
matches s hash password = or_false (s.verify hash password)
