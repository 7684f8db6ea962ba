-- ===== src/Auth/Samples.antt =====
-- Password hashes for the tests: a text behind a mark, with no salt.
use real_estate_platform.Base.{
  String, false, ◌≡◌, sym, ap, ◌∙◌, ◌==◌, eq_iff, eq_refl, Bool-cases, inl, inr,
}
use Prim.Native.String.{◌++◌}
use text.Mathlib.TextLemmas.{cons-append, cons≢nil}
use real_estate_platform.Exec.{answer}
use real_estate_platform.Secrets.{Secrets}

abbrev pub marked : String → String
marked password = "$" ++ password

pub marked-not_empty : (s : String) → (marked s == "") ≡ false
marked-not_empty s = elim (Bool-cases (marked s == "")) [
  | inr full ↦ full
  | inl empty ↦ absurd (cons≢nil (sym (cons-append "$" "" s) ∙ (eq_iff (marked s) "").0 empty))
]

abbrev pub plain : Secrets
plain = record {
  hash = λ salt password. marked password;
  verify = λ hash password. answer (hash == marked password);
  sha256_hex = λ s. s;
  dummy_hash = "$";
  verify-hash = λ salt password. ap answer (eq_refl (marked password));
  hash-not_empty = λ salt password. marked-not_empty password;
}
