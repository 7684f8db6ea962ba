-- ===== src/CacheKeys.antt =====
-- apps/api-core/src/redis/cache-keys.ts: the key of each kind of cached value.
use real_estate_platform.Base.{
  ℕ, String, ◌≡◌, sym, ap, ◌∙◌, ◌==◌, eq_iff, false, inl, inr, Bool-cases, arith,
}
use Prim.Native.String.{◌++◌}
use text.Mathlib.TextLemmas.{append_assoc, append_cancel_left, cons-append, head-eq_of_cons-eq}
use Prim.Native.Char.{code}

abbrev pub property_ttl : ℕ
property_ttl = 300

abbrev pub property_key : String → String
property_key id = "cache:prop:" ++ id

abbrev pub list_pattern : String
list_pattern = "cache:list:*"

abbrev pub auth_denylist : String → String
auth_denylist jti = "auth:denylist:" ++ jti

abbrev pub auth_refresh : String → String → String
auth_refresh user_id jti = "auth:refresh:" ++ (user_id ++ (":" ++ jti))

abbrev pub auth_refresh_pattern : String → String
auth_refresh_pattern user_id = "auth:refresh:" ++ (user_id ++ ":*")

-- The denylist keeps one entry for each token: keys are equal exactly when the tokens are.
pub auth_denylist-injective : (a b : String) → auth_denylist a ≡ auth_denylist b → a ≡ b
auth_denylist-injective a b e = append_cancel_left "auth:denylist:" a b e

other_letter : code "d" ≡ code "r" → ⊥
other_letter e = ground arith

-- The denylist and the refresh markers share no key.
auth_denylist-not_auth_refresh : (a u j : String) → auth_denylist a ≡ auth_refresh u j → ⊥
auth_denylist-not_auth_refresh a u j e =
    let marker = u ++ (":" ++ j) in
    let rest =
      append_cancel_left "auth:" ("denylist:" ++ a) ("refresh:" ++ marker)
        (sym (append_assoc "auth:" "denylist:" a) ∙ e ∙ append_assoc "auth:" "refresh:" marker) in
    let heads =
      head-eq_of_cons-eq
        (sym (cons-append "d" "enylist:" a) ∙ rest ∙ cons-append "r" "efresh:" marker) in
    other_letter (ap code heads)

pub auth_denylist-auth_refresh : (a u j : String) → (auth_denylist a == auth_refresh u j) ≡ false
auth_denylist-auth_refresh a u j = elim (Bool-cases (auth_denylist a == auth_refresh u j)) [
  | inr differ ↦ differ
  | inl same ↦
      absurd (
        auth_denylist-not_auth_refresh a u j ((eq_iff (auth_denylist a) (auth_refresh u j)).0 same))
]
