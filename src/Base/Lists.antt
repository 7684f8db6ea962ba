-- ===== src/Base/Lists.antt =====
-- Lists measured by native numbers, with Boolean tests, under the library's names where it has them.
use Prim.Native.Nat.{ℕ, zero, suc, ◌+◌, ◌≤◌, min}
use mathlib.Core.Path.{◌≡◌, refl, ap}
use mathlib.Core.Bool.{Bool, true, false, not, ◌||◌}
use mathlib.Core.List.{List, [], ◌∷◌, ◌++◌}
use mathlib.Core.Option.{Option, none, some}
use native.Mathlib.Omega.{arith}
use real_estate_platform.Base.Tests.{if◌then◌else◌, ◌=?◌, ltb}

module _ {ℓ} {A : Type ℓ} where
  abbrev pub length : List A → ℕ
  length [] = 0
  length (x ∷ xs) = suc (length xs)

  -- `Array.prototype.filter`.
  abbrev pub keep : (A → Bool) → List A → List A
  keep p [] = []
  keep p (x ∷ xs) = if p x then x ∷ keep p xs else keep p xs

  -- `Array.prototype.some`.
  abbrev pub any : (A → Bool) → List A → Bool
  any p [] = false
  any p (x ∷ xs) = p x || any p xs

  -- `Array.prototype.find`.
  abbrev pub find : (A → Bool) → List A → Option A
  find p [] = none
  find p (x ∷ xs) = if p x then some x else find p xs

  -- `slice(0, n)`.
  abbrev pub take : ℕ → List A → List A
  take zero xs = []
  take (suc n) [] = []
  take (suc n) (x ∷ xs) = x ∷ take n xs

  abbrev pub drop : ℕ → List A → List A
  drop zero xs = xs
  drop (suc n) [] = []
  drop (suc n) (x ∷ xs) = drop n xs

  pub length-append : (xs ys : List A) → length (xs ++ ys) ≡ length xs + length ys
  length-append [] ys = omega arith
  length-append (x ∷ xs) ys = omega (arith, length-append xs ys)

  pub length-take : (n : ℕ) (xs : List A) → length (take n xs) ≡ min n (length xs)
  length-take zero xs = omega arith
  length-take (suc n) [] = omega arith
  length-take (suc n) (x ∷ xs) = omega (arith, length-take n xs)

  pub take-all : (n : ℕ) (xs : List A) → length xs ≤ n → take n xs ≡ xs
  take-all zero [] h = refl
  take-all zero (x ∷ xs) h = absurd (omega arith)
  take-all (suc n) [] h = refl
  take-all (suc n) (x ∷ xs) h = ap (λ t. x ∷ t) (take-all n xs (omega arith))

  pub length-keep-le : (p : A → Bool) (xs : List A) → length (keep p xs) ≤ length xs
  length-keep-le p [] = omega arith
  length-keep-le p (x ∷ xs) = ground (arith, length-keep-le p xs)

  pub any-append : (p : A → Bool) (xs ys : List A) → any p (xs ++ ys) ≡ (any p xs || any p ys)
  any-append p [] ys = refl
  any-append p (x ∷ xs) ys = ground (arith, any-append p xs ys)

  pub keep-append : (p : A → Bool) (xs ys : List A) → keep p (xs ++ ys) ≡ keep p xs ++ keep p ys
  keep-append p [] ys = refl
  keep-append p (x ∷ xs) ys = ground (arith, keep-append p xs ys)

  pub any_of_counted :
      (p : A → Bool) (xs : List A) → (length (keep p xs) =? 0) ≡ false → any p xs ≡ true
  any_of_counted p [] h = absurd (ground arith)
  any_of_counted p (x ∷ xs) h = ground (arith, any_of_counted p xs)

  pub none_of_counted :
      (p : A → Bool) (xs : List A) → (length (keep p xs) =? 0) ≡ true → any p xs ≡ false
  none_of_counted p [] h = refl
  none_of_counted p (x ∷ xs) h = ground (arith, none_of_counted p xs)

  pub any_of_find :
      (p : A → Bool) (xs : List A) (a : A) → find p xs ≡ some a → (any p xs ≡ true) × (p a ≡ true)
  any_of_find p [] a e = absurd (ground arith)
  any_of_find p (x ∷ xs) a e = ground (arith, any_of_find p xs a)

  pub keep_of_not_any : (p : A → Bool) (xs : List A) → any p xs ≡ false → keep p xs ≡ []
  keep_of_not_any p [] e = refl
  keep_of_not_any p (x ∷ xs) e = ground (arith, keep_of_not_any p xs)

  pub length-keep-concat :
      (p : A → Bool) (xs : List A) (x : A)
      → length (keep p (xs ++ x ∷ [])) ≡ length (keep p xs) + (if p x then 1 else 0)
  length-keep-concat p [] x = ground arith
  length-keep-concat p (y ∷ xs) x = ground (arith, length-keep-concat p xs x)

  -- What is kept splits into what a narrower test drops and what it selects.
  pub length-keep-split :
      (p q : A → Bool) (xs : List A)
      → ((a : A) → p a ≡ true → q a ≡ true)
      → length (keep q (keep (λ a. not (p a)) xs)) + length (keep p xs) ≡ length (keep q xs)
  length-keep-split p q [] h = omega arith
  length-keep-split p q (x ∷ xs) h = ground (arith, h x, length-keep-split p q xs h)

  pub keep-keep_disjoint :
      (p q : A → Bool) (xs : List A)
      → ((a : A) → p a ≡ true → q a ≡ false)
      → keep q (keep (λ a. not (p a)) xs) ≡ keep q xs
  keep-keep_disjoint p q [] h = refl
  keep-keep_disjoint p q (x ∷ xs) h = ground (arith, h x, keep-keep_disjoint p q xs h)

  pub length-keep-keep-le :
      (p q : A → Bool) (xs : List A) → length (keep q (keep p xs)) ≤ length (keep q xs)
  length-keep-keep-le p q [] = omega arith
  length-keep-keep-le p q (x ∷ xs) = ground (arith, length-keep-keep-le p q xs)

  pub ltb-length-keep : (p : A → Bool) (xs : List A) → ltb 0 (length (keep p xs)) ≡ any p xs
  ltb-length-keep p [] = refl
  ltb-length-keep p (x ∷ xs) = ground (arith, ltb-length-keep p xs)

  pub any-concat : (p : A → Bool) (xs : List A) (x : A) → p x ≡ true → any p (xs ++ x ∷ []) ≡ true
  any-concat p [] x h = ground arith
  any-concat p (y ∷ xs) x h = ground (arith, any-concat p xs x h)

  pub not_none-length : (p : A → Bool) (xs : List A) → not (length (keep p xs) =? 0) ≡ any p xs
  not_none-length p [] = refl
  not_none-length p (x ∷ xs) = ground (arith, not_none-length p xs)

  pub any-keep-not : (p : A → Bool) (xs : List A) → any p (keep (λ a. not (p a)) xs) ≡ false
  any-keep-not p [] = refl
  any-keep-not p (x ∷ xs) = ground (arith, any-keep-not p xs)

  pub keep-not_of_none :
      (p : A → Bool) (xs : List A)
      → (length (keep p xs) =? 0) ≡ true
      → keep (λ a. not (p a)) xs ≡ xs
  keep-not_of_none p [] h = refl
  keep-not_of_none p (x ∷ xs) h = ground (arith, keep-not_of_none p xs)
