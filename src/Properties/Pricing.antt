-- ===== src/Properties/Pricing.antt =====
-- apps/api-core/src/modules/properties/properties.service.ts: prices and reference numbers of listings.
-- Divisions are exact here, where the source divides doubles.
use Prim.Native.Nat.{Ordering}
use Prim.Native.Char.{code}
use Prim.Native.String.{◌++◌, compare}
use real_estate_platform.Base.{
  ℕ, ◌+◌, ◌-◌, ◌*◌, ◌/◌, Bool, true, false, ◌&&◌, List, [], ◌∷◌, Option, none, some, String, leb,
  ◌=?◌, if◌then◌else◌,
}
use real_estate_platform.Slug.{to_string, is_empty}

-- `Math.round(a / b)` of numbers that are not negative.
abbrev pub round_div : ℕ → ℕ → ℕ
round_div a b = (2 * a + b) / (2 * b)

-- The validation keeps the percentage at 100 or less.
unfoldable pub monthly_installment : ℕ → ℕ → ℕ → ℕ
monthly_installment price down_payment_percent installment_years =
    if installment_years =? 0
    then 0
    else round_div (price * (100 - down_payment_percent)) (100 * (installment_years * 12))

-- `/^\d+$/`.
abbrev all_digits : String → Bool
all_digits String.[] = true
all_digits (String.◌∷◌ c s) = leb 48 (code c) && leb (code c) 57 && all_digits s

-- The text after `TC-`, if there it begins with that.
unfoldable pub after_prefix : String → Option String
after_prefix (String.◌∷◌ a (String.◌∷◌ b (String.◌∷◌ c s))) =
    if code a =? 84 && code b =? 67 && code c =? 45 then some s else none
after_prefix s = none

abbrev numeral : Option String → Bool
numeral none = false
numeral (some s) = not_empty (is_empty s) && all_digits s
  where
    not_empty : Bool → Bool
    not_empty true = false
    not_empty false = true

-- `/^TC-\d+$/`.
unfoldable pub is_reference : String → Bool
unfolding after_prefix
is_reference s = numeral (after_prefix s)

-- `Number.parseInt(s, 10)` of digits, from the value of those before.
read_digits : ℕ → String → ℕ
read_digits n String.[] = n
read_digits n (String.◌∷◌ c s) = read_digits (n * 10 + (code c - 48)) s

number_of : Option String → ℕ
unfolding read_digits
number_of none = 1000
number_of (some s) = read_digits 0 s

-- The first in the descending order of the texts.
unfoldable pub later : String → Option String → String
later a none = a
later a (some b) = elim (compare a b) [ Ordering.lt ↦ b | _ ↦ a ]

unfoldable pub latest : List String → Option String
unfolding later
latest [] = none
latest (r ∷ rs) = some (later r (latest rs))

number_of_latest : Option String → ℕ
unfolding number_of after_prefix
number_of_latest none = 1000
number_of_latest (some r) = number_of (after_prefix r)

-- The reference after the latest of those that are there.
unfoldable pub next_reference : List String → String
unfolding latest number_of_latest to_string
next_reference references = "TC-" ++ to_string 10 (number_of_latest (latest references) + 1)
