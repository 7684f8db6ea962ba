-- ===== src/Base/Text.antt =====
-- Membership in a list of texts, `Array.prototype.includes` and `Set` on strings.
use Prim.Native.Nat.{ℕ}
use Prim.Native.Char.{code}
use Prim.Native.String.{String}
use mathlib.Core.Path.{◌≡◌, refl}
use mathlib.Core.Bool.{Bool, true, false, ◌||◌, ◌&&◌, not}
use mathlib.Core.List.{List, [], ◌∷◌, ◌++◌}
use mathlib.Core.Option.{Option, none, some}
use native.Mathlib.Omega.{arith}
use text.Mathlib.Text.{◌==◌}
use text.Mathlib.TextEquality.{eq_iff}
use text.Mathlib.TextPositions.{eq_refl}
use real_estate_platform.Base.Tests.{if◌then◌else◌, leb, ◌=?◌}
use real_estate_platform.Base.Lists.{keep}

abbrev pub includes : List String → String → Bool
includes [] s = false
includes (x ∷ xs) s = x == s || includes xs s

-- `list.filter((id) => id !== s)`.
abbrev pub without : String → List String → List String
without s = keep (λ x. not (x == s))

pub includes-without : (xs : List String) (s : String) → includes (without s xs) s ≡ false
includes-without [] s = refl
includes-without (x ∷ xs) s = ground (arith, includes-without xs s, eq_iff x s)

pub includes-without_ne :
    (xs : List String) (s t : String) → (s == t) ≡ false → includes (without s xs) t ≡ includes xs t
includes-without_ne [] s t h = refl
includes-without_ne (x ∷ xs) s t h =
    ground (arith, includes-without_ne xs s t h, eq_iff x s, eq_iff x t, eq_iff s t, eq_refl t)

pub without_of_not_includes :
    (xs : List String) (s : String) → includes xs s ≡ false → without s xs ≡ xs
without_of_not_includes [] s h = refl
without_of_not_includes (x ∷ xs) s h = ground (arith, without_of_not_includes xs s)

pub includes-append :
    (xs ys : List String) (s : String) → includes (xs ++ ys) s ≡ (includes xs s || includes ys s)
includes-append [] ys s = refl
includes-append (x ∷ xs) ys s = ground (arith, includes-append xs ys s)

-- No text stands twice in the list.
abbrev pub distinct : List String → Bool
distinct [] = true
distinct (x ∷ xs) = if includes xs x then false else distinct xs

-- `Array.from(new Set(xs))` keeps the first of equal texts, in order.
pub dedupe_from : List String → List String → List String
dedupe_from seen [] = []
dedupe_from seen (x ∷ xs) =
    let again = dedupe_from seen xs in
    let fresh = x ∷ dedupe_from (x ∷ seen) xs in if includes seen x then again else fresh

unfoldable pub dedupe : List String → List String
unfolding dedupe_from
dedupe xs = dedupe_from [] xs

pub includes-keep :
    (p : String → Bool) (xs : List String) (y : String)
    → includes xs y ≡ false
    → includes (keep p xs) y ≡ false
includes-keep p [] y h = refl
includes-keep p (x ∷ xs) y h = ground (arith, includes-keep p xs y)

pub distinct-keep :
    (p : String → Bool) (xs : List String) → distinct xs ≡ true → distinct (keep p xs) ≡ true
distinct-keep p [] h = refl
distinct-keep p (x ∷ xs) h = ground (arith, distinct-keep p xs, includes-keep p xs x)

not_again :
    (seen xs : List String) (y : String)
    → includes seen y ≡ true
    → includes (dedupe_from seen xs) y ≡ false
unfolding dedupe_from
not_again seen [] y h = refl
not_again seen (x ∷ xs) y h =
    ground (arith, not_again seen xs y, not_again (x ∷ seen) xs y, eq_iff x y)

distinct-dedupe_from : (seen xs : List String) → distinct (dedupe_from seen xs) ≡ true
unfolding dedupe_from
distinct-dedupe_from seen [] = refl
distinct-dedupe_from seen (x ∷ xs) = ground (
  arith,
  distinct-dedupe_from seen xs,
  distinct-dedupe_from (x ∷ seen) xs,
  not_again (x ∷ seen) xs x,
  eq_iff x x,
)

pub distinct-dedupe : (xs : List String) → distinct (dedupe xs) ≡ true
unfolding dedupe
distinct-dedupe xs = distinct-dedupe_from [] xs

-- A text behind the others is kept where it has not been seen.
dedupe_from-concat :
    (seen xs : List String) (y : String)
    → dedupe_from seen (xs ++ y ∷ [])
      ≡ dedupe_from seen xs ++ (if includes seen y || includes xs y then [] else y ∷ [])
unfolding dedupe_from
dedupe_from-concat seen [] y = ground arith
dedupe_from-concat seen (x ∷ xs) y =
    ground (arith, dedupe_from-concat seen xs y, dedupe_from-concat (x ∷ seen) xs y, eq_iff x y)

pub dedupe-concat :
    (xs : List String) (y : String)
    → dedupe (xs ++ y ∷ []) ≡ dedupe xs ++ (if includes xs y then [] else y ∷ [])
unfolding dedupe
dedupe-concat xs y = dedupe_from-concat [] xs y

includes-dedupe_from :
    (seen xs : List String) (y : String)
    → includes seen y ≡ false
    → includes (dedupe_from seen xs) y ≡ includes xs y
unfolding dedupe_from
includes-dedupe_from seen [] y h = refl
includes-dedupe_from seen (x ∷ xs) y h =
    ground
      (arith, includes-dedupe_from seen xs y h, includes-dedupe_from (x ∷ seen) xs y, eq_iff x y)

pub includes-dedupe : (xs : List String) (y : String) → includes (dedupe xs) y ≡ includes xs y
unfolding dedupe
includes-dedupe xs y = includes-dedupe_from [] xs y refl

-- White space and line ends, as `String.prototype.trim` reads them.
abbrev pub is_space : ℕ → Bool
is_space c =
    (leb 9 c && leb c 13)
    || c =? 32
    || c =? 160
    || c =? 5760
    || (leb 8192 c && leb c 8202)
    || c =? 8232
    || c =? 8233
    || c =? 8239
    || c =? 8287
    || c =? 12288
    || c =? 65279

trim_start : String → String
trim_start String.[] = ""
trim_start (String.◌∷◌ c s) = if is_space (code c) then trim_start s else String.◌∷◌ c s

trim_end : String → String
trim_end String.[] = ""
trim_end (String.◌∷◌ c s) =
    let rest = trim_end s in if is_space (code c) && rest == "" then "" else String.◌∷◌ c rest

unfoldable pub trim : String → String
unfolding trim_start trim_end
trim s = trim_end (trim_start s)

-- An optional text that passes `if (value)`: given and not empty.
abbrev pub given : Option String → Option String
given none = none
given (some s) = if s == "" then none else some s

pub given-none : (s : String) → given (some s) ≡ none → (s == "") ≡ true
given-none s e = ground arith

pub given-some :
    (o : Option String) (s : String) → given o ≡ some s → (o ≡ some s) × ((s == "") ≡ false)
given-some none s e = absurd (ground arith)
given-some (some t) s e = (ground arith, ground arith)

-- A column that may be null, compared with a text.
abbrev pub text_is : Option String → String → Bool
text_is none s = false
text_is (some t) s = t == s
