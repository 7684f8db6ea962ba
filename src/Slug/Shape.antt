-- ===== src/Slug/Shape.antt =====
-- The shape of a slug.
use Prim.Native.Char.{Char}
use real_estate_platform.Base.{
  ℕ, zero, suc, ◌≤◌, ◌≡◌, refl, ap, ◌∙◌, inl, inr, Bool, true, false, not, ◌&&◌, ◌||◌, Bool-cases,
  String, if◌then◌else◌, arith,
}
use real_estate_platform.Slug.{
  Unicode, is_dash, is_alnum, is_empty, strip_marks, strip_quotes, to_lower_case, is_empty,
  dash_runs, squeeze_dashes, trim_first_dashes, trim_last_dashes, take_chars, hyphenate, slugify,
}

-- Letters and digits with single hyphens between them; the test says that a hyphen may not follow.
abbrev pub is_spaced : Bool → String → Bool
is_spaced after String.[] = true
is_spaced after (String.◌∷◌ c s) =
    if is_dash c then not after && is_spaced true s else is_alnum c && is_spaced false s

-- The same, and it does not end with the hyphen.
abbrev pub is_slug_from : Bool → String → Bool
is_slug_from after String.[] = not after
is_slug_from after (String.◌∷◌ c s) =
    if is_dash c then not after && is_slug_from true s else is_alnum c && is_slug_from false s

-- A text that is not empty, of lower-case letters and digits with single hyphens between them.
abbrev pub is_slug : String → Bool
is_slug s = is_slug_from true s

pub dash_runs-spaced : (a : Bool) (s : String) → is_spaced a (dash_runs a s) ≡ true
unfolding dash_runs
dash_runs-spaced a String.[] = refl
dash_runs-spaced a (String.◌∷◌ c s) =
    ground (arith, dash_runs-spaced false s, dash_runs-spaced true s)

pub squeeze-spaced : (a : Bool) (s : String) → is_spaced a s ≡ true → squeeze_dashes a s ≡ s
unfolding squeeze_dashes
squeeze-spaced a String.[] h = refl
squeeze-spaced a (String.◌∷◌ c s) h = ground (arith, squeeze-spaced true s, squeeze-spaced false s)

trim_first-spaced :
    (a : Bool) (s : String) → is_spaced a s ≡ true → is_spaced true (trim_first_dashes s) ≡ true
unfolding trim_first_dashes
trim_first-spaced a String.[] h = refl
trim_first-spaced a (String.◌∷◌ c s) h = ground (arith, trim_first-spaced true s)

take-spaced :
    (n : ℕ) (a : Bool) (s : String) → is_spaced a s ≡ true → is_spaced a (take_chars n s) ≡ true
unfolding take_chars
take-spaced zero a s h = refl
take-spaced (suc n) a String.[] h = refl
take-spaced (suc n) a (String.◌∷◌ c s) h =
    ground (arith, take-spaced n true s, take-spaced n false s)

-- What is left after hyphens at the end are gone.
abbrev trimmed : Bool → String → Bool
trimmed after s = is_empty s || is_slug_from after s

put_back : Char → String → String
put_back c r = if is_dash c && is_empty r then "" else String.◌∷◌ c r

trimmed-dash :
    (a : Bool) (c : Char) (r : String)
    → is_dash c ≡ true
    → not a ≡ true
    → trimmed true r ≡ true
    → trimmed a (put_back c r) ≡ true
unfolding put_back
trimmed-dash a c String.[] d n t = rw d refl
trimmed-dash a c (String.◌∷◌ e r) d n t = ground arith

trimmed-letter :
    (a : Bool) (c : Char) (r : String)
    → is_dash c ≡ false
    → is_alnum c ≡ true
    → trimmed false r ≡ true
    → trimmed a (put_back c r) ≡ true
unfolding put_back
trimmed-letter a c String.[] d n t = ground arith
trimmed-letter a c (String.◌∷◌ e r) d n t = ground arith

trim_last-trimmed :
    (a : Bool) (s : String) → is_spaced a s ≡ true → trimmed a (trim_last_dashes s) ≡ true
unfolding trim_last_dashes put_back
trim_last-trimmed a String.[] h = refl
trim_last-trimmed a (String.◌∷◌ c s) h = elim (Bool-cases (is_dash c)) [
  | inl d ↦
      trimmed-dash a c (trim_last_dashes s) d (ground arith)
        (trim_last-trimmed true s (ground arith))
  | inr d ↦
      trimmed-letter a c (trim_last_dashes s) d (ground arith)
        (trim_last-trimmed false s (ground arith))
]

-- The number of characters, which are code units in a text of ASCII.
abbrev pub length : String → ℕ
length String.[] = 0
length (String.◌∷◌ c s) = suc (length s)

trim_last-length : (s : String) → length (trim_last_dashes s) ≤ length s
unfolding trim_last_dashes
trim_last-length String.[] = omega arith
trim_last-length (String.◌∷◌ c s) = ground (arith, trim_last-length s)

take-length : (n : ℕ) (s : String) → length (take_chars n s) ≤ n
unfolding take_chars
take-length zero s = omega arith
take-length (suc n) String.[] = omega arith
take-length (suc n) (String.◌∷◌ c s) = omega (arith, take-length n s)

spaced_of_slug : (a : Bool) (s : String) → is_slug_from a s ≡ true → is_spaced a s ≡ true
spaced_of_slug a String.[] h = refl
spaced_of_slug a (String.◌∷◌ c s) h = ground (arith, spaced_of_slug true s, spaced_of_slug false s)

spaced_of_trimmed : (s : String) → trimmed true s ≡ true → is_spaced true s ≡ true
spaced_of_trimmed String.[] h = refl
spaced_of_trimmed (String.◌∷◌ c s) h = spaced_of_slug true (String.◌∷◌ c s) h

squeezed : (s : String) → is_spaced false (squeeze_dashes false (hyphenate s)) ≡ true
unfolding hyphenate
squeezed s =
    let spaced = dash_runs-spaced false (strip_quotes (to_lower_case (strip_marks s))) in
    ap (is_spaced false) (squeeze-spaced false (hyphenate s) spaced) ∙ spaced

fallback_or :
    (r fallback : String)
    → is_slug fallback ≡ true
    → length fallback ≤ 120
    → trimmed true r ≡ true
    → length r ≤ 120
    → (is_slug (if is_empty r then fallback else r) ≡ true)
      × (length (if is_empty r then fallback else r) ≤ 120)
fallback_or String.[] fallback h k t l = (h, k)
fallback_or (String.◌∷◌ c r) fallback h k t l = (t, l)

-- Where the fallback is a slug, what is made of any text is one: at most 120 lower-case letters and
-- digits, not empty, with single hyphens between them.
pub slugify-is_slug :
    (u : Unicode) (value fallback : String)
    → is_slug fallback ≡ true
    → length fallback ≤ 120
    → (is_slug (slugify u value fallback) ≡ true) × (length (slugify u value fallback) ≤ 120)
unfolding slugify
slugify-is_slug u value fallback h k =
    let dashed = squeeze_dashes false (hyphenate (u.nfkd value)) in
    let trim = trim_last_dashes (trim_first_dashes dashed) in
    let cut = take_chars 120 trim in
    let spaced = spaced_of_trimmed trim (
      trim_last-trimmed true (trim_first_dashes dashed)
        (trim_first-spaced false dashed (squeezed (u.nfkd value)))) in
    fallback_or (trim_last_dashes cut) fallback h k
      (trim_last-trimmed true cut (take-spaced 120 true trim spaced))
      (omega (arith, trim_last-length cut, take-length 120 trim))
