-- ===== src/Slug.antt =====
-- apps/api-core/src/modules/shared/slug.util.ts: the slugs of areas, developers, compounds and
-- listings, each step of the chain of replacements a function.
pub mod Shape
pub mod Unique
pub mod OnePass
mod Tests
use Prim.Native.Char.{Char, code}
use Prim.Native.String.{◌++◌, char_at, count}
use real_estate_platform.Base.{
  ℕ, zero, suc, ◌+◌, ◌-◌, ◌/◌, ◌%◌, Bool, true, false, ◌&&◌, ◌||◌, String, if◌then◌else◌, leb, ltb,
  ◌=?◌,
}
use real_estate_platform.Exec.{Exec, pure, ◌>>=◌}

-- `String.prototype.normalize('NFKD')`: the tables of Unicode are a parameter.
pub record Unicode : Type 0 where
  pub nfkd : String → String

abbrev pub is_dash : Char → Bool
is_dash c = code c =? 45

-- `[a-z0-9]`.
abbrev pub is_alnum : Char → Bool
is_alnum c = (leb 97 (code c) && leb (code c) 122) || (leb 48 (code c) && leb (code c) 57)

-- `.replace(/[\u0300-\u036f]/g, '')`.
unfoldable pub strip_marks : String → String
strip_marks String.[] = ""
strip_marks (String.◌∷◌ c s) =
    if leb 768 (code c) && leb (code c) 879 then strip_marks s else String.◌∷◌ c (strip_marks s)

-- A letter in lower case. Only the capitals of ASCII matter here: whatever else there is after the
-- normal form becomes a hyphen, in either case.
unfoldable pub lower_letter : Char → Char
lower_letter c =
    if leb 65 (code c) && leb (code c) 90
    then char_at "abcdefghijklmnopqrstuvwxyz" (code c - 65)
    else c

unfoldable pub to_lower_case : String → String
unfolding lower_letter
to_lower_case String.[] = ""
to_lower_case (String.◌∷◌ c s) = String.◌∷◌ (lower_letter c) (to_lower_case s)

-- `.replace(/['’`]/g, '')`.
unfoldable pub strip_quotes : String → String
strip_quotes String.[] = ""
strip_quotes (String.◌∷◌ c s) =
    if code c =? 39 || code c =? 8217 || code c =? 96
    then strip_quotes s
    else String.◌∷◌ c (strip_quotes s)

-- `.replace(/[^a-z0-9]+/g, '-')`; the test says whether the last character was of the same run.
unfoldable pub dash_runs : Bool → String → String
dash_runs in_run String.[] = ""
dash_runs in_run (String.◌∷◌ c s) =
    let kept = String.◌∷◌ c (dash_runs false s) in
    let same = dash_runs true s in
    let dash = String.◌∷◌ "-" (dash_runs true s) in
    if is_alnum c then kept else if in_run then same else dash

-- `.replace(/-{2,}/g, '-')`; the test says whether the last character was a hyphen.
unfoldable pub squeeze_dashes : Bool → String → String
squeeze_dashes after String.[] = ""
squeeze_dashes after (String.◌∷◌ c s) =
    let next = squeeze_dashes (is_dash c) s in
    if is_dash c && after then next else String.◌∷◌ c next

unfoldable pub trim_first_dashes : String → String
trim_first_dashes String.[] = ""
trim_first_dashes (String.◌∷◌ c s) = if is_dash c then trim_first_dashes s else String.◌∷◌ c s

abbrev pub is_empty : String → Bool
is_empty String.[] = true
is_empty (String.◌∷◌ c s) = false

-- `.replace(/-+$/g, '')`.
unfoldable pub trim_last_dashes : String → String
trim_last_dashes String.[] = ""
trim_last_dashes (String.◌∷◌ c s) =
    let rest = trim_last_dashes s in if is_dash c && is_empty rest then "" else String.◌∷◌ c rest

-- `.slice(0, n)`, of a text in which each character is one code unit.
unfoldable pub take_chars : ℕ → String → String
take_chars zero s = ""
take_chars (suc n) String.[] = ""
take_chars (suc n) (String.◌∷◌ c s) = String.◌∷◌ c (take_chars n s)

abbrev pub max_slug_length : ℕ
max_slug_length = 120

unfoldable pub hyphenate : String → String
unfolding strip_marks to_lower_case strip_quotes dash_runs
hyphenate s = dash_runs false (strip_quotes (to_lower_case (strip_marks s)))

unfoldable pub slugify : Unicode → String → String → String
unfolding hyphenate squeeze_dashes trim_first_dashes trim_last_dashes take_chars
slugify u value fallback =
    let trimmed =
      trim_last_dashes (trim_first_dashes (squeeze_dashes false (hyphenate (u.nfkd value)))) in
    let slug = trim_last_dashes (take_chars max_slug_length trimmed) in
    if is_empty slug then fallback else slug

abbrev digit : ℕ → Char
digit d = char_at "0123456789abcdefghijklmnopqrstuvwxyz" d

-- The digits of a number in front of a text, one for each unit of fuel.
digits : ℕ → ℕ → ℕ → String → String
digits base zero n s = s
digits base (suc fuel) n s =
    let longer = digits base fuel (n / base) (String.◌∷◌ (digit (n % base)) s) in
    if ltb n base then String.◌∷◌ (digit n) s else longer

-- `n.toString(base)`.
unfoldable pub to_string : ℕ → ℕ → String
unfolding digits
to_string base n = digits base (n + 1) n ""

unfoldable pub numbered : String → ℕ → String
unfolding to_string
numbered base attempt = base ++ ("-" ++ to_string 10 attempt)

unfoldable pub stamped : String → ℕ → String
unfolding to_string
stamped base now = base ++ ("-" ++ to_string 36 now)

module _ {W : Type 0} (is_taken : String → Exec W Bool) where
  -- The rounds left, and the number of the attempt.
  unfoldable pub try_numbered : ℕ → ℕ → String → ℕ → Exec W String
  try_numbered zero attempt base now = pure (stamped base now)
  try_numbered (suc left) attempt base now = do
    taken ← is_taken (numbered base attempt)
    if taken then try_numbered left (attempt + 1) base now else pure (numbered base attempt)

  unfoldable pub build_unique_slug : Unicode → String → String → ℕ → Exec W String
  build_unique_slug u desired fallback now = do
    taken ← is_taken (slugify u desired fallback)
    if taken
        then try_numbered 49 2 (slugify u desired fallback) now
        else pure (slugify u desired fallback)
