-- ===== src/Slug/OnePass.antt =====
-- A slug made in one pass over the text, beside the chain of replacements.
use Prim.Native.Char.{Char, code}
use real_estate_platform.Base.{
  ◌≡◌, refl, ap, ◌∙◌, inl, inr, Bool, true, false, ◌&&◌, ◌||◌, Bool-cases, String, if◌then◌else◌,
  arith, leb, ◌=?◌,
}
use real_estate_platform.Slug.{
  Unicode, is_dash, is_alnum, is_empty, strip_marks, strip_quotes, to_lower_case, lower_letter,
  dash_runs, trim_first_dashes, trim_last_dashes, take_chars, hyphenate, slugify,
}
use real_estate_platform.Slug.Shape.{dash_runs-spaced, squeeze-spaced}

-- Before the first word, in a word, or after one.
pub data Place : Type 0 where
  at_start : Place
  in_word : Place
  in_gap : Place

-- Words keep their letters and digits, and one hyphen stands between two words.
abbrev joined : Place → String → String
joined at String.[] = ""
joined at_start (String.◌∷◌ c s) =
    let word = String.◌∷◌ c (joined in_word s) in
    let rest = joined at_start s in if is_alnum c then word else rest
joined in_word (String.◌∷◌ c s) =
    let word = String.◌∷◌ c (joined in_word s) in
    let rest = joined in_gap s in if is_alnum c then word else rest
joined in_gap (String.◌∷◌ c s) =
    let word = String.◌∷◌ "-" (String.◌∷◌ c (joined in_word s)) in
    let rest = joined in_gap s in if is_alnum c then word else rest

alnum-not_dash : (c : Char) → is_alnum c ≡ true → is_dash c ≡ false
alnum-not_dash c h = ground arith

-- Inside a word, and after one.
trim_last-joined :
    (s : String)
    → (trim_last_dashes (dash_runs false s) ≡ joined in_word s)
      × (trim_last_dashes (String.◌∷◌ "-" (dash_runs true s)) ≡ joined in_gap s)
unfolding trim_last_dashes dash_runs
trim_last-joined String.[] = (refl, refl)
trim_last-joined (String.◌∷◌ c s) =
    let (word, gap) = trim_last-joined s in
    elim (Bool-cases (is_alnum c)) [
      | inl letter ↦
          let plain = alnum-not_dash c letter in
          (rw (letter, plain, word) refl, rw (letter, plain, word) refl)
      | inr other ↦ (rw other gap, rw other gap)
    ]

trim-joined :
    (in_run : Bool) (s : String)
    → trim_last_dashes (trim_first_dashes (dash_runs in_run s)) ≡ joined at_start s
unfolding trim_first_dashes dash_runs trim_last_dashes
trim-joined in_run String.[] = refl
trim-joined in_run (String.◌∷◌ c s) = elim (Bool-cases (is_alnum c)) [
  | inl letter ↦
      let plain = alnum-not_dash c letter in
      let (word, gap) = trim_last-joined s in rw (letter, plain, plain, word) refl
  | inr other ↦ elim (Bool-cases in_run) [
    | inl again ↦ rw (other, again) (trim-joined true s)
    | inr first ↦ rw (other, first) (trim-joined true s)
  ]
]

-- The letter that a character stands for, if it is no mark and no quote.
abbrev is_mark : Char → Bool
is_mark c = leb 768 (code c) && leb (code c) 879

abbrev is_quote : Char → Bool
is_quote c = code c =? 39 || code c =? 8217 || code c =? 96

abbrev letters : String → String
letters String.[] = ""
letters (String.◌∷◌ c s) =
    let rest = letters s in
    let kept = String.◌∷◌ (lower_letter c) (letters s) in
    if is_mark c || is_quote (lower_letter c) then rest else kept

letters-replaced : (s : String) → strip_quotes (to_lower_case (strip_marks s)) ≡ letters s
unfolding strip_quotes to_lower_case strip_marks
letters-replaced String.[] = refl
letters-replaced (String.◌∷◌ c s) = elim (Bool-cases (is_mark c)) [
  | inl mark ↦ rw mark (letters-replaced s)
  | inr plain ↦ elim (Bool-cases (is_quote (lower_letter c))) [
    | inl quote ↦ rw (plain, quote) (letters-replaced s)
    | inr letter ↦ rw (plain, letter, letters-replaced s) refl
  ]
]

-- The words of a text, with one hyphen between two of them, cut to 120 characters and to the end of a
-- word, or the fallback if there is none.
abbrev pub slug_of_words : Unicode → String → String → String
slug_of_words u value fallback =
    let slug = trim_last_dashes (take_chars 120 (joined at_start (letters (u.nfkd value)))) in
    if is_empty slug then fallback else slug

-- The chain of replacements makes the same slug as one pass over the words of the text.
pub slugify-slug_of_words :
    (u : Unicode) (value fallback : String)
    → slugify u value fallback ≡ slug_of_words u value fallback
unfolding slugify hyphenate
slugify-slug_of_words u value fallback =
    let kept = strip_quotes (to_lower_case (strip_marks (u.nfkd value))) in
    let same =
      ap (λ t. trim_last_dashes (trim_first_dashes t))
        (squeeze-spaced false (dash_runs false kept) (dash_runs-spaced false kept))
      ∙ trim-joined false kept
      ∙ ap (joined at_start) (letters-replaced (u.nfkd value)) in
    rw same refl
