-- ===== src/Slug/Tests.antt =====
-- Slugs of concrete names.
use real_estate_platform.Base.{
  ◌≡◌, refl, sym, ap, Bool, true, List, [], ◌∷◌, String, includes, ◌≤◌, arith,
}
use real_estate_platform.Exec.{Exec, ok, ok-injective, steps}
use real_estate_platform.Slug.{
  Unicode, slugify, to_string, try_numbered, numbered, build_unique_slug,
}
use real_estate_platform.Slug.Shape.{is_slug, length, slugify-is_slug}
use real_estate_platform.Slug.OnePass.{slug_of_words, slugify-slug_of_words}
use real_estate_platform.Slug.Unique.{Asks, IsFree, build_unique_slug-IsFree}

abbrev plain : Unicode
plain = record { nfkd = λ s. s }

palm : slugify plain "Palm Hills — New Cairo!" "item" ≡ "palm-hills-new-cairo"
unfolding slugify
palm = refl

october : slugify plain "  6th of October  " "item" ≡ "6th-of-october"
unfolding slugify
october = refl

quoted : slugify plain "Ora Developers's ZED" "item" ≡ "ora-developerss-zed"
unfolding slugify
quoted = refl

nothing_left : slugify plain "—" "area" ≡ "area"
unfolding slugify
nothing_left = refl

stamp : to_string 36 1767225600000 ≡ "mjuohs00"
unfolding to_string
stamp = refl

slugify-is_slug_example :
    (is_slug (slugify plain "Palm Hills — New Cairo!" "item") ≡ true)
    × (length (slugify plain "Palm Hills — New Cairo!" "item") ≤ 120)
slugify-is_slug_example = slugify-is_slug plain "Palm Hills — New Cairo!" "item" refl (omega arith)

slugify-slug_of_words_example :
    slugify plain "Palm Hills — New Cairo!" "item"
    ≡ slug_of_words plain "Palm Hills — New Cairo!" "item"
slugify-slug_of_words_example = slugify-slug_of_words plain "Palm Hills — New Cairo!" "item"

-- The texts that are taken are the store.
abbrev is_in : String → Exec (List String) Bool
is_in c names = (ok (includes names c), names)

is_in-Asks : Asks is_in (λ c names. includes names c)
is_in-Asks c w w' b e = (sym (ok-injective (ap (λ r. r.0) e)), sym (ap (λ r. r.1) e))

abbrev names : List String
names = "sodic-east" ∷ "sodic-east-2" ∷ []

third : build_unique_slug is_in plain "SODIC East" "item" 0 names ≡ (ok "sodic-east-3", names)
unfolding steps build_unique_slug try_numbered numbered slugify
third = refl

build_unique_slug-IsFree_example :
    IsFree is_in
      (λ c taken. includes taken c)
      (slugify plain "SODIC East" "item")
      50
      0
      names
      "sodic-east-3"
    × (names ≡ names)
build_unique_slug-IsFree_example =
    build_unique_slug-IsFree is_in (λ c taken. includes taken c) is_in-Asks plain "SODIC East"
      "item" 0 names names "sodic-east-3" third
