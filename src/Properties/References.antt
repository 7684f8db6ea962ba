-- ===== src/Properties/References.antt =====
-- The reference numbers that listings are given.
use real_estate_platform.Base.{◌≡◌, refl, sym, ap, ◌∙◌, List, ◌∷◌, some, String}
use real_estate_platform.Properties.Pricing.{later, latest, next_reference}

latest-later : (r : String) (rs : List String) → latest (r ∷ rs) ≡ some (later r (latest rs))
unfolding latest
latest-later r rs = refl

-- A fifth digit: the text sorts before the one with four.
shorter_is_later : later "TC-10000" (some "TC-9999") ≡ "TC-9999"
unfolding later
shorter_is_later = refl

after_9999 : (rs : List String) → latest rs ≡ some "TC-9999" → next_reference rs ≡ "TC-10000"
unfolding next_reference
after_9999 rs h = rw h refl

-- Once TC-9999 is the latest reference in the order of the texts, the next one is TC-10000, and with a
-- listing of that reference it is TC-10000 again.
pub next_reference-repeats :
    (rs : List String)
    → latest rs ≡ some "TC-9999"
    → (next_reference rs ≡ "TC-10000")
      × (next_reference (next_reference rs ∷ rs) ≡ next_reference rs)
next_reference-repeats rs h =
    let first = after_9999 rs h in
    let again =
      latest-later (next_reference rs) rs
      ∙ ap some
          (ap (λ r. later r (latest rs)) first ∙ ap (later "TC-10000") h ∙ shorter_is_later) in
    (first, after_9999 (next_reference rs ∷ rs) again ∙ sym first)
