-- ===== src/Amenities/Tests.antt =====
-- Amenities of two categories.
use real_estate_platform.Base.{◌≡◌, refl, List, [], ◌∷◌, String}
use real_estate_platform.Schema.{Amenity}
use real_estate_platform.Amenities.{grouped}
use real_estate_platform.Amenities.Grouping.{by_category, grouped-by_category}

abbrev amenity : String → String → Amenity
amenity id category = record {
  id = id;
  slug = id;
  name_en = id;
  name_ar = id;
  icon = id;
  category = category;
}

abbrev three : List Amenity
three = amenity "gate" "security" ∷ amenity "pool" "wellness" ∷ amenity "guard" "security" ∷ []

two_groups :
    grouped three
    ≡ record {
      category = "security";
      amenities = amenity "gate" "security" ∷ amenity "guard" "security" ∷ [];
    }
      ∷ record { category = "wellness"; amenities = amenity "pool" "wellness" ∷ [] }
      ∷ []
unfolding grouped
two_groups = refl

grouped-by_category_example : grouped three ≡ by_category three
grouped-by_category_example = grouped-by_category three
