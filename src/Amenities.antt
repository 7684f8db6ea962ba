-- ===== src/Amenities.antt =====
-- apps/api-core/src/modules/amenities/amenities.module.ts: amenities grouped by category.
pub mod Grouping
mod Tests
use real_estate_platform.Base.{List, [], ◌∷◌, ◌++◌, String, ◌==◌, if◌then◌else◌}
use real_estate_platform.Schema.{Amenity}

pub record AmenityGroup : Type 0 where
  pub category : String
  pub amenities : List Amenity

-- The amenity goes into the bucket of its category, or a new one behind the others: a `Map` keeps its
-- keys in the order in which they came.
unfoldable pub into_bucket : Amenity → List AmenityGroup → List AmenityGroup
into_bucket a [] = record { category = a.category; amenities = a ∷ [] } ∷ []
into_bucket a (g ∷ gs) =
    let pushed = record g { amenities = g.amenities ++ a ∷ [] } ∷ gs in
    let later = g ∷ into_bucket a gs in if g.category == a.category then pushed else later

-- `for (const amenity of amenities) { … }`.
unfoldable pub fill_buckets : List AmenityGroup → List Amenity → List AmenityGroup
fill_buckets groups [] = groups
fill_buckets groups (a ∷ amenities) = fill_buckets (into_bucket a groups) amenities

unfoldable pub grouped : List Amenity → List AmenityGroup
unfolding fill_buckets into_bucket
grouped amenities = fill_buckets [] amenities
