-- ===== src/Properties/Reads/Tests.antt =====
-- Listings are read, and read again after a removal.
use mathlib.Core.List.{Memᴰ}
use real_estate_platform.Base.{
  ◌⊎◌, ℕ, ◌≡◌, refl, false, [], ◌∷◌, List, some, none, String, ◌==◌, All, length, ◌≤◌,
  if◌then◌else◌,
}
use real_estate_platform.Base.Int.{pos}
use real_estate_platform.Enums.{available}
use real_estate_platform.Exec.{ok, steps}
use real_estate_platform.Cache
use real_estate_platform.Schema.{PropertyIndex}
use real_estate_platform.Listing.{Property, no_details}
use real_estate_platform.Identifier.{is_uuid, is_object_id_hex}
use real_estate_platform.Slug.{to_lower_case}
use real_estate_platform.Platform.{World}
use real_estate_platform.Platform.Memory.{in_memory, empty}
use real_estate_platform.Catalog.{invalidate}
use real_estate_platform.Catalog.Areas.{sync_property_count}
use real_estate_platform.Mirror.{soft_delete_with_mirror}
use real_estate_platform.Properties.Service.{invalidate_listing, remove}
use real_estate_platform.Properties.Reads.{
  Texts, identifies, is_similar, distance, insert, sort, read_cached, keep_cached, load,
  cached_or_loaded, find_one, similar,
}
use real_estate_platform.Properties.Reads.Likeness.{IsLike}
use real_estate_platform.Properties.Reads.Sorted.{IsSorted}
use real_estate_platform.Properties.Reads.Similar.{similar-IsSorted}

handlers : Unit {0}
unfolding steps Cache.get Cache.set Cache.sweep Cache.del_by_pattern Cache.del is_uuid
    is_object_id_hex to_lower_case invalidate sync_property_count soft_delete_with_mirror
    invalidate_listing remove identifies is_similar insert sort read_cached keep_cached load
    cached_or_loaded find_one similar
handlers = tt

abbrev listing : String → ℕ → Property
listing id price = record {
  mongo_id = "65f0a1b2c3d4e5f601234567";
  property_id = id;
  slug = id;
  price_amount = price;
  status = available;
  is_featured = false;
  compound_id = some "c1";
  developer_id = some "d1";
  area_id = some "a1";
  details = no_details;
  stats = record { views = 0; favorites = pos 0; leads = 0 };
  published_at = none;
  deleted_at = none;
}

abbrev villa : Property
villa = listing "sea-view" 1000

abbrev texts : Texts
texts = record {
  parse = λ s. if s == "sea-view" then some villa else none;
  stringify = λ d. d.property_id;
  lower_case = λ s. s;
}

abbrev others : List Property
others = listing "far" 1240 ∷ listing "dear" 1251 ∷ listing "near" 990 ∷ []

abbrev site : World in_memory
site = record empty { listings = villa ∷ others }

abbrev read : World in_memory
read = (find_one in_memory texts "sea-view" 1000 site).1

abbrev near_first : List Property
near_first = listing "near" 990 ∷ listing "far" 1240 ∷ []

alike : similar in_memory texts "sea-view" 8 1000 site ≡ (ok near_first, read)
unfolding handlers
alike = refl

similar-IsSorted_example :
    (source : Property) × ((find_one in_memory texts "sea-view" 1000 site).0 ≡ ok source)
    × All (IsLike source) near_first
    × (length near_first ≤ 8)
    × IsSorted (distance source) near_first
    × All
        (λ d. IsLike source d → Memᴰ d near_first ⊎ (length near_first ≡ 8))
        (in_memory.listings.rows site.listings)
similar-IsSorted_example =
    similar-IsSorted in_memory texts "sea-view" 8 1000 site read near_first alike

-- The databases are empty when the listing is read again.
abbrev emptied : World in_memory
emptied = record empty { redis = read.redis }

abbrev row : PropertyIndex
row = record {
  id = "sea-view";
  mongo_id = "65f0a1b2c3d4e5f601234567";
  slug = "sea-view";
  compound_id = some "c1";
  developer_id = some "d1";
  area_id = some "a1";
  price_min = 1000;
  status = available;
  is_featured = false;
  published_at = none;
  deleted_at = none;
}

abbrev read_by_object_id : World in_memory
read_by_object_id =
    (find_one in_memory texts "65f0a1b2c3d4e5f601234567" 1000
      (record empty { listings = villa ∷ []; property_index = row ∷ [] })).1

abbrev removed : World in_memory
removed = (remove in_memory "sea-view" 3 2000 read_by_object_id).1

removal : remove in_memory "sea-view" 3 2000 read_by_object_id ≡ (ok "sea-view", removed)
unfolding handlers
removal = refl

-- The removal forgets what is cached under the identifier and the slug, and not what is cached under
-- the object identifier.
still_read : find_one in_memory texts "65f0a1b2c3d4e5f601234567" 3000 removed ≡ (ok villa, removed)
unfolding handlers
still_read = refl
