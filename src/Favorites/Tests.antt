-- ===== src/Favorites/Tests.antt =====
-- Runs of `add` and `remove` on one listing in memory.
use real_estate_platform.Base.{ℕ, ◌≡◌, refl, Bool, true, false, not, none, List, [], ◌∷◌, any, map}
use real_estate_platform.Base.Int.{pos, ◌+ℤ◌}
use real_estate_platform.Enums.{available}
use real_estate_platform.Exec.{Result, ok, err, steps}
use real_estate_platform.Schema.{PropertyIndex}
use real_estate_platform.Listing.{Property, no_details}
use real_estate_platform.Table.Checks.{require}
use real_estate_platform.Cache
use real_estate_platform.Platform.{World}
use real_estate_platform.Platform.Memory.{in_memory, empty}
use real_estate_platform.Properties.{adjust_favorite_count}
use real_estate_platform.Leads.{is_live_property}
use real_estate_platform.Favorites.{
  is_favorite, new_favorite, save, add_unless, add, uncount, remove, property_missing,
}
use real_estate_platform.Favorites.SavedSet.{Call, adds, removes, Allowed}
use real_estate_platform.Favorites.Refinement.{handle, serve, saved_in, serve-Allowed}
use real_estate_platform.Favorites.Idempotence.{IsConsistent, add_sound}

handlers : Unit {0}
unfolding steps require save add_unless add uncount remove adjust_favorite_count Cache.del ◌+ℤ◌
handlers = tt

abbrev listing_row : PropertyIndex
listing_row = record {
  id = "p1";
  mongo_id = "m1";
  slug = "villa";
  compound_id = none;
  developer_id = none;
  area_id = none;
  price_min = 100;
  status = available;
  is_featured = false;
  published_at = none;
  deleted_at = none;
}

abbrev listing : Property
listing = record {
  mongo_id = "m1";
  property_id = "p1";
  slug = "villa";
  price_amount = 100;
  status = available;
  is_featured = false;
  compound_id = none;
  developer_id = none;
  area_id = none;
  details = no_details;
  stats = record { views = 0; favorites = pos 0; leads = 0 };
  published_at = none;
  deleted_at = none;
}

abbrev site : World in_memory
site = record empty { property_index = listing_row ∷ []; listings = listing ∷ [] }

abbrev saved : World in_memory
saved = record site {
  favorites = new_favorite "u1" "p1" 3 ∷ [];
  listings = record listing { stats = record { views = 0; favorites = pos 1; leads = 0 } } ∷ [];
}

added : add in_memory "u1" "p1" 3 site ≡ (ok true, saved)
unfolding handlers
added = refl

added_again : add in_memory "u1" "p1" 4 saved ≡ (ok false, saved)
unfolding handlers
added_again = refl

removed : remove in_memory "u1" "p1" 5 saved ≡ (ok true, site)
unfolding handlers
removed = refl

removed_again : remove in_memory "u1" "p1" 6 site ≡ (ok false, site)
unfolding handlers
removed_again = refl

unknown : add in_memory "u1" "p2" 3 site ≡ (err (property_missing "p2"), site)
unfolding handlers
unknown = refl

add_sound_example :
    (any (is_live_property "p1") (listing_row ∷ []) ≡ true)
    × (true ≡ not (any (is_favorite "u1" "p1") []))
    × (true ≡ false → saved ≡ site)
    × (any (is_favorite "u1" "p1") (new_favorite "u1" "p1" 3 ∷ []) ≡ true)
    × (IsConsistent in_memory site → IsConsistent in_memory saved)
add_sound_example = add_sound in_memory "u1" "p1" 3 site true saved added ((_, refl), (_, refl))

abbrev calls : List (Call × ℕ)
calls =
    (adds "u1" "p1", 3) ∷ (adds "u1" "p1", 4) ∷ (adds "u1" "p2", 5) ∷ (removes "u2" "p1", 6) ∷ []

abbrev answered : List (Result Bool)
answered = ok true ∷ ok false ∷ err (property_missing "p2") ∷ ok false ∷ []

served : serve in_memory calls site ≡ (answered, saved)
unfolding serve handle handlers
served = refl

serve-Allowed_example :
    Allowed
      (map (λ c. c.0) calls)
      (serve in_memory calls site).0
      (saved_in in_memory site)
      (saved_in in_memory (serve in_memory calls site).1)
serve-Allowed_example = serve-Allowed in_memory calls site
