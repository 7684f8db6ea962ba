-- ===== src/Properties.antt =====
-- apps/api-core/src/modules/properties/properties.service.ts. Here are the counters of a listing that
-- favourites and enquiries keep (an update of them that MongoDB refuses is dropped); the files below
-- hold the pictures, the prices and reference numbers, and the writes of a listing.
pub mod Counters
pub mod Media
pub mod Pricing
pub mod Writes
pub mod Changes
pub mod Service
pub mod Reads
pub mod Pictures
pub mod References
pub mod Moves
pub mod Creation
mod Tests
use real_estate_platform.Base.{ℕ, ◌+◌, Bool, [], ◌∷◌, String, ◌==◌}
use real_estate_platform.Base.Int.{ℤ, ◌+ℤ◌}
use real_estate_platform.Exec.{Exec, Reply, store, change, catch_with, ◌>>◌}
use real_estate_platform.Listing.{Property, Stats}
use real_estate_platform.Cache
use real_estate_platform.CacheKeys.{property_key}
use real_estate_platform.Platform.{Platform, World}

abbrev pub has_property_id : String → Property → Bool
has_property_id id d = d.property_id == id

abbrev pub add_favorites : ℤ → Property → Property
add_favorites delta d = record d { stats = record s { favorites = s.favorites +ℤ delta } }
  where
    s : Stats
    s = d.stats

abbrev pub add_lead : Property → Property
add_lead d = record d { stats = record s { leads = s.leads + 1 } }
  where
    s : Stats
    s = d.stats

module _ (p : Platform) where
  abbrev pub on_listings :
      {A : Type 0} → (p.listings.Db → Reply (A × p.listings.Db)) → Exec (World p) A
  on_listings f = store (λ w. w.listings) (λ w d. record w { listings = d }) f

  abbrev pub on_cache : {A : Type 0} → (p.redis.Store → A × p.redis.Store) → Exec (World p) A
  on_cache f = change (λ w. w.redis) (λ w d. record w { redis = d }) f

  unfoldable pub adjust_favorite_count : String → ℤ → ℕ → Exec (World p) ℕ
  adjust_favorite_count property_id delta now = do
    catch_with 0
        (on_listings (p.listings.update_many (has_property_id property_id) (add_favorites delta)))
    on_cache (Cache.del p.redis (property_key property_id ∷ []) now)

  unfoldable pub increment_lead_count : String → ℕ → Exec (World p) ℕ
  increment_lead_count property_id now = do
    catch_with 0 (on_listings (p.listings.update_many (has_property_id property_id) add_lead))
    on_cache (Cache.del p.redis (property_key property_id ∷ []) now)
