-- ===== src/Properties/Service.antt =====
-- apps/api-core/src/modules/properties/properties.service.ts: the handlers that write listings.
use real_estate_platform.Base.{ℕ, Option, none, some, List, [], ◌∷◌, map, String, given, or_else}
use real_estate_platform.Exec.{Exec, query, or_throw, pure, catch_with, ◌>>=◌, ◌>>◌}
use real_estate_platform.Schema.{Area, Compound, Developer}
use real_estate_platform.Listing.{Property, Address}
use real_estate_platform.Platform.{Platform, World}
use real_estate_platform.Cache
use real_estate_platform.CacheKeys.{property_key}
use real_estate_platform.Slug.{Unicode, build_unique_slug}
use real_estate_platform.Catalog.{
  is_area, is_compound, is_developer, unknown_reference, is_taken, invalidate,
}
use real_estate_platform.Catalog.Areas.{sync_property_count}
use real_estate_platform.Mirror.{
  create_with_mirror, update_with_mirror, soft_delete_with_mirror, is_live, listing_missing,
}
use real_estate_platform.Properties.{has_property_id, on_cache}
use real_estate_platform.Properties.Media.{Web}
use real_estate_platform.Properties.Pricing.{is_reference, next_reference}
use real_estate_platform.Properties.Writes.{
  LocationDto, CreatePropertyDto, UpdatePropertyDto, has_listing_slug, has_listing_slug_elsewhere,
  no_developer, to_address, new_listing,
}
use real_estate_platform.Properties.Changes.{
  area_sqm, new_price, new_plan, apply_changes, amount_or, merged_specs, desired_slug,
}

module _ (p : Platform) where
  abbrev keys_of : String → Option String → List String
  keys_of id none = property_key id ∷ []
  keys_of id (some slug) = property_key id ∷ property_key slug ∷ []

  unfoldable pub invalidate_listing : String → Option String → ℕ → ℕ → Exec (World p) ℕ
  invalidate_listing id slug fuel now = do
    on_cache p (Cache.del p.redis (keys_of id (given slug)) now)
    invalidate p fuel now

  unfoldable pub after_write : String → String → Option String → ℕ → ℕ → Exec (World p) ℕ
  after_write id area_id previous_slug fuel now = do
    invalidate_listing id previous_slug fuel now
    catch_with 0 (sync_property_count p area_id fuel now)

  unfoldable pub find_area : String → String → Exec (World p) Area
  find_area id field = do
    found ← query (λ w. p.areas.find_first (is_area id) w.areas)
    or_throw found (unknown_reference "Area" id field "unknown area")

  unfoldable pub find_compound : String → Exec (World p) (Compound × Developer)
  find_compound id = do
    found ← query (λ w. p.compounds.find_first (is_compound id) w.compounds)
    compound ← or_throw found (unknown_reference "Compound" id "compoundId" "unknown compound")
    joined ← query (λ w. p.developers.find_first (is_developer compound.developer_id) w.developers)
    developer ← or_throw joined no_developer
    pure (compound, developer)

  unfoldable pub next_reference_no : Exec (World p) String
  next_reference_no = do
    ds ← query (λ w. p.listings.find_many (λ d. is_reference d.details.reference_no) w.listings)
    pure (next_reference (map (λ d. d.details.reference_no) ds))

  unfoldable pub reference_or_next : Option String → Exec (World p) String
  reference_or_next none = next_reference_no
  reference_or_next (some reference_no) = pure reference_no

  unfoldable pub create :
      Unicode → Web → CreatePropertyDto → String → String → ℕ → ℕ → Exec (World p) Property
  create u web dto id mongo_id fuel now = do
    related ← find_compound dto.compound_id
    area ← find_area dto.location.area_id "location.areaId"
    slug ←
        build_unique_slug (is_taken p.listings (λ w. w.listings) has_listing_slug) u
          (or_else dto.slug dto.title.en) "property" now
    reference_no ← reference_or_next dto.reference_no
    doc ←
        create_with_mirror p
          (new_listing web dto related.0 related.1 area id mongo_id slug reference_no now)
    after_write doc.property_id area.id none fuel now
    pure doc

  unfoldable pub new_listing_slug :
      Unicode → String → Option String → ℕ → Exec (World p) (Option String)
  new_listing_slug u id none now = pure none
  new_listing_slug u id (some desired) now = do
    slug ←
        build_unique_slug (is_taken p.listings (λ w. w.listings) (has_listing_slug_elsewhere id)) u
          desired "property" now
    pure (some slug)

  unfoldable pub new_location :
      Option LocationDto → String → Exec (World p) (Option (String × Address))
  new_location none old = pure none
  new_location (some l) old = do
    area ← find_area l.area_id "location.areaId"
    pure (some (area.id, to_address area l old))

  unfoldable pub new_relations : Option String → Exec (World p) (Option (Compound × Developer))
  new_relations none = pure none
  new_relations (some id) = do related ← find_compound id; pure (some related)

  unfoldable pub update :
      Unicode → Web → String → UpdatePropertyDto → ℕ → ℕ → Exec (World p) Property
  update u web id dto fuel now = do
    found ← query (λ w. p.listings.find_first (is_live id) w.listings)
    existing ← or_throw found (listing_missing id)
    slug ← new_listing_slug u id (desired_slug dto.slug dto.title) now
    location ← new_location dto.location existing.details.location.address
    compound ← new_relations (given dto.compound_id)
    doc ← update_with_mirror p id (
        apply_changes web dto (record {
          slug = slug;
          specs = merged_specs dto.specs existing.details.specs;
          price = new_price dto.price (area_sqm dto.specs existing.details.specs);
          payment_plan = new_plan dto.payment_plan (amount_or dto.price existing.price_amount);
          location = location;
          compound = compound;
        }))
    after_write id (or_else existing.area_id "") (some existing.slug) fuel now
    pure doc

  unfoldable pub remove : String → ℕ → ℕ → Exec (World p) String
  remove id fuel now = do
    found ← query (λ w. p.listings.find_first (has_property_id id) w.listings)
    existing ← or_throw found (listing_missing id)
    soft_delete_with_mirror p id now
    invalidate_listing id (some existing.slug) fuel now
    catch_with 0 (sync_property_count p (or_else existing.area_id "") fuel now)
    pure id
