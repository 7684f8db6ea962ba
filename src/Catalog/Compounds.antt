-- ===== src/Catalog/Compounds.antt =====
-- apps/api-core/src/modules/compounds/compounds.service.ts.
pub mod Rows
use Prim.Native.String.{◌++◌}
use real_estate_platform.Base.{
  text_is, ℕ, Bool, true, false, not, ◌&&◌, Option, none, some, String, ◌==◌, ltb, or_else, is_some,
  given, List, [], ◌∷◌, map, if◌then◌else◌,
}
use real_estate_platform.Base.Int.{ℤ}
use real_estate_platform.Errors.{Thrown, not_found_error, compound_not_found}
use real_estate_platform.Exec.{Exec, query, or_throw, pure, if_given, transaction, ◌>>=◌, ◌>>◌}
use real_estate_platform.Schema.{Compound, CompoundAmenity, PropertyIndex}
use real_estate_platform.Table.Checks.{require}
use real_estate_platform.Platform.{Platform, World}
use real_estate_platform.Slug.{Unicode, build_unique_slug}
use real_estate_platform.Identifier.{is_uuid}
use real_estate_platform.Catalog.{
  is_area, is_developer, is_compound, first_given, given_or_kept, is_taken, new_slug,
  unknown_reference, on_compounds, on_compound_amenities, invalidate,
}
use real_estate_platform.Catalog.Areas.{price_range}
use real_estate_platform.Catalog.Developers.{sync_projects_count}
pub use real_estate_platform.Catalog.Compounds.Rows.{
  CreateCompoundDto, UpdateCompoundDto, CompoundDetail, compound_missing, has_slug,
  has_slug_elsewhere, is_listed_at, links, is_link, or_empty,
}
unfoldable pub use real_estate_platform.Catalog.Compounds.Rows.{new_compound, apply_compound}

module _ (p : Platform) where
  unfoldable pub assert_developer : String → Exec (World p) (Unit {0})
  assert_developer id =
      require p.developers (λ w. w.developers) (is_developer id)
        (unknown_reference "Developer" id "developerId" "unknown developer")

  unfoldable pub assert_area : String → Exec (World p) (Unit {0})
  assert_area id =
      require p.areas (λ w. w.areas) (is_area id)
        (unknown_reference "Area" id "areaId" "unknown area")

  unfoldable pub assert_relations_exist : Option String → Option String → Exec (World p) (Unit {0})
  assert_relations_exist developer_id area_id = do
    if_given (given developer_id) assert_developer
    if_given (given area_id) assert_area

  unfoldable pub find_one : String → Exec (World p) CompoundDetail
  find_one id_or_slug = do
    found ← query (λ w.
        p.compounds.find_first
          (if is_uuid id_or_slug then is_compound id_or_slug else has_slug id_or_slug) w.compounds)
    compound ← or_throw found (compound_missing id_or_slug)
    amenities ← query (λ w. p.compound_amenities.find_many (links compound.id) w.compound_amenities)
    property_count ← query (λ w. p.property_index.count (is_listed_at compound.id) w.property_index)
    prices ← query (λ w. p.property_index.find_many (is_listed_at compound.id) w.property_index)
    pure (record {
      compound = compound;
      amenities = map (λ l. l.amenity_id) amenities;
      property_count = property_count;
      price_range = price_range prices;
    })

  unfoldable pub create_links : String → List String → Exec (World p) (Unit {0})
  create_links id [] = pure tt
  create_links id (a ∷ amenities) = do
    on_compound_amenities p
        (p.compound_amenities.create (record { compound_id = id; amenity_id = a }))
    create_links id amenities

  -- `createMany` with `skipDuplicates: true`.
  unfoldable pub create_link_unless : Bool → String → String → Exec (World p) (Unit {0})
  create_link_unless true id a = pure tt
  create_link_unless false id a = do
    on_compound_amenities p
        (p.compound_amenities.create (record { compound_id = id; amenity_id = a }))
    pure tt

  unfoldable pub create_many_links : String → List String → Exec (World p) (Unit {0})
  create_many_links id [] = pure tt
  create_many_links id (a ∷ amenities) = do
    n ← query (λ w. p.compound_amenities.count (is_link id a) w.compound_amenities)
    create_link_unless (ltb 0 n) id a
    create_many_links id amenities

  -- The row and its links are written by one nested call.
  unfoldable pub insert : CreateCompoundDto → String → String → Exec (World p) Compound
  insert dto id slug = do
    created ← on_compounds p (p.compounds.create (new_compound dto id slug))
    create_links id (or_empty dto.amenity_ids)
    pure created

  unfoldable pub create :
      Unicode → CreateCompoundDto → String → ℕ → ℕ → Exec (World p) CompoundDetail
  create u dto id fuel now = do
    assert_relations_exist (some dto.developer_id) (some dto.area_id)
    slug ←
        build_unique_slug (is_taken p.compounds (λ w. w.compounds) has_slug) u
          (or_else dto.slug dto.name) "compound" now
    created ← transaction (insert dto id slug)
    sync_projects_count p dto.developer_id fuel now
    invalidate p fuel now
    find_one created.id

  -- `if (dto.amenityIds !== undefined) { … }`.
  unfoldable pub replace_links : String → Option (List String) → Exec (World p) (Unit {0})
  replace_links id none = pure tt
  replace_links id (some amenities) = do
    on_compound_amenities p (p.compound_amenities.delete_many (links id))
    create_many_links id amenities

  unfoldable pub write : String → Option String → UpdateCompoundDto → Exec (World p) (Unit {0})
  write id slug dto = do
    on_compounds p (p.compounds.update (is_compound id) (apply_compound slug dto))
    replace_links id dto.amenity_ids

  -- `if (dto.developerId && dto.developerId !== existing.developerId) { … }`.
  unfoldable pub sync_previous : Option String → String → ℕ → ℕ → Exec (World p) ℕ
  sync_previous none existing fuel now = pure 0
  sync_previous (some developer_id) existing fuel now =
      if developer_id == existing then pure 0 else sync_projects_count p existing fuel now

  unfoldable pub update :
      Unicode → String → UpdateCompoundDto → ℕ → ℕ → Exec (World p) CompoundDetail
  update u id dto fuel now = do
    found ← query (λ w. p.compounds.find_first (is_compound id) w.compounds)
    existing ← or_throw found (compound_missing id)
    assert_relations_exist dto.developer_id dto.area_id
    slug ←
        new_slug (is_taken p.compounds (λ w. w.compounds) (has_slug_elsewhere id)) u
          (first_given dto.slug dto.name) "compound" now
    transaction (write id slug dto)
    sync_projects_count p (or_else dto.developer_id existing.developer_id) fuel now
    sync_previous (given dto.developer_id) existing.developer_id fuel now
    invalidate p fuel now
    find_one id

  -- `if (listings > 0) { … } else { … }`.
  unfoldable pub deactivate_or_delete : Bool → String → Exec (World p) Compound
  deactivate_or_delete true id =
      on_compounds p (p.compounds.update (is_compound id) (λ c. record c { is_active = false }))
  deactivate_or_delete false id = on_compounds p (p.compounds.delete (is_compound id))

  unfoldable pub remove : String → ℕ → ℕ → Exec (World p) String
  remove id fuel now = do
    found ← query (λ w. p.compounds.find_first (is_compound id) w.compounds)
    existing ← or_throw found (compound_missing id)
    listings ← query (λ w. p.property_index.count (is_listed_at id) w.property_index)
    deactivate_or_delete (ltb 0 listings) id
    sync_projects_count p existing.developer_id fuel now
    invalidate p fuel now
    pure id
