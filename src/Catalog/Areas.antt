-- ===== src/Catalog/Areas.antt =====
-- apps/api-core/src/modules/areas/areas.service.ts.
use Prim.Native.String.{◌++◌}
use real_estate_platform.Base.{
  text_is, ℕ, Bool, true, false, not, ◌&&◌, Option, none, some, String, ◌==◌, ltb, or_else, is_some,
  List, [], ◌∷◌, map, length, dedupe, min, max, if◌then◌else◌,
}
use real_estate_platform.Base.Int.{ℤ}
use real_estate_platform.Errors.{Thrown, not_found_error, area_not_found}
use real_estate_platform.Exec.{Exec, query, or_throw, pure, ◌>>=◌, ◌>>◌}
use real_estate_platform.Schema.{Area, Compound, PropertyIndex}
use real_estate_platform.Table.Checks.{require}
use real_estate_platform.Platform.{Platform, World}
use real_estate_platform.Slug.{Unicode, build_unique_slug}
use real_estate_platform.Identifier.{is_uuid}
use real_estate_platform.Catalog.{
  is_area, first_given, given_or_kept, is_taken, new_slug, on_areas, invalidate,
}

pub record CreateAreaDto : Type 0 where
  pub name_en : String
  pub name_ar : String
  pub slug : Option String
  pub city : String
  pub governorate : String
  pub description_en : Option String
  pub description_ar : Option String
  pub lat : ℤ
  pub lng : ℤ
  pub hero_image : Option String
  pub avg_price_per_meter : Option ℕ
  pub is_active : Option Bool

-- `PartialType(CreateAreaDto)`.
pub record UpdateAreaDto : Type 0 where
  pub name_en : Option String
  pub name_ar : Option String
  pub slug : Option String
  pub city : Option String
  pub governorate : Option String
  pub description_en : Option String
  pub description_ar : Option String
  pub lat : Option ℤ
  pub lng : Option ℤ
  pub hero_image : Option String
  pub avg_price_per_meter : Option ℕ
  pub is_active : Option Bool

pub record AreaDetail : Type 0 where
  pub area : Area
  pub compound_count : ℕ
  pub developer_count : ℕ
  pub price_range : Option (ℕ × ℕ)

abbrev pub area_missing : String → Thrown
area_missing id = not_found_error ("Area \"" ++ (id ++ "\" was not found")) area_not_found

abbrev pub has_slug : String → Area → Bool
has_slug slug a = a.slug == slug

-- `{ slug: candidate, NOT: { id } }`.
abbrev pub has_slug_elsewhere : String → String → Area → Bool
has_slug_elsewhere id slug a = a.slug == slug && not (a.id == id)

abbrev pub lies_in : String → Compound → Bool
lies_in area_id c = c.area_id == area_id

abbrev pub is_active_in : String → Compound → Bool
is_active_in area_id c = c.area_id == area_id && c.is_active

-- `{ areaId, deletedAt: null }`.
abbrev pub is_listed_in : String → PropertyIndex → Bool
is_listed_in area_id r = text_is r.area_id area_id && not (is_some r.deleted_at)

-- The row that a creation stores, with the defaults of the schema.
unfoldable pub new_area : CreateAreaDto → String → String → Area
new_area dto id slug = record {
  id = id;
  slug = slug;
  name_en = dto.name_en;
  name_ar = dto.name_ar;
  city = dto.city;
  governorate = dto.governorate;
  description_en = dto.description_en;
  description_ar = dto.description_ar;
  lat = dto.lat;
  lng = dto.lng;
  hero_image = dto.hero_image;
  property_count = 0;
  avg_price_per_meter = dto.avg_price_per_meter;
  is_active = or_else dto.is_active true;
}

unfoldable pub apply_area : Option String → UpdateAreaDto → Area → Area
apply_area slug dto a = record a {
  slug = or_else slug a.slug;
  name_en = or_else dto.name_en a.name_en;
  name_ar = or_else dto.name_ar a.name_ar;
  city = or_else dto.city a.city;
  governorate = or_else dto.governorate a.governorate;
  description_en = given_or_kept dto.description_en a.description_en;
  description_ar = given_or_kept dto.description_ar a.description_ar;
  lat = or_else dto.lat a.lat;
  lng = or_else dto.lng a.lng;
  hero_image = given_or_kept dto.hero_image a.hero_image;
  avg_price_per_meter = given_or_kept dto.avg_price_per_meter a.avg_price_per_meter;
  is_active = or_else dto.is_active a.is_active;
}

-- The least and the greatest of the prices, if there are any.
abbrev pub price_range : List PropertyIndex → Option (ℕ × ℕ)
price_range [] = none
price_range (r ∷ rs) = widen r.price_min (price_range rs)
  where
    widen : ℕ → Option (ℕ × ℕ) → Option (ℕ × ℕ)
    widen n none = some (n, n)
    widen n (some (low, high)) = some (min n low, max n high)

module _ (p : Platform) where
  unfoldable pub ensure_exists : String → Exec (World p) (Unit {0})
  ensure_exists id = require p.areas (λ w. w.areas) (is_area id) (area_missing id)

  unfoldable pub find_one : String → Exec (World p) AreaDetail
  find_one id_or_slug = do
    found ← query (λ w.
        p.areas.find_first (if is_uuid id_or_slug then is_area id_or_slug else has_slug id_or_slug)
          w.areas)
    area ← or_throw found (area_missing id_or_slug)
    compound_count ← query (λ w. p.compounds.count (is_active_in area.id) w.compounds)
    developers ← query (λ w. p.compounds.find_many (is_active_in area.id) w.compounds)
    prices ← query (λ w. p.property_index.find_many (is_listed_in area.id) w.property_index)
    pure (record {
      area = area;
      compound_count = compound_count;
      developer_count = length (dedupe (map (λ c. c.developer_id) developers));
      price_range = price_range prices;
    })

  unfoldable pub create : Unicode → CreateAreaDto → String → ℕ → ℕ → Exec (World p) Area
  create u dto id fuel now = do
    slug ←
        build_unique_slug (is_taken p.areas (λ w. w.areas) has_slug) u
          (or_else dto.slug dto.name_en) "area" now
    area ← on_areas p (p.areas.create (new_area dto id slug))
    invalidate p fuel now
    pure area

  unfoldable pub update : Unicode → String → UpdateAreaDto → ℕ → ℕ → Exec (World p) Area
  update u id dto fuel now = do
    ensure_exists id
    slug ←
        new_slug (is_taken p.areas (λ w. w.areas) (has_slug_elsewhere id)) u
          (first_given dto.slug dto.name_en) "area" now
    area ← on_areas p (p.areas.update (is_area id) (apply_area slug dto))
    invalidate p fuel now
    pure area

  -- `if (compounds > 0) { … } else { … }`.
  unfoldable pub deactivate_or_delete : Bool → String → Exec (World p) Area
  deactivate_or_delete true id =
      on_areas p (p.areas.update (is_area id) (λ a. record a { is_active = false }))
  deactivate_or_delete false id = on_areas p (p.areas.delete (is_area id))

  unfoldable pub remove : String → ℕ → ℕ → Exec (World p) String
  remove id fuel now = do
    ensure_exists id
    compounds ← query (λ w. p.compounds.count (lies_in id) w.compounds)
    deactivate_or_delete (ltb 0 compounds) id
    invalidate p fuel now
    pure id

  unfoldable pub sync_property_count : String → ℕ → ℕ → Exec (World p) ℕ
  sync_property_count area_id fuel now = do
    property_count ← query (λ w. p.property_index.count (is_listed_in area_id) w.property_index)
    on_areas p
        (p.areas.update (is_area area_id) (λ a. record a { property_count = property_count }))
    invalidate p fuel now
