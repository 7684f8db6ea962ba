-- ===== src/Catalog/Compounds/Rows.antt =====
-- apps/api-core/src/modules/compounds: the bodies of requests, and the rows that they make.
use Prim.Native.String.{◌++◌}
use real_estate_platform.Base.{
  text_is, ℕ, Bool, true, false, not, ◌&&◌, Option, none, some, String, ◌==◌, or_else, is_some,
  List, [],
}
use real_estate_platform.Base.Int.{ℤ}
use real_estate_platform.Errors.{Thrown, not_found_error, compound_not_found}
use real_estate_platform.Schema.{Compound, CompoundAmenity, PropertyIndex}
use real_estate_platform.Catalog.{given_or_kept}

pub record CreateCompoundDto : Type 0 where
  pub name : String
  pub name_ar : String
  pub slug : Option String
  pub developer_id : String
  pub area_id : String
  pub description_en : Option String
  pub description_ar : Option String
  pub starting_price : Option ℕ
  pub max_price : Option ℕ
  pub min_area_sqm : Option ℕ
  pub max_area_sqm : Option ℕ
  pub delivery_year : Option ℕ
  pub installment_years : Option ℕ
  pub down_payment_percent : Option ℕ
  pub images : Option (List String)
  pub master_plan_url : Option String
  pub lat : ℤ
  pub lng : ℤ
  pub unit_types : Option (List String)
  pub amenity_ids : Option (List String)
  pub is_featured : Option Bool
  pub is_active : Option Bool

-- `PartialType(CreateCompoundDto)`.
pub record UpdateCompoundDto : Type 0 where
  pub name : Option String
  pub name_ar : Option String
  pub slug : Option String
  pub developer_id : Option String
  pub area_id : Option String
  pub description_en : Option String
  pub description_ar : Option String
  pub starting_price : Option ℕ
  pub max_price : Option ℕ
  pub min_area_sqm : Option ℕ
  pub max_area_sqm : Option ℕ
  pub delivery_year : Option ℕ
  pub installment_years : Option ℕ
  pub down_payment_percent : Option ℕ
  pub images : Option (List String)
  pub master_plan_url : Option String
  pub lat : Option ℤ
  pub lng : Option ℤ
  pub unit_types : Option (List String)
  pub amenity_ids : Option (List String)
  pub is_featured : Option Bool
  pub is_active : Option Bool

-- The amenities by their identifiers; payment plans are not modelled.
pub record CompoundDetail : Type 0 where
  pub compound : Compound
  pub amenities : List String
  pub property_count : ℕ
  pub price_range : Option (ℕ × ℕ)

abbrev pub compound_missing : String → Thrown
compound_missing id =
    not_found_error ("Compound \"" ++ (id ++ "\" was not found")) compound_not_found

abbrev pub has_slug : String → Compound → Bool
has_slug slug c = c.slug == slug

abbrev pub has_slug_elsewhere : String → String → Compound → Bool
has_slug_elsewhere id slug c = c.slug == slug && not (c.id == id)

abbrev pub is_listed_at : String → PropertyIndex → Bool
is_listed_at compound_id r = text_is r.compound_id compound_id && not (is_some r.deleted_at)

abbrev pub links : String → CompoundAmenity → Bool
links compound_id l = l.compound_id == compound_id

abbrev pub is_link : String → String → CompoundAmenity → Bool
is_link compound_id amenity_id l = l.compound_id == compound_id && l.amenity_id == amenity_id

abbrev pub or_empty : Option (List String) → List String
or_empty none = []
or_empty (some xs) = xs

unfoldable pub new_compound : CreateCompoundDto → String → String → Compound
new_compound dto id slug = record {
  id = id;
  slug = slug;
  name = dto.name;
  name_ar = dto.name_ar;
  developer_id = dto.developer_id;
  area_id = dto.area_id;
  description_en = dto.description_en;
  description_ar = dto.description_ar;
  starting_price = dto.starting_price;
  max_price = dto.max_price;
  min_area_sqm = dto.min_area_sqm;
  max_area_sqm = dto.max_area_sqm;
  delivery_year = dto.delivery_year;
  installment_years = dto.installment_years;
  down_payment_percent = dto.down_payment_percent;
  images = or_empty dto.images;
  master_plan_url = dto.master_plan_url;
  lat = dto.lat;
  lng = dto.lng;
  unit_types = or_empty dto.unit_types;
  is_featured = or_else dto.is_featured false;
  is_active = or_else dto.is_active true;
}

unfoldable pub apply_compound : Option String → UpdateCompoundDto → Compound → Compound
apply_compound slug dto c = record c {
  slug = or_else slug c.slug;
  name = or_else dto.name c.name;
  name_ar = or_else dto.name_ar c.name_ar;
  developer_id = or_else dto.developer_id c.developer_id;
  area_id = or_else dto.area_id c.area_id;
  description_en = given_or_kept dto.description_en c.description_en;
  description_ar = given_or_kept dto.description_ar c.description_ar;
  starting_price = given_or_kept dto.starting_price c.starting_price;
  max_price = given_or_kept dto.max_price c.max_price;
  min_area_sqm = given_or_kept dto.min_area_sqm c.min_area_sqm;
  max_area_sqm = given_or_kept dto.max_area_sqm c.max_area_sqm;
  delivery_year = given_or_kept dto.delivery_year c.delivery_year;
  installment_years = given_or_kept dto.installment_years c.installment_years;
  down_payment_percent = given_or_kept dto.down_payment_percent c.down_payment_percent;
  images = or_else dto.images c.images;
  master_plan_url = given_or_kept dto.master_plan_url c.master_plan_url;
  lat = or_else dto.lat c.lat;
  lng = or_else dto.lng c.lng;
  unit_types = or_else dto.unit_types c.unit_types;
  is_featured = or_else dto.is_featured c.is_featured;
  is_active = or_else dto.is_active c.is_active;
}
