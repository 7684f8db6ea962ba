-- ===== src/Properties/Changes.antt =====
-- apps/api-core/src/modules/properties/properties.service.ts: what `update` writes to the document.
use real_estate_platform.Base.{ℕ, Option, none, some, String, given, or_else}
use real_estate_platform.Schema.{Compound, Developer}
use real_estate_platform.Listing.{Property, LocalizedText, Specs, PaymentPlan, Address}
use real_estate_platform.Catalog.{given_or_kept}
use real_estate_platform.Properties.Media.{Web, MediaDto, normalize_media}
use real_estate_platform.Properties.Pricing.{round_div}
use real_estate_platform.Properties.Writes.{
  PriceDto, PaymentPlanDto, SpecsDto, UpdatePropertyDto, to_payment_plan,
}

-- `{ areaId, compoundId, … }` of an update: what is written where the field was given.
pub record Changes : Type 0 where
  pub slug : Option String
  pub specs : Option Specs
  pub price : Option (ℕ × ℕ)
  pub payment_plan : Option PaymentPlan
  pub location : Option (String × Address)
  pub compound : Option (Compound × Developer)

unfoldable pub merge_specs : SpecsDto → Specs → Specs
merge_specs s old = record {
  bedrooms = s.bedrooms;
  bathrooms = s.bathrooms;
  area_sqm = s.area_sqm;
  garden_sqm = or_else s.garden_sqm old.garden_sqm;
  floor = or_else s.floor old.floor;
  parking_spots = or_else s.parking_spots old.parking_spots;
}

-- `dto.specs?.areaSqm ?? existing.specs.areaSqm`.
unfoldable pub area_sqm : Option SpecsDto → Specs → ℕ
area_sqm none old = old.area_sqm
area_sqm (some s) old = s.area_sqm

unfoldable pub new_price : Option PriceDto → ℕ → Option (ℕ × ℕ)
new_price none sqm = none
new_price (some price) sqm =
    some (price.amount, or_else price.price_per_meter (round_div price.amount sqm))

abbrev pub amount_or : Option PriceDto → ℕ → ℕ
amount_or none old = old
amount_or (some price) old = price.amount

unfoldable pub new_plan : Option PaymentPlanDto → ℕ → Option PaymentPlan
unfolding to_payment_plan
new_plan none amount = none
new_plan (some plan) amount = some (to_payment_plan amount plan)

abbrev pub merged_specs : Option SpecsDto → Specs → Option Specs
merged_specs none old = none
merged_specs (some s) old = some (merge_specs s old)

abbrev pub desired_slug : Option String → Option LocalizedText → Option String
desired_slug (some slug) title = some slug
desired_slug none none = none
desired_slug none (some title) = some title.en

abbrev set_media : Web → Option MediaDto → Property → Property
set_media web none d = d
set_media web (some m) d = record d {
  details = record (d.details) { media = normalize_media web (some m) };
}

abbrev set_price : Option (ℕ × ℕ) → Property → Property
set_price none d = d
set_price (some (amount, per_meter)) d = record d {
  price_amount = amount;
  details = record (d.details) { price_per_meter = per_meter };
}

abbrev set_location : Option (String × Address) → Property → Property
set_location none d = d
set_location (some (area_id, address)) d = record d {
  area_id = some area_id;
  details = record (d.details) { location = address };
}

abbrev set_compound : Option (Compound × Developer) → Property → Property
set_compound none d = d
set_compound (some (compound, developer)) d = record d {
  compound_id = some compound.id;
  developer_id = some developer.id;
  details = record (d.details) {
    compound_name = compound.name;
    compound_slug = compound.slug;
    developer_name = developer.name;
    developer_slug = developer.slug;
    developer_logo_url = developer.logo_url;
  };
}

abbrev set_texts : UpdatePropertyDto → Property → Property
set_texts dto d = record d {
  status = or_else dto.status d.status;
  is_featured = or_else dto.is_featured d.is_featured;
  published_at = given_or_kept dto.published_at d.published_at;
  details = record (d.details) {
    title = or_else dto.title d.details.title;
    description = or_else dto.description d.details.description;
    property_type = or_else (given dto.property_type) d.details.property_type;
    sale_type = or_else (given dto.sale_type) d.details.sale_type;
    finishing = or_else (given dto.finishing) d.details.finishing;
    amenities = or_else dto.amenities d.details.amenities;
  };
}

abbrev set_parts : Changes → Property → Property
set_parts c d = record d {
  slug = or_else c.slug d.slug;
  details = record (d.details) {
    specs = or_else c.specs d.details.specs;
    payment_plan = or_else c.payment_plan d.details.payment_plan;
  };
}

-- What `$set: update` does to the document.
unfoldable pub apply_changes : Web → UpdatePropertyDto → Changes → Property → Property
unfolding normalize_media
apply_changes web dto c d = set_compound c.compound (
    set_location c.location
      (set_price c.price (set_parts c (set_media web dto.media (set_texts dto d)))))
