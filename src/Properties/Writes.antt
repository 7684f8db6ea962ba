-- ===== src/Properties/Writes.antt =====
-- apps/api-core/src/modules/properties/properties.service.ts: listings are created, changed and deleted.
-- The calls of the search service are left out: they write none of the stores and throw nothing.
use real_estate_platform.Base.{
  ℕ, Bool, false, not, ◌&&◌, Option, none, some, List, [], String, ◌==◌, or_else,
}
use real_estate_platform.Base.Int.{ℤ, pos}
use real_estate_platform.Enums.{PropertyStatus, available}
use real_estate_platform.Errors.{Thrown, library}
use real_estate_platform.Schema.{Area, Compound, Developer}
use real_estate_platform.Listing.{Property, LocalizedText, PaymentPlan, Specs, Address}
use real_estate_platform.Properties.Media.{Web, MediaDto, normalize_media}
use real_estate_platform.Properties.Pricing.{round_div, monthly_installment}

pub record PriceDto : Type 0 where
  pub amount : ℕ
  pub price_per_meter : Option ℕ

pub record PaymentPlanDto : Type 0 where
  pub down_payment_percent : ℕ
  pub installment_years : ℕ
  pub monthly_installment : Option ℕ
  pub delivery_date : String

pub record SpecsDto : Type 0 where
  pub bedrooms : ℕ
  pub bathrooms : ℕ
  pub area_sqm : ℕ
  pub garden_sqm : Option ℕ
  pub floor : Option ℤ
  pub parking_spots : Option ℕ

pub record LocationDto : Type 0 where
  pub area_id : String
  pub address : Option String
  pub lat : ℤ
  pub lng : ℤ

pub record CreatePropertyDto : Type 0 where
  pub slug : Option String
  pub reference_no : Option String
  pub title : LocalizedText
  pub description : LocalizedText
  pub property_type : String
  pub sale_type : String
  pub status : Option PropertyStatus
  pub finishing : String
  pub price : PriceDto
  pub payment_plan : PaymentPlanDto
  pub specs : SpecsDto
  pub location : LocationDto
  pub compound_id : String
  pub amenities : Option (List String)
  pub media : Option MediaDto
  pub is_featured : Option Bool
  pub published_at : Option ℕ

-- `PartialType(CreatePropertyDto)`.
pub record UpdatePropertyDto : Type 0 where
  pub slug : Option String
  pub title : Option LocalizedText
  pub description : Option LocalizedText
  pub property_type : Option String
  pub sale_type : Option String
  pub status : Option PropertyStatus
  pub finishing : Option String
  pub price : Option PriceDto
  pub payment_plan : Option PaymentPlanDto
  pub specs : Option SpecsDto
  pub location : Option LocationDto
  pub compound_id : Option String
  pub amenities : Option (List String)
  pub media : Option MediaDto
  pub is_featured : Option Bool
  pub published_at : Option ℕ

abbrev pub has_listing_slug : String → Property → Bool
has_listing_slug slug d = d.slug == slug

-- `{ slug: candidate, propertyId: { $ne: id } }`.
abbrev pub has_listing_slug_elsewhere : String → String → Property → Bool
has_listing_slug_elsewhere id slug d = d.slug == slug && not (d.property_id == id)

-- The required relation of a compound.
abbrev pub no_developer : Thrown
no_developer = library "Field developer is required to return data, got `null` instead."

unfoldable pub to_specs : SpecsDto → Specs
to_specs s = record {
  bedrooms = s.bedrooms;
  bathrooms = s.bathrooms;
  area_sqm = s.area_sqm;
  garden_sqm = or_else s.garden_sqm 0;
  floor = or_else s.floor (pos 0);
  parking_spots = or_else s.parking_spots 0;
}

unfoldable pub to_payment_plan : ℕ → PaymentPlanDto → PaymentPlan
unfolding monthly_installment
to_payment_plan amount plan = record {
  down_payment_percent = plan.down_payment_percent;
  installment_years = plan.installment_years;
  monthly_installment =
      or_else plan.monthly_installment
        (monthly_installment amount plan.down_payment_percent plan.installment_years);
  delivery_date = plan.delivery_date;
}

unfoldable pub to_address : Area → LocationDto → String → Address
to_address area l old = record {
  area_name = area.name_en;
  city = area.city;
  governorate = area.governorate;
  address = or_else l.address old;
  lng = l.lng;
  lat = l.lat;
}

unfoldable pub new_listing :
    Web
    → CreatePropertyDto
    → Compound
    → Developer
    → Area
    → String
    → String
    → String
    → String
    → ℕ
    → Property
unfolding to_specs to_payment_plan to_address normalize_media
new_listing web dto compound developer area id mongo_id slug reference_no now = record {
  mongo_id = mongo_id;
  property_id = id;
  slug = slug;
  price_amount = dto.price.amount;
  status = or_else dto.status available;
  is_featured = or_else dto.is_featured false;
  compound_id = some compound.id;
  developer_id = some developer.id;
  area_id = some area.id;
  details = record {
    reference_no = reference_no;
    title = dto.title;
    description = dto.description;
    property_type = dto.property_type;
    sale_type = dto.sale_type;
    finishing = dto.finishing;
    price_per_meter =
        or_else dto.price.price_per_meter (round_div dto.price.amount dto.specs.area_sqm);
    payment_plan = to_payment_plan dto.price.amount dto.payment_plan;
    specs = to_specs dto.specs;
    location = to_address area dto.location "";
    compound_name = compound.name;
    compound_slug = compound.slug;
    developer_name = developer.name;
    developer_slug = developer.slug;
    developer_logo_url = developer.logo_url;
    amenities = or_else dto.amenities [];
    media = normalize_media web dto.media;
  };
  stats = record { views = 0; favorites = pos 0; leads = 0 };
  published_at = some (or_else dto.published_at now);
  deleted_at = none;
}
