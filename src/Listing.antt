-- ===== src/Listing.antt =====
-- apps/api-core/src/mongo/schemas/property.schema.ts: the listing document, as far as the services
-- modelled here read or write it.
use real_estate_platform.Base.{ℕ, String, Option, none, Bool, List, []}
use real_estate_platform.Base.Int.{ℤ, pos}
use real_estate_platform.Enums.{PropertyStatus}

pub record Stats : Type 0 where
  pub views : ℕ
  pub favorites : ℤ
  pub leads : ℕ

pub record LocalizedText : Type 0 where
  pub en : String
  pub ar : String

pub record PaymentPlan : Type 0 where
  pub down_payment_percent : ℕ
  pub installment_years : ℕ
  pub monthly_installment : ℕ
  pub delivery_date : String

pub record Specs : Type 0 where
  pub bedrooms : ℕ
  pub bathrooms : ℕ
  pub area_sqm : ℕ
  pub garden_sqm : ℕ
  pub floor : ℤ
  pub parking_spots : ℕ

pub record PropertyImage : Type 0 where
  pub url : String
  pub key : String
  pub width : ℕ
  pub height : ℕ
  pub is_primary : Bool
  pub order : ℕ

pub record FloorPlan : Type 0 where
  pub url : String
  pub label : String

pub record PropertyMedia : Type 0 where
  pub images : List PropertyImage
  pub floor_plans : List FloorPlan
  pub video_url : Option String
  pub tour_url : Option String

-- A location without the identifier of its area; the numbers are ten-millionths of a degree.
pub record Address : Type 0 where
  pub area_name : String
  pub city : String
  pub governorate : String
  pub address : String
  pub lng : ℤ
  pub lat : ℤ

-- The fields that the mirror in Postgres does not hold. The currency is always `EGP`.
pub record Details : Type 0 where
  pub reference_no : String
  pub title : LocalizedText
  pub description : LocalizedText
  pub property_type : String
  pub sale_type : String
  pub finishing : String
  pub price_per_meter : ℕ
  pub payment_plan : PaymentPlan
  pub specs : Specs
  pub location : Address
  pub compound_name : String
  pub compound_slug : String
  pub developer_name : String
  pub developer_slug : String
  pub developer_logo_url : Option String
  pub amenities : List String
  pub media : PropertyMedia

pub record Property : Type 0 where
  -- `_id`, the MongoDB object identifier.
  pub mongo_id : String
  pub property_id : String
  pub slug : String
  pub price_amount : ℕ
  pub status : PropertyStatus
  pub is_featured : Bool
  pub compound_id : Option String
  pub developer_id : Option String
  pub area_id : Option String
  pub details : Details
  pub stats : Stats
  pub published_at : Option ℕ
  pub deleted_at : Option ℕ

-- A listing of which only the fields of the mirror matter.
abbrev pub no_details : Details
no_details = record {
  reference_no = "TC-1001";
  title = record { en = ""; ar = "" };
  description = record { en = ""; ar = "" };
  property_type = "villa";
  sale_type = "primary";
  finishing = "furnished";
  price_per_meter = 0;
  payment_plan = record {
    down_payment_percent = 0;
    installment_years = 0;
    monthly_installment = 0;
    delivery_date = "";
  };
  specs = record {
    bedrooms = 1;
    bathrooms = 1;
    area_sqm = 1;
    garden_sqm = 0;
    floor = pos 0;
    parking_spots = 0;
  };
  location = record {
    area_name = "";
    city = "";
    governorate = "";
    address = "";
    lng = pos 0;
    lat = pos 0;
  };
  compound_name = "";
  compound_slug = "";
  developer_name = "";
  developer_slug = "";
  developer_logo_url = none;
  amenities = [];
  media = record { images = []; floor_plans = []; video_url = none; tour_url = none };
}
