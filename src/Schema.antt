-- ===== src/Schema.antt =====
-- apps/api-core/prisma/schema.prisma and the listing document of apps/api-core/src/mongo/schemas:
-- the rows that the services read and write. Dates are milliseconds since the epoch; identifiers
-- are texts.
use real_estate_platform.Base.{ℕ, String, Bool, Option, List}
use real_estate_platform.Base.Int.{ℤ}
use real_estate_platform.Enums.{UserRole, LeadStatus, PropertyStatus}

pub record User : Type 0 where
  pub id : String
  pub email : String
  pub name : String
  pub password_hash : Option String
  pub phone : Option String
  pub avatar_url : Option String
  pub role : UserRole
  pub is_verified : Bool
  pub is_active : Bool
  pub locale : String
  pub reset_token_hash : Option String
  pub reset_token_expires_at : Option ℕ
  pub last_login_at : Option ℕ
  pub created_at : ℕ

pub record RefreshToken : Type 0 where
  pub user_id : String
  pub jti : String
  pub token_hash : String
  pub user_agent : Option String
  pub ip_address : Option String
  pub expires_at : ℕ
  pub revoked_at : Option ℕ
  pub replaced_by_jti : Option String

pub record Account : Type 0 where
  pub user_id : String
  pub provider : String
  pub provider_account_id : String
  pub type : String
  pub access_token : Option String
  pub refresh_token : Option String

pub record PropertyIndex : Type 0 where
  pub id : String
  pub mongo_id : String
  pub slug : String
  pub compound_id : Option String
  pub developer_id : Option String
  pub area_id : Option String
  pub price_min : ℕ
  pub status : PropertyStatus
  pub is_featured : Bool
  pub published_at : Option ℕ
  pub deleted_at : Option ℕ

pub record Lead : Type 0 where
  pub id : String
  pub property_id : Option String
  pub user_id : Option String
  pub name : String
  pub phone : String
  pub email : Option String
  pub message : Option String
  pub source : String
  pub area_id : Option String
  pub compound_id : Option String
  pub property_type : Option String
  pub status : LeadStatus
  pub assigned_to_id : Option String
  pub notes : Option String
  pub contacted_at : Option ℕ
  pub created_at : ℕ

pub record Favorite : Type 0 where
  pub user_id : String
  pub property_id : String
  pub created_at : ℕ

pub record SavedSearch : Type 0 where
  pub id : String
  pub user_id : String
  pub name : String
  pub criteria : String
  pub alert_enabled : Bool
  pub created_at : ℕ

-- Latitudes and longitudes are numbers of ten-millionths of a degree.
pub record Area : Type 0 where
  pub id : String
  pub slug : String
  pub name_en : String
  pub name_ar : String
  pub city : String
  pub governorate : String
  pub description_en : Option String
  pub description_ar : Option String
  pub lat : ℤ
  pub lng : ℤ
  pub hero_image : Option String
  pub property_count : ℕ
  pub avg_price_per_meter : Option ℕ
  pub is_active : Bool

pub record Developer : Type 0 where
  pub id : String
  pub slug : String
  pub name : String
  pub name_ar : String
  pub logo_url : Option String
  pub cover_url : Option String
  pub description_en : Option String
  pub description_ar : Option String
  pub founded_year : Option ℕ
  pub website : Option String
  pub phone : Option String
  pub projects_count : ℕ
  pub is_featured : Bool
  pub is_active : Bool

pub record Compound : Type 0 where
  pub id : String
  pub slug : String
  pub name : String
  pub name_ar : String
  pub developer_id : String
  pub area_id : String
  pub description_en : Option String
  pub description_ar : Option String
  pub starting_price : Option ℕ
  pub max_price : Option ℕ
  pub min_area_sqm : Option ℕ
  pub max_area_sqm : Option ℕ
  pub delivery_year : Option ℕ
  pub installment_years : Option ℕ
  pub down_payment_percent : Option ℕ
  pub images : List String
  pub master_plan_url : Option String
  pub lat : ℤ
  pub lng : ℤ
  pub unit_types : List String
  pub is_featured : Bool
  pub is_active : Bool

pub record CompoundAmenity : Type 0 where
  pub compound_id : String
  pub amenity_id : String

pub record Amenity : Type 0 where
  pub id : String
  pub slug : String
  pub name_en : String
  pub name_ar : String
  pub icon : String
  pub category : String
