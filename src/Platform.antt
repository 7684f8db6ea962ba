-- ===== src/Platform.antt =====
-- The stores and outside services that apps/api-core is built on, and the state of all of them.
pub mod Memory
use real_estate_platform.Base.{ℕ, String, Option, List, Bool}
use real_estate_platform.Exec.{Reply}
use real_estate_platform.Schema.{
  User, RefreshToken, Account, PropertyIndex, Lead, Favorite, SavedSearch, Area, Developer,
  Compound, CompoundAmenity,
}
use real_estate_platform.Listing.{Property}
use real_estate_platform.Table.{Table}
use real_estate_platform.Redis.{Redis}

pub record Platform : Type 1 where
  pub users : Table User
  pub refresh_tokens : Table RefreshToken
  pub accounts : Table Account
  pub property_index : Table PropertyIndex
  pub leads : Table Lead
  pub favorites : Table Favorite
  pub saved_searches : Table SavedSearch
  pub areas : Table Area
  pub developers : Table Developer
  pub compounds : Table Compound
  pub compound_amenities : Table CompoundAmenity
  -- The MongoDB collection of listing documents.
  pub listings : Table Property
  pub redis : Redis

pub record World (p : Platform) : Type 0 where
  pub users : p.users.Db
  pub refresh_tokens : p.refresh_tokens.Db
  pub accounts : p.accounts.Db
  pub property_index : p.property_index.Db
  pub leads : p.leads.Db
  pub favorites : p.favorites.Db
  pub saved_searches : p.saved_searches.Db
  pub areas : p.areas.Db
  pub developers : p.developers.Db
  pub compounds : p.compounds.Db
  pub compound_amenities : p.compound_amenities.Db
  pub listings : p.listings.Db
  pub redis : p.redis.Store
