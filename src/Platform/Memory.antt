-- ===== src/Platform/Memory.antt =====
-- The platform with every store in memory, and the state in which all stores are empty.
use real_estate_platform.Base.{[]}
use real_estate_platform.Schema.{
  User, RefreshToken, Account, PropertyIndex, Lead, Favorite, SavedSearch, Area, Developer,
  Compound, CompoundAmenity,
}
use real_estate_platform.Listing.{Property}
use real_estate_platform.Table.Memory
use real_estate_platform.Redis.Memory as RedisMemory
use real_estate_platform.Platform.{Platform, World}

abbrev pub in_memory : Platform
in_memory = record {
  users = Memory.memory User;
  refresh_tokens = Memory.memory RefreshToken;
  accounts = Memory.memory Account;
  property_index = Memory.memory PropertyIndex;
  leads = Memory.memory Lead;
  favorites = Memory.memory Favorite;
  saved_searches = Memory.memory SavedSearch;
  areas = Memory.memory Area;
  developers = Memory.memory Developer;
  compounds = Memory.keyed Compound (λ c. c.id);
  compound_amenities = Memory.memory CompoundAmenity;
  listings = Memory.memory Property;
  redis = RedisMemory.memory;
}

abbrev pub empty : World in_memory
empty = record {
  users = [];
  refresh_tokens = [];
  accounts = [];
  property_index = [];
  leads = [];
  favorites = [];
  saved_searches = [];
  areas = [];
  developers = [];
  compounds = [];
  compound_amenities = [];
  listings = [];
  redis = [];
}
