-- ===== src/Properties/Reads/Cached.antt =====
-- A listing that was read, for as long as the cache holds it.
use real_estate_platform.Cache
use real_estate_platform.Redis.Up.{Up}
use real_estate_platform.Platform.{Platform}
