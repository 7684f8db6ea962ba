-- ===== src/Duration.antt =====
-- apps/api-core/src/modules/shared/duration.util.ts: instants are milliseconds since the epoch.
use real_estate_platform.Base.{ℕ, ◌+◌, ◌-◌, ◌*◌, ◌/◌}

abbrev pub seconds_from_now : ℕ → ℕ → ℕ
seconds_from_now seconds now = now + seconds * 1000

-- The difference stops at 0, as the source's `Math.max(0, …)` does.
abbrev pub seconds_until_expiry : ℕ → ℕ → ℕ
seconds_until_expiry exp now = exp - now / 1000
