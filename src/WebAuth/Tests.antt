-- ===== src/WebAuth/Tests.antt =====
-- A session that is reloaded.
use real_estate_platform.Base.{ℕ, refl, Option, none, some, String, true}
use real_estate_platform.Enums.{agent}
use real_estate_platform.WebAuth.{User, AuthState, initial, authenticated, login, reload, status_of}
use real_estate_platform.WebAuth.Status.{
  Reached, begins, steps_to, logs_in, reloads, IsSession, Reached-IsSession,
}

abbrev expiry : Option String → Option ℕ
expiry none = none
expiry (some token) = some 900

abbrev seller : User
seller = record { id = "u1"; role = agent }

abbrev signed_in : AuthState
signed_in = record {
  user = some seller;
  access_token = some "jwt";
  expires_at = some 900;
  status = authenticated;
  has_hydrated = true;
}

signed_in-Reached : Reached expiry signed_in
unfolding login reload status_of
signed_in-Reached =
    steps_to {s = login expiry seller "jwt" initial} {t = signed_in}
      (steps_to {s = initial} begins (logs_in initial seller "jwt"))
      (reloads (login expiry seller "jwt" initial))

Reached-IsSession_example : IsSession expiry signed_in
Reached-IsSession_example = Reached-IsSession expiry refl signed_in-Reached
