-- ===== src/WebAuth.antt =====
-- apps/web/src/store/auth.store.ts: the session that a browser keeps, its calls as the steps of a
-- relation.
pub mod Status
mod Tests
use real_estate_platform.Base.{
  ℕ, Bool, true, false, ◌&&◌, Option, none, some, String, given, is_some, any, ◌==◌, List,
}
use real_estate_platform.Enums.{UserRole, includes_role}

-- What the store reads of a user.
pub record User : Type 0 where
  pub id : String
  pub role : UserRole

pub data AuthStatus : Type 0 where
  unauthenticated authenticated : AuthStatus

pub record AuthState : Type 0 where
  pub user : Option User
  pub access_token : Option String
  pub expires_at : Option ℕ
  pub status : AuthStatus
  pub has_hydrated : Bool

-- `PersistedAuth`.
pub record PersistedAuth : Type 0 where
  pub user : Option User
  pub access_token : Option String
  pub expires_at : Option ℕ

abbrev pub initial : AuthState
initial = record {
  user = none;
  access_token = none;
  expires_at = none;
  status = unauthenticated;
  has_hydrated = false;
}

abbrev to_status : Bool → AuthStatus
to_status true = authenticated
to_status false = unauthenticated

-- `accessToken && user ? 'authenticated' : 'unauthenticated'`.
unfoldable pub status_of : Option String → Option User → AuthStatus
status_of token user = to_status (is_some (given token) && is_some user)

-- `user === undefined ? state.user : user`.
abbrev or_current : Option (Option User) → Option User → Option User
or_current none current = current
or_current (some u) current = u

-- `tokenExpiresAt` reads the `exp` claim of a token.
module _ (token_expires_at : Option String → Option ℕ) where
  unfoldable pub login : User → String → AuthState → AuthState
  login u token s = record s {
    user = some u;
    access_token = some token;
    expires_at = token_expires_at (some token);
    status = authenticated;
  }

  unfoldable pub set_session : Option (Option User) → Option String → AuthState → AuthState
  unfolding status_of
  set_session u token s = record s {
    user = or_current u s.user;
    access_token = token;
    expires_at = token_expires_at token;
    status = status_of token (or_current u s.user);
  }

  unfoldable pub set_access_token : Option String → AuthState → AuthState
  unfolding status_of
  set_access_token token s = record s {
    access_token = token;
    expires_at = token_expires_at token;
    status = status_of token s.user;
  }

unfoldable pub set_user : Option User → AuthState → AuthState
unfolding status_of
set_user u s = record s { user = u; status = status_of s.access_token u }

unfoldable pub logout : AuthState → AuthState
logout s = record s {
  user = none;
  access_token = none;
  expires_at = none;
  status = unauthenticated;
}

unfoldable pub set_has_hydrated : Bool → AuthState → AuthState
set_has_hydrated b s = record s { has_hydrated = b }

unfoldable pub partialize : AuthState → PersistedAuth
partialize s = record { user = s.user; access_token = s.access_token; expires_at = s.expires_at }

-- `merge`, of what was stored.
unfoldable pub merge : PersistedAuth → AuthState → AuthState
unfolding status_of
merge saved current = record current {
  user = saved.user;
  access_token = saved.access_token;
  expires_at = saved.expires_at;
  status = status_of saved.access_token saved.user;
}

-- A reload of the page: the store begins anew and reads what it had stored.
unfoldable pub reload : AuthState → AuthState
unfolding merge partialize set_has_hydrated
reload s = set_has_hydrated true (merge (partialize s) initial)

-- `useHasRole`.
unfoldable pub has_role : List UserRole → Option User → Bool
has_role roles none = false
has_role roles (some u) = includes_role roles u.role
