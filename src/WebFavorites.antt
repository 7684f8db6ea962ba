-- ===== src/WebFavorites.antt =====
-- apps/web/src/store/favorites.store.ts: the favourites that a browser keeps. A mutation that waits for
-- the server is two steps, its optimistic part and its settling; other calls may come between them.
pub mod Interleavings
pub mod Rollback
mod Tests
use real_estate_platform.Base.{
  ℕ, Bool, true, false, not, List, [], ◌∷◌, ◌++◌, Option, none, some, String, ◌==◌, includes,
  without, keep, dedupe, if◌then◌else◌, ◌=?◌,
}

pub record FavoritesState : Type 0 where
  pub ids : List String
  -- The keys of `pending`, each of which has the value true.
  pub pending : List String
  pub has_hydrated : Bool
  pub last_synced_at : Option ℕ

-- What the server answers to a mutation: the status of an `ApiError`, or another failure.
pub data Answer : Type 0 where
  done : Answer
  refused : ℕ → Answer
  unreachable : Answer

-- A mutation that waits for the server; the removal holds the listings from before it.
pub data Waiting : Type 0 where
  adding : String → Waiting
  removing : String → List String → Waiting

abbrev pub initial : FavoritesState
initial = record { ids = []; pending = []; has_hydrated = false; last_synced_at = none }

-- `setPending(state, propertyId, value)`.
unfoldable pub set_pending : List String → String → Bool → List String
set_pending pending id true = id ∷ without id pending
set_pending pending id false = without id pending

abbrev pub is_favorite : String → FavoritesState → Bool
is_favorite id s = includes s.ids id

abbrev settled : String → FavoritesState → FavoritesState
settled id s = record s { pending = set_pending s.pending id false }

-- `if (!isAuthenticated()) { … return true; }`; else the server is asked.
unfoldable pub ask : Bool → String → Waiting → FavoritesState → FavoritesState × Option Waiting
unfolding set_pending
ask false id w s = (settled id s, none)
ask true id w s = (s, some w)

abbrev added : String → FavoritesState → FavoritesState
added id s = record s { ids = id ∷ s.ids; pending = set_pending s.pending id true }

unfoldable pub begin_add : Bool → String → FavoritesState → FavoritesState × Option Waiting
unfolding ask set_pending
begin_add authenticated id s =
    if includes s.ids id then (s, none) else ask authenticated id (adding id) (added id s)

abbrev removed : String → FavoritesState → FavoritesState
removed id s = record s { ids = without id s.ids; pending = set_pending s.pending id true }

unfoldable pub begin_remove : Bool → String → FavoritesState → FavoritesState × Option Waiting
unfolding ask set_pending
begin_remove authenticated id s =
    if includes s.ids id then ask authenticated id (removing id s.ids) (removed id s) else (s, none)

-- 409 for an addition, 404 for a removal: the server is as wanted already.
abbrev pub is_status : ℕ → Answer → Bool
is_status n done = false
is_status n (refused m) = m =? n
is_status n unreachable = false

abbrev pub is_done : Answer → Bool
is_done done = true
is_done (refused m) = false
is_done unreachable = false

-- The `try`, or the `catch`: what the call answers comes with the state.
unfoldable pub settle : Waiting → Answer → FavoritesState → FavoritesState × Bool
unfolding set_pending
settle (adding id) a s = if is_done a then (settled id s, true) else (
  record (settled id s) { ids = if is_status 409 a then s.ids else without id s.ids },
  is_status 409 a,
)
settle (removing id snapshot) a s = if is_done a then (settled id s, true) else (
  record (settled id s) { ids = if is_status 404 a then s.ids else snapshot },
  is_status 404 a,
)

-- `toggle`: which of the two it begins, and what it answers in the end.
unfoldable pub begin_toggle :
    Bool → String → FavoritesState → (FavoritesState × Option Waiting) × Bool
begin_toggle authenticated id s =
    if includes s.ids id
    then (begin_remove authenticated id s, false)
    else (begin_add authenticated id s, true)

unfoldable pub set_all : List String → FavoritesState → FavoritesState
set_all ids s = record s { ids = dedupe ids }

unfoldable pub clear : FavoritesState → FavoritesState
clear s = record s { ids = []; pending = []; last_synced_at = none }

-- `local.filter((id) => !serverIds.includes(id))`, the listings that are posted to the server.
abbrev pub missing_on_server : List String → List String → List String
missing_on_server local server = keep (λ id. not (includes server id)) local

-- The end of `syncWithServer`; the local listings are those from its beginning.
unfoldable pub finish_sync : List String → List String → ℕ → FavoritesState → FavoritesState
finish_sync local server now s = record s {
  ids = dedupe (server ++ missing_on_server local server);
  last_synced_at = some now;
}

unfoldable pub set_has_hydrated : Bool → FavoritesState → FavoritesState
set_has_hydrated b s = record s { has_hydrated = b }

-- A reload of the page, up to the end of `hydrate`: what it keeps.
unfoldable pub reload : FavoritesState → FavoritesState
reload s = record {
  ids = s.ids;
  pending = [];
  has_hydrated = true;
  last_synced_at = s.last_synced_at;
}
