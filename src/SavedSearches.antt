-- ===== src/SavedSearches.antt =====
-- apps/api-core/src/modules/saved-searches: a user's saved searches, at most fifty. Criteria are the
-- text of their JSON.
pub mod Ownership
mod Tests
use Prim.Native.String.{◌++◌}
use real_estate_platform.Base.{
  ℕ, Bool, true, false, ◌&&◌, [], Option, none, some, String, ◌==◌, leb, or_else,
}
use real_estate_platform.Errors.{
  Thrown, bad_request_error, not_found_error, bad_request, saved_search_not_found,
}
use real_estate_platform.Exec.{Exec, Reply, query, store, throw_if, pure, ◌>>=◌, ◌>>◌}
use real_estate_platform.Schema.{SavedSearch}
use real_estate_platform.Table.Checks.{require}
use real_estate_platform.Platform.{Platform, World}

abbrev pub max_saved_searches : ℕ
max_saved_searches = 50

pub record CreateSavedSearchDto : Type 0 where
  pub name : String
  pub criteria : String
  pub alert_enabled : Option Bool

pub record UpdateSavedSearchDto : Type 0 where
  pub name : Option String
  pub criteria : Option String
  pub alert_enabled : Option Bool

abbrev pub is_of : String → SavedSearch → Bool
is_of user_id s = s.user_id == user_id

abbrev pub is_search : String → SavedSearch → Bool
is_search id s = s.id == id

abbrev pub is_owned : String → String → SavedSearch → Bool
is_owned user_id id s = s.id == id && s.user_id == user_id

abbrev pub too_many : Thrown
too_many = bad_request_error "You can save at most 50 searches — delete one first" bad_request []

abbrev pub search_missing : String → Thrown
search_missing id =
    not_found_error ("Saved search \"" ++ (id ++ "\" was not found")) saved_search_not_found

unfoldable pub new_search : String → CreateSavedSearchDto → String → ℕ → SavedSearch
new_search user_id dto id now = record {
  id = id;
  user_id = user_id;
  name = dto.name;
  criteria = dto.criteria;
  alert_enabled = or_else dto.alert_enabled false;
  created_at = now;
}

unfoldable pub apply_changes : UpdateSavedSearchDto → SavedSearch → SavedSearch
apply_changes dto s = record s {
  name = or_else dto.name s.name;
  criteria = or_else dto.criteria s.criteria;
  alert_enabled = or_else dto.alert_enabled s.alert_enabled;
}

module _ (p : Platform) where
  abbrev pub on_searches :
      {A : Type 0} → (p.saved_searches.Db → Reply (A × p.saved_searches.Db)) → Exec (World p) A
  on_searches f = store (λ w. w.saved_searches) (λ w d. record w { saved_searches = d }) f

  unfoldable pub ensure_owned : String → String → Exec (World p) (Unit {0})
  ensure_owned user_id id =
      require p.saved_searches (λ w. w.saved_searches) (is_owned user_id id) (search_missing id)

  unfoldable pub create : String → CreateSavedSearchDto → String → ℕ → Exec (World p) SavedSearch
  create user_id dto id now = do
    count ← query (λ w. p.saved_searches.count (is_of user_id) w.saved_searches)
    throw_if (leb max_saved_searches count) too_many
    on_searches (p.saved_searches.create (new_search user_id dto id now))

  unfoldable pub update : String → String → UpdateSavedSearchDto → Exec (World p) SavedSearch
  update user_id id dto = do
    ensure_owned user_id id
    on_searches (p.saved_searches.update (is_search id) (apply_changes dto))

  unfoldable pub remove : String → String → Exec (World p) String
  remove user_id id = do
    ensure_owned user_id id
    on_searches (p.saved_searches.delete (is_search id))
    pure id
