-- ===== src/Favorites.antt =====
-- apps/api-core/src/modules/favorites/favorites.module.ts: a user's saved listings, with the counter
-- that the listing document carries.
pub mod Counting
pub mod Idempotence
pub mod SavedSet
pub mod Refinement
mod Tests
use Prim.Native.String.{◌++◌}
use real_estate_platform.Base.{
  ℕ, Bool, true, false, ◌&&◌, not, String, ◌==◌, is_some, ltb, ◌=?◌, if◌then◌else◌,
}
use real_estate_platform.Base.Int.{pos, negsuc}
use real_estate_platform.Errors.{Thrown, not_found_error, property_not_found}
use real_estate_platform.Exec.{Exec, Reply, query, store, pure, ◌>>=◌, ◌>>◌}
use real_estate_platform.Schema.{Favorite}
use real_estate_platform.Table.Checks.{require}
use real_estate_platform.Platform.{Platform, World}
use real_estate_platform.Properties.{adjust_favorite_count}
use real_estate_platform.Leads.{is_live_property}

abbrev pub is_favorite : String → String → Favorite → Bool
is_favorite user_id property_id f = f.user_id == user_id && f.property_id == property_id

abbrev pub property_missing : String → Thrown
property_missing id =
    not_found_error ("Property \"" ++ (id ++ "\" was not found")) property_not_found

abbrev pub new_favorite : String → String → ℕ → Favorite
new_favorite user_id property_id now = record {
  user_id = user_id;
  property_id = property_id;
  created_at = now;
}

module _ (p : Platform) where
  abbrev pub on_favorites :
      {A : Type 0} → (p.favorites.Db → Reply (A × p.favorites.Db)) → Exec (World p) A
  on_favorites f = store (λ w. w.favorites) (λ w d. record w { favorites = d }) f

  -- The favourite is stored and counted.
  unfoldable pub save : String → String → ℕ → Exec (World p) Bool
  save user_id property_id now = do
    on_favorites (p.favorites.create (new_favorite user_id property_id now))
    adjust_favorite_count p property_id (pos 1) now
    pure true

  unfoldable pub add_unless : Bool → String → String → ℕ → Exec (World p) Bool
  add_unless true user_id property_id now = pure false
  add_unless false user_id property_id now = save user_id property_id now

  -- The answer is `added`.
  unfoldable pub add : String → String → ℕ → Exec (World p) Bool
  add user_id property_id now = do
    require p.property_index (λ w. w.property_index) (is_live_property property_id)
        (property_missing property_id)
    already ← query (λ w. p.favorites.count (is_favorite user_id property_id) w.favorites)
    add_unless (ltb 0 already) user_id property_id now

  unfoldable pub uncount : ℕ → String → ℕ → Exec (World p) Bool
  uncount count property_id now = elim (count =? 0) [
    | true ↦ pure false
    | false ↦ adjust_favorite_count p property_id (negsuc 0) now >> pure true
  ]

  -- The answer is `removed`.
  unfoldable pub remove : String → String → ℕ → Exec (World p) Bool
  remove user_id property_id now = do
    count ← on_favorites (p.favorites.delete_many (is_favorite user_id property_id))
    uncount count property_id now
