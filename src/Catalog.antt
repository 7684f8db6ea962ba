-- ===== src/Catalog.antt =====
-- What the services of the catalogue share: the tables, a check for a slug, and the end of every write,
-- the cached lists are dropped.
pub mod Areas
pub mod Developers
pub mod Compounds
pub mod Slugs
pub mod Projects
pub mod Homes
mod Counting
pub mod Consistency
mod Writes
mod Creation
mod Change
mod Removal
pub mod Lifecycle
mod Tests
use Prim.Native.String.{◌++◌}
use real_estate_platform.Base.{
  ℕ, Bool, true, not, ◌&&◌, [], Option, none, some, String, ◌==◌, given, is_some, ltb, List, ◌∷◌,
}
use real_estate_platform.Errors.{Thrown, detail, bad_request_error, related_resource_not_found}
use real_estate_platform.Exec.{Exec, Reply, query, store, change, pure, ◌>>=◌, ◌>>◌}
use real_estate_platform.Schema.{Area, Developer, Compound, CompoundAmenity, PropertyIndex}
use real_estate_platform.Table.{Table}
use real_estate_platform.Cache
use real_estate_platform.CacheKeys.{list_pattern}
use real_estate_platform.Platform.{Platform, World}
use real_estate_platform.Slug.{Unicode, build_unique_slug}

abbrev pub unknown_reference : String → String → String → String → Thrown
unknown_reference kind id field hint =
    bad_request_error (kind ++ (" \"" ++ (id ++ "\" does not exist"))) related_resource_not_found
      (detail field hint "exists")

abbrev pub is_area : String → Area → Bool
is_area id a = a.id == id

abbrev pub is_developer : String → Developer → Bool
is_developer id d = d.id == id

abbrev pub is_compound : String → Compound → Bool
is_compound id c = c.id == id

-- `a ?? b`.
abbrev pub first_given : Option String → Option String → Option String
first_given none o = o
first_given (some s) o = some s

-- A nullable column and a field that is a value or left out.
abbrev pub given_or_kept : {A : Type 0} → Option A → Option A → Option A
given_or_kept none old = old
given_or_kept (some a) old = some a

-- `(await table.count({ where })) > 0`.
unfoldable pub is_taken :
    {W Row : Type 0} (t : Table Row) → (W → t.Db) → (String → Row → Bool) → String → Exec W Bool
is_taken t read q candidate = do n ← query (λ w. t.count (q candidate) (read w)); pure (ltb 0 n)

-- The slug of a change that names one or renames the row; else there is none.
unfoldable pub new_slug :
    {W : Type 0}
    → (String → Exec W Bool)
    → Unicode
    → Option String
    → String
    → ℕ
    → Exec W (Option String)
new_slug taken u none fallback now = pure none
new_slug taken u (some desired) fallback now = do
  slug ← build_unique_slug taken u desired fallback now
  pure (given (some slug))

module _ (p : Platform) where
  abbrev pub on_areas : {A : Type 0} → (p.areas.Db → Reply (A × p.areas.Db)) → Exec (World p) A
  on_areas f = store (λ w. w.areas) (λ w d. record w { areas = d }) f

  abbrev pub on_developers :
      {A : Type 0} → (p.developers.Db → Reply (A × p.developers.Db)) → Exec (World p) A
  on_developers f = store (λ w. w.developers) (λ w d. record w { developers = d }) f

  abbrev pub on_compounds :
      {A : Type 0} → (p.compounds.Db → Reply (A × p.compounds.Db)) → Exec (World p) A
  on_compounds f = store (λ w. w.compounds) (λ w d. record w { compounds = d }) f

  abbrev pub on_compound_amenities :
      {A : Type 0}
      → (p.compound_amenities.Db → Reply (A × p.compound_amenities.Db))
      → Exec (World p) A
  on_compound_amenities f =
      store (λ w. w.compound_amenities) (λ w d. record w { compound_amenities = d }) f

  unfoldable pub invalidate : ℕ → ℕ → Exec (World p) ℕ
  invalidate fuel now =
      change (λ w. w.redis) (λ w d. record w { redis = d })
        (Cache.del_by_pattern p.redis fuel list_pattern 250 now)
