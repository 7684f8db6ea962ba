-- ===== src/Mirror.antt =====
-- apps/api-core/src/modules/properties/property-mirror.service.ts: the listing document in MongoDB and
-- its row in Postgres are written one after the other; the first write is undone if the second throws.
pub mod InStep
pub mod Deletion
mod Tests
pub mod Update
pub mod Atomic
use Prim.Native.String.{◌++◌}
use real_estate_platform.Base.{
  ℕ, Bool, true, false, ◌&&◌, ◌||◌, not, [], Option, none, some, String, ◌==◌, ◌=?◌, is_some,
  contains, if◌then◌else◌,
}
use real_estate_platform.Errors.{
  Thrown, app, library, not_found_error, conflict_error, bad_request_error, internal_error,
  property_not_found, duplicate_resource, related_resource_not_found, database_error,
}
use real_estate_platform.Exec.{
  Exec, Reply, query, store, catch_with, try_catch, throw, throw_if, or_throw, pure, ◌>>=◌, ◌>>◌,
}
use real_estate_platform.Schema.{PropertyIndex}
use real_estate_platform.Listing.{Property}
use real_estate_platform.Platform.{Platform, World}
use real_estate_platform.Properties.{has_property_id, on_listings}

unfoldable pub mirror_of : Property → PropertyIndex
mirror_of d = record {
  id = d.property_id;
  mongo_id = d.mongo_id;
  slug = d.slug;
  compound_id = d.compound_id;
  developer_id = d.developer_id;
  area_id = d.area_id;
  price_min = d.price_amount;
  status = d.status;
  is_featured = d.is_featured;
  published_at = d.published_at;
  deleted_at = d.deleted_at;
}

-- The `data` of the update of a row: all but the two identifiers.
unfoldable pub copy_mirror : PropertyIndex → PropertyIndex → PropertyIndex
copy_mirror m r = record m { id = r.id; mongo_id = r.mongo_id }

abbrev pub is_mirror : String → PropertyIndex → Bool
is_mirror id r = r.id == id

abbrev pub has_mongo_id : String → Property → Bool
has_mongo_id id d = d.mongo_id == id

-- `{ propertyId, deletedAt: null }`.
abbrev pub is_live : String → Property → Bool
is_live id d = d.property_id == id && not (is_some d.deleted_at)

-- `replaceOne` keeps the object identifier.
abbrev pub replace_by : Property → Property → Property
replace_by before d = record before { mongo_id = d.mongo_id }

abbrev pub delete_at : Option ℕ → Property → Property
delete_at date d = record d { deleted_at = date }

abbrev pub delete_mirror_at : ℕ → PropertyIndex → PropertyIndex
delete_mirror_at date r = record r { deleted_at = some date }

abbrev pub listing_missing : String → Thrown
listing_missing id =
    not_found_error ("Property \"" ++ (id ++ "\" was not found")) property_not_found

abbrev pub duplicate_listing : Thrown
duplicate_listing =
    conflict_error "A property with this slug or reference number already exists" duplicate_resource
      []

abbrev pub unknown_relation : Thrown
unknown_relation =
    bad_request_error "The compound, developer or area referenced by this listing does not exist"
      related_resource_not_found []

abbrev pub mirror_rejected : String → Thrown
mirror_rejected operation =
    internal_error
      ("Could not " ++ (operation ++ " the listing — the relational mirror rejected the write"))
      database_error

unfoldable pub as_app_exception : Thrown → String → Thrown
as_app_exception (app e) operation = app e
as_app_exception (library message) operation =
    if contains message "Unique constraint" || contains message "P2002"
    then duplicate_listing
    else (if contains message "Foreign key constraint" || contains message "P2003"
        then unknown_relation
        else mirror_rejected operation)

module _ (p : Platform) where
  abbrev pub on_index :
      {A : Type 0} → (p.property_index.Db → Reply (A × p.property_index.Db)) → Exec (World p) A
  on_index f = store (λ w. w.property_index) (λ w d. record w { property_index = d }) f

  unfoldable pub compensate : Property → Exec (World p) ℕ
  compensate doc = catch_with 0 (on_listings p (p.listings.delete_many (has_mongo_id doc.mongo_id)))

  unfoldable pub undo_create : Property → Thrown → Exec (World p) Property
  undo_create doc error = do compensate doc; throw (as_app_exception error "create")

  -- The document is the argument, with the object identifier that MongoDB gives it.
  unfoldable pub create_with_mirror : Property → Exec (World p) Property
  create_with_mirror listing = do
    doc ← on_listings p (p.listings.create listing)
    try_catch (on_index (p.property_index.create (mirror_of doc)) >> pure doc) (undo_create doc)

  unfoldable pub undo_update : String → Property → Thrown → Exec (World p) Property
  undo_update id before error = do
    catch_with 0 (on_listings p (p.listings.update_many (has_property_id id) (replace_by before)))
    throw (as_app_exception error "update")

  -- The second argument does what `$set: update` does to a document.
  unfoldable pub update_with_mirror : String → (Property → Property) → Exec (World p) Property
  update_with_mirror id set = do
    found ← query (λ w. p.listings.find_first (has_property_id id) w.listings)
    before ← or_throw found (listing_missing id)
    written ← on_listings p (p.listings.find_one_and_update (has_property_id id) set)
    after ← or_throw written (listing_missing id)
    try_catch
        (on_index (p.property_index.update (is_mirror id) (copy_mirror (mirror_of after)))
          >> pure after)
        (undo_update id before)

  unfoldable pub undo_delete : String → Thrown → Exec (World p) PropertyIndex
  undo_delete id error = do
    catch_with 0 (on_listings p (p.listings.update_many (has_property_id id) (delete_at none)))
    throw (as_app_exception error "delete")

  unfoldable pub soft_delete_with_mirror : String → ℕ → Exec (World p) PropertyIndex
  soft_delete_with_mirror id now = do
    matched ← on_listings p (p.listings.update_many (is_live id) (delete_at (some now)))
    throw_if (matched =? 0) (listing_missing id)
    try_catch (on_index (p.property_index.update (is_mirror id) (delete_mirror_at now)))
        (undo_delete id)
