-- ===== src/Properties/Reads.antt =====
-- apps/api-core/src/modules/properties/properties.service.ts: the reads of one listing and of those
-- like it. A listing that was read is cached under the identifier that the caller used.
pub mod Likeness
pub mod Sorted
pub mod Similar
pub mod Cached
mod Tests
use real_estate_platform.Base.{
  ℕ, ◌+◌, ◌-◌, ◌*◌, ◌/◌, Bool, true, false, not, ◌&&◌, ◌||◌, Option, none, some, List, [], ◌∷◌,
  take, String, ◌==◌, is_some, leb, if◌then◌else◌,
}
use real_estate_platform.Exec.{Exec, query, or_throw, pure, ◌>>=◌, ◌>>◌}
use real_estate_platform.Enums.{PropertyStatus, available, off_plan, reserved}
use real_estate_platform.Listing.{Property}
use real_estate_platform.Identifier.{is_uuid, is_object_id_hex}
use real_estate_platform.Slug.{to_lower_case}
use real_estate_platform.Platform.{Platform, World}
use real_estate_platform.Cache
use real_estate_platform.CacheKeys.{property_key, property_ttl}
use real_estate_platform.Mirror.{listing_missing}
use real_estate_platform.Properties.{on_cache}

-- `JSON.parse`, `JSON.stringify` and `String.prototype.toLowerCase`, whose tables are Unicode's.
pub record Texts : Type 0 where
  pub parse : String → Option Property
  pub stringify : Property → String
  pub lower_case : String → String

-- MongoDB reads an object identifier in either case, and writes it in lower case.
unfoldable pub identifies : Texts → String → Property → Bool
identifies x id d =
    if is_uuid id
    then d.property_id == id
    else (if is_object_id_hex id then d.mongo_id == to_lower_case id else d.slug == x.lower_case id)

abbrev pub is_named : Texts → String → Property → Bool
is_named x id d = identifies x id d && not (is_some d.deleted_at)

-- `status: { $in: ['available', 'off_plan', 'reserved'] }`.
abbrev pub is_on_offer : PropertyStatus → Bool
is_on_offer available = true
is_on_offer off_plan = true
is_on_offer reserved = true
is_on_offer _ = false

-- The references that are compared are required in a document.
abbrev pub same_reference : Option String → Option String → Bool
same_reference (some a) (some b) = a == b
same_reference _ _ = false

-- `Math.floor(price * 0.75)` and `Math.ceil(price * 1.25)`.
abbrev pub lowest_price : ℕ → ℕ
lowest_price price = (price * 3) / 4

abbrev pub highest_price : ℕ → ℕ
highest_price price = (price * 5 + 3) / 4

unfoldable pub is_similar : Property → Property → Bool
is_similar source d =
    (not (is_some d.deleted_at) && not (d.property_id == source.property_id))
    && (is_on_offer d.status
        && ((same_reference d.compound_id source.compound_id
              || same_reference d.area_id source.area_id)
            && ((leb (lowest_price source.price_amount) d.price_amount
                  && leb d.price_amount (highest_price source.price_amount))
                && (leb (source.details.specs.bedrooms - 1) d.details.specs.bedrooms
                    && leb d.details.specs.bedrooms (source.details.specs.bedrooms + 1)))))

-- `Math.abs(a.price.amount - source.price.amount)`.
abbrev pub distance : Property → Property → ℕ
distance source d = (d.price_amount - source.price_amount) + (source.price_amount - d.price_amount)

-- `Array.prototype.sort`, which is stable, by a number.
module _ {ℓ} {A : Type ℓ} (key : A → ℕ) where
  unfoldable pub insert : A → List A → List A
  insert x [] = x ∷ []
  insert x (y ∷ ys) =
      let later = insert x ys in if leb (key x) (key y) then x ∷ y ∷ ys else y ∷ later

  unfoldable pub sort : List A → List A
  sort [] = []
  sort (x ∷ xs) = insert x (sort xs)

module _ (p : Platform) (x : Texts) where
  unfoldable pub read_cached : String → ℕ → Exec (World p) (Option Property)
  read_cached id now = on_cache p (λ st. (Cache.get p.redis x.parse (property_key id) now st, st))

  unfoldable pub keep_cached : String → Property → ℕ → Exec (World p) (Unit {0})
  keep_cached id d now =
      on_cache p
        (λ st. (tt, Cache.set p.redis (property_key id) (x.stringify d) property_ttl now st))

  -- A listing that is not in the cache.
  unfoldable pub load : String → ℕ → Exec (World p) Property
  load id now = do
    found ← query (λ w. p.listings.find_first (is_named x id) w.listings)
    property ← or_throw found (listing_missing id)
    keep_cached id property now
    pure property

  unfoldable pub cached_or_loaded : Option Property → String → ℕ → Exec (World p) Property
  cached_or_loaded (some d) id now = pure d
  cached_or_loaded none id now = load id now

  unfoldable pub find_one : String → ℕ → Exec (World p) Property
  find_one id now = do cached ← read_cached id now; cached_or_loaded cached id now

  unfoldable pub similar : String → ℕ → ℕ → Exec (World p) (List Property)
  similar id limit now = do
    source ← find_one id now
    candidates ← query (λ w. p.listings.find_many (is_similar source) w.listings)
    pure (take limit (sort (distance source) (take (limit * 3) candidates)))
