-- ===== src/Properties/Tests.antt =====
-- A listing is created and moves to another area; pictures and reference numbers.
use real_estate_platform.Base.{
  arith, ◌≡◌, refl, true, false, [], ◌∷◌, some, none, String, Option, Bool, ◌==◌, map, find,
  or_else, List,
}
use real_estate_platform.Base.Int.{pos}
use real_estate_platform.Exec.{ok, steps}
use real_estate_platform.Cache
use real_estate_platform.Schema.{Area, Developer, Compound}
use real_estate_platform.Listing.{Property}
use real_estate_platform.Platform.{World}
use real_estate_platform.Platform.Memory.{in_memory, empty}
use real_estate_platform.Slug.{Unicode, slugify, numbered, try_numbered, build_unique_slug}
use real_estate_platform.Catalog.{is_taken, invalidate}
use real_estate_platform.Catalog.Areas.{sync_property_count}
use real_estate_platform.Mirror.{
  mirror_of, copy_mirror, create_with_mirror, update_with_mirror, is_live,
}
use real_estate_platform.Properties.Media.{
  Web, MediaDto, PropertyImageDto, is_true, primary, normalize_media, derive_media_key,
}
use real_estate_platform.Properties.Pricing.{
  monthly_installment, is_reference, latest, next_reference,
}
use real_estate_platform.Properties.Writes.{
  CreatePropertyDto, UpdatePropertyDto, to_address, new_listing,
}
use real_estate_platform.Properties.Changes.{
  apply_changes, merge_specs, area_sqm, new_price, new_plan,
}
use real_estate_platform.Properties.Service.{
  invalidate_listing, after_write, find_area, find_compound, next_reference_no, reference_or_next,
  create, new_listing_slug, new_location, new_relations, update,
}
use real_estate_platform.Properties.Pictures.{chosen, requested, normalize_media-primary}
use real_estate_platform.Properties.References.{next_reference-repeats}
use real_estate_platform.Mirror.Atomic.{IsMirrored}
use real_estate_platform.Properties.Creation.{IsListed, create-IsListed}
use real_estate_platform.Properties.Moves.{area_at, update-counts_of_others}

handlers : Unit {0}
unfolding steps Cache.sweep Cache.del_by_pattern Cache.del slugify numbered try_numbered
    build_unique_slug is_taken invalidate sync_property_count mirror_of copy_mirror
    create_with_mirror update_with_mirror normalize_media is_reference next_reference new_listing
    invalidate_listing after_write find_area find_compound next_reference_no reference_or_next
    create new_listing_slug new_location new_relations update apply_changes merge_specs area_sqm
    new_price new_plan to_address
handlers = tt

abbrev plain : Unicode
plain = record { nfkd = λ s. s }

abbrev web : Web
web = record { parse_url = λ url. some ("img.example.com", "//a/b.jpg"); sha1_hex = λ s. s }

key : derive_media_key web "https://img.example.com//a/b.jpg" ≡ "external/img.example.com/a/b.jpg"
unfolding derive_media_key
key = refl

-- 3,000,000 less a tenth over eight years.
monthly : monthly_installment 3000000 10 8 ≡ 28125
unfolding monthly_installment
monthly = refl

abbrev picture : String → Option Bool → PropertyImageDto
picture url is_primary = record {
  url = url;
  key = some url;
  width = none;
  height = none;
  is_primary = is_primary;
  order = none;
}

abbrev two_marked : MediaDto
two_marked = record {
  images = some (picture "a" (some true) ∷ picture "b" none ∷ picture "c" (some true) ∷ []);
  floor_plans = none;
  video_url = none;
  tour_url = none;
}

two_kept : map primary (normalize_media web (some two_marked)).images ≡ true ∷ false ∷ true ∷ []
unfolding normalize_media
two_kept = refl

normalize_media-primary_example :
    (map (λ i. i.url) (normalize_media web (some two_marked)).images
      ≡ map (λ i. i.url) (requested (some two_marked)))
    × (map (λ i. i.is_primary) (normalize_media web (some two_marked)).images
        ≡ chosen (map (λ i. is_true i.is_primary) (requested (some two_marked))))
normalize_media-primary_example = normalize_media-primary web (some two_marked)

abbrev references : List String
references = "TC-1002" ∷ "TC-9999" ∷ "TC-3000" ∷ []

last_one : latest references ≡ some "TC-9999"
unfolding latest
last_one = refl

next_reference-repeats_example :
    (next_reference references ≡ "TC-10000")
    × (next_reference (next_reference references ∷ references) ≡ next_reference references)
next_reference-repeats_example = next_reference-repeats references last_one

abbrev place : String → Area
place id = record {
  id = id;
  slug = id;
  name_en = id;
  name_ar = id;
  city = "Cairo";
  governorate = "Cairo";
  description_en = none;
  description_ar = none;
  lat = pos 0;
  lng = pos 0;
  hero_image = none;
  property_count = 0;
  avg_price_per_meter = none;
  is_active = true;
}

abbrev builder : Developer
builder = record {
  id = "d1";
  slug = "builder";
  name = "Builder";
  name_ar = "Builder";
  logo_url = none;
  cover_url = none;
  description_en = none;
  description_ar = none;
  founded_year = none;
  website = none;
  phone = none;
  projects_count = 1;
  is_featured = false;
  is_active = true;
}

abbrev marina : Compound
marina = record {
  id = "c1";
  slug = "marina";
  name = "Marina";
  name_ar = "Marina";
  developer_id = "d1";
  area_id = "a1";
  description_en = none;
  description_ar = none;
  starting_price = none;
  max_price = none;
  min_area_sqm = none;
  max_area_sqm = none;
  delivery_year = none;
  installment_years = none;
  down_payment_percent = none;
  images = [];
  master_plan_url = none;
  lat = pos 0;
  lng = pos 0;
  unit_types = [];
  is_featured = false;
  is_active = true;
}

abbrev site : World in_memory
site = record empty {
  areas = place "a1" ∷ place "a2" ∷ [];
  developers = builder ∷ [];
  compounds = marina ∷ [];
}

abbrev offer : CreatePropertyDto
offer = record {
  slug = none;
  reference_no = none;
  title = record { en = "Sea View"; ar = "Bahr" };
  description = record { en = "A villa"; ar = "Villa" };
  property_type = "villa";
  sale_type = "primary";
  status = none;
  finishing = "furnished";
  price = record { amount = 3000000; price_per_meter = none };
  payment_plan = record {
    down_payment_percent = 10;
    installment_years = 8;
    monthly_installment = none;
    delivery_date = "2028-01";
  };
  specs = record {
    bedrooms = 3;
    bathrooms = 2;
    area_sqm = 150;
    garden_sqm = none;
    floor = none;
    parking_spots = none;
  };
  location = record { area_id = "a1"; address = none; lat = pos 0; lng = pos 0 };
  compound_id = "c1";
  amenities = none;
  media = none;
  is_featured = none;
  published_at = none;
}

abbrev listed : World in_memory
listed = (create in_memory plain web offer "p1" "m1" 3 1000 site).1

abbrev villa : Property
villa = new_listing web offer marina builder (place "a1") "p1" "m1" "sea-view" "TC-1001" 1000

listing : create in_memory plain web offer "p1" "m1" 3 1000 site ≡ (ok villa, listed)
unfolding handlers
listing = refl

nothing-IsMirrored : IsMirrored in_memory site
nothing-IsMirrored = record { in_step = refl; unique = λ i. omega arith }

create-IsListed_example : IsListed in_memory plain web offer "p1" "m1" 1000 site listed villa
create-IsListed_example =
    create-IsListed in_memory plain web offer "p1" "m1" 3 1000 site listed villa listing
      (λ db. (_, refl)) refl refl nothing-IsMirrored

counted : listed.areas ≡ record (place "a1") { property_count = 1 } ∷ place "a2" ∷ []
unfolding handlers
counted = refl

abbrev move : UpdatePropertyDto
move = record {
  slug = none;
  title = none;
  description = none;
  property_type = none;
  sale_type = none;
  status = none;
  finishing = none;
  price = none;
  payment_plan = none;
  specs = none;
  location = some (record { area_id = "a2"; address = none; lat = pos 0; lng = pos 0 });
  compound_id = none;
  amenities = none;
  media = none;
  is_featured = none;
  published_at = none;
}

abbrev moved : World in_memory
moved = (update in_memory plain web "p1" move 3 2000 listed).1

abbrev moved_villa : Property
moved_villa = record villa {
  area_id = some "a2";
  details = record (villa.details) {
    location = record (villa.details.location) { area_name = "a2" };
  };
}

moving : update in_memory plain web "p1" move 3 2000 listed ≡ (ok moved_villa, moved)
unfolding handlers
moving = refl

-- The listing lies in the second area, which still counts none.
stale : moved.areas ≡ place "a1" ∷ place "a2" ∷ []
unfolding handlers
stale = refl

update-counts_of_others_example :
    (old : Property) × (find (is_live "p1") listed.listings ≡ some old)
    × ((a : String)
        → (a == or_else old.area_id "") ≡ false
        → area_at in_memory a moved ≡ area_at in_memory a listed)
update-counts_of_others_example =
    update-counts_of_others in_memory plain web "p1" move 3 2000 listed moved moved_villa moving
