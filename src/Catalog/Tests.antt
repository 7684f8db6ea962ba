-- ===== src/Catalog/Tests.antt =====
-- A compound is created, moved to another developer and removed; an area with a compound is removed.
use real_estate_platform.Base.{◌≡◌, refl, true, false, [], ◌∷◌, some, none, arith, any, String}
use real_estate_platform.Base.Int.{pos}
use real_estate_platform.Errors.{library}
use real_estate_platform.Exec.{ok, err, steps}
use real_estate_platform.Cache
use real_estate_platform.Schema.{Area, Developer}
use real_estate_platform.Table.Checks.{require}
use real_estate_platform.Platform.{World}
use real_estate_platform.Table.Memory.{create_new-rows}
use real_estate_platform.Platform.Memory.{in_memory, empty}
use real_estate_platform.Slug.{Unicode, slugify, numbered, stamped, try_numbered, build_unique_slug}
use real_estate_platform.Identifier.{is_uuid}
use real_estate_platform.Catalog.{is_compound, is_taken, new_slug, invalidate}
use real_estate_platform.Catalog.Developers.{sync_projects_count}
use real_estate_platform.Catalog.Areas
use real_estate_platform.Catalog.Areas.{area_missing}
use real_estate_platform.Catalog.Compounds.{
  CreateCompoundDto, UpdateCompoundDto, CompoundDetail, new_compound, apply_compound,
  assert_developer, assert_area, assert_relations_exist, find_one, create_links, create_link_unless,
  create_many_links, insert, create, replace_links, write, sync_previous, update,
  deactivate_or_delete, remove,
}
use real_estate_platform.Catalog.Consistency.{IsKeyed, IsConsistent}
use real_estate_platform.Catalog.Lifecycle.{
  Call, Calls, none_yet, next, created, updated, removed, Calls-IsConsistent,
}
use real_estate_platform.Catalog.Homes.{IsRemoved, remove_area-IsRemoved}

handlers : Unit {0}
unfolding steps require Cache.sweep Cache.del_by_pattern slugify numbered stamped try_numbered
    build_unique_slug is_uuid is_taken new_slug invalidate sync_projects_count new_compound
    apply_compound assert_developer assert_area assert_relations_exist find_one create_links
    create_link_unless create_many_links insert create replace_links write sync_previous update
    deactivate_or_delete remove Areas.ensure_exists Areas.deactivate_or_delete Areas.remove
handlers = tt

abbrev plain : Unicode
plain = record { nfkd = λ s. s }

abbrev builder : String → Developer
builder id = record {
  id = id;
  slug = id;
  name = id;
  name_ar = id;
  logo_url = none;
  cover_url = none;
  description_en = none;
  description_ar = none;
  founded_year = none;
  website = none;
  phone = none;
  projects_count = 0;
  is_featured = false;
  is_active = true;
}

abbrev coast : Area
coast = record {
  id = "a1";
  slug = "coast";
  name_en = "Coast";
  name_ar = "Sahel";
  city = "Alamein";
  governorate = "Matrouh";
  description_en = none;
  description_ar = none;
  lat = pos 308300000;
  lng = pos 289500000;
  hero_image = none;
  property_count = 0;
  avg_price_per_meter = none;
  is_active = true;
}

abbrev marina_id : String
marina_id = "3f2504e0-4f89-41d3-9a0c-0305e82c3301"

abbrev start : World in_memory
start = record empty { developers = builder "d1" ∷ builder "d2" ∷ []; areas = coast ∷ [] }

abbrev marina : CreateCompoundDto
marina = record {
  name = "Marina Bay";
  name_ar = "Marina";
  slug = none;
  developer_id = "d1";
  area_id = "a1";
  description_en = none;
  description_ar = none;
  starting_price = none;
  max_price = none;
  min_area_sqm = none;
  max_area_sqm = none;
  delivery_year = none;
  installment_years = none;
  down_payment_percent = none;
  images = none;
  master_plan_url = none;
  lat = pos 0;
  lng = pos 0;
  unit_types = none;
  amenity_ids = some ("m1" ∷ []);
  is_featured = none;
  is_active = none;
}

abbrev sale : UpdateCompoundDto
sale = record {
  name = none;
  name_ar = none;
  slug = none;
  developer_id = some "d2";
  area_id = none;
  description_en = none;
  description_ar = none;
  starting_price = none;
  max_price = none;
  min_area_sqm = none;
  max_area_sqm = none;
  delivery_year = none;
  installment_years = none;
  down_payment_percent = none;
  images = none;
  master_plan_url = none;
  lat = none;
  lng = none;
  unit_types = none;
  amenity_ids = some ("m1" ∷ "m1" ∷ "m2" ∷ []);
  is_featured = none;
  is_active = none;
}

abbrev built : World in_memory
built = (create in_memory plain marina marina_id 3 1000 start).1

abbrev shown : CompoundDetail
shown = record {
  compound = new_compound marina marina_id "marina-bay";
  amenities = "m1" ∷ [];
  property_count = 0;
  price_range = none;
}

building : create in_memory plain marina marina_id 3 1000 start ≡ (ok shown, built)
unfolding handlers
building = refl

abbrev sold : World in_memory
sold = (update in_memory plain marina_id sale 3 2000 built).1

abbrev shown_sold : CompoundDetail
shown_sold = record {
  compound = record (new_compound marina marina_id "marina-bay") { developer_id = "d2" };
  amenities = "m1" ∷ "m2" ∷ [];
  property_count = 0;
  price_range = none;
}

selling : update in_memory plain marina_id sale 3 2000 built ≡ (ok shown_sold, sold)
unfolding handlers
selling = refl

moved : sold.developers ≡ builder "d1" ∷ record (builder "d2") { projects_count = 1 } ∷ []
unfolding handlers
moved = refl

abbrev cleared : World in_memory
cleared = (remove in_memory marina_id 3 3000 sold).1

clearing : remove in_memory marina_id 3 3000 sold ≡ (ok marina_id, cleared)
unfolding handlers
clearing = refl

start-IsConsistent : IsConsistent in_memory start
start-IsConsistent = record {
  named = refl;
  ids = λ s. omega arith;
  in_step = (λ e. refl, (λ e. refl, tt));
}

in_memory-IsKeyed : IsKeyed in_memory
in_memory-IsKeyed c db a e = (create_new-rows (any (is_compound c.id) db) c db a e).0

again : create in_memory plain marina marina_id 3 1500 built ≡ (err (library "P2002"), built)
unfolding handlers
again = refl

first_call : Call in_memory plain start built
first_call = created {w = start} {w' = built} marina marina_id 3 1000 shown building

second_call : Call in_memory plain built sold
second_call = updated {w = built} {w' = sold} marina_id sale 3 2000 shown_sold selling

third_call : Call in_memory plain sold cleared
third_call = removed {w = sold} {w' = cleared} marina_id marina_id 3 3000 clearing

three-Calls : Calls in_memory plain start cleared
three-Calls =
    next {v = sold} {v' = cleared}
      (next {v = built} {v' = sold} (next {v = start} {v' = built} none_yet first_call) second_call)
      third_call

Calls-IsConsistent_example : IsConsistent in_memory cleared
Calls-IsConsistent_example =
    Calls-IsConsistent in_memory plain {w = start} {w' = cleared} in_memory-IsKeyed three-Calls
      start-IsConsistent

abbrev closed : World in_memory
closed = (Areas.remove in_memory "a1" 3 4000 built).1

closing : Areas.remove in_memory "a1" 3 4000 built ≡ (ok "a1", closed)
unfolding handlers
closing = refl

deactivated : closed.areas ≡ record coast { is_active = false } ∷ []
unfolding handlers
deactivated = refl

missing : Areas.remove in_memory "a2" 3 4000 built ≡ (err (area_missing "a2"), built)
unfolding handlers
missing = refl

remove_area-IsRemoved_example : (◌≡◌ {A = String} "a1" "a1") × IsRemoved in_memory "a1" built closed
remove_area-IsRemoved_example =
    remove_area-IsRemoved in_memory "a1" "a1" 3 4000 built closed closing
