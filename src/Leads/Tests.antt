-- ===== src/Leads/Tests.antt =====
-- Runs of the lead handlers on a small platform in memory.
use real_estate_platform.Base.{
  ◌≡◌, refl, ◌⊎◌, true, false, String, Option, none, some, [], ◌∷◌, trim, ◌<◌, ◌≤◌, ◌≢◌,
}
use real_estate_platform.Enums.{UserRole, new, contacted, viewing, won, available}
use real_estate_platform.Exec.{ok, err, steps}
use real_estate_platform.Base.Int.{pos}
use real_estate_platform.Schema.{Lead, User, PropertyIndex, Area}
use real_estate_platform.Table.Checks.{require}
use real_estate_platform.Cache
use real_estate_platform.Platform.{World}
use real_estate_platform.Platform.Memory.{in_memory, empty}
use real_estate_platform.Properties.{increment_lead_count}
use real_estate_platform.Leads.{
  may_move, transition_error, CreateLeadDto, UpdateLeadDto, to, keep, honeypot_tripped, new_lead,
  assert_property, assert_area, assert_compound, assert_catalog_refs_exist, count_lead, submit,
  create, find_one, assert_transition, assert_assignee, apply_update, update, remove,
}
use real_estate_platform.Leads.Pipeline.{here, step, Trail-bound}
use real_estate_platform.Leads.Updates.{update_sound, IsUpdated}
use real_estate_platform.Leads.Intake.{create_sound, IsStored}

handlers : Unit {0}
unfolding steps require may_move transition_error honeypot_tripped trim new_lead assert_property
    assert_area assert_compound assert_catalog_refs_exist count_lead submit create find_one
    assert_transition assert_assignee apply_update update remove increment_lead_count Cache.del
handlers = tt

abbrev listing_row : PropertyIndex
listing_row = record {
  id = "p1";
  mongo_id = "m1";
  slug = "villa";
  compound_id = none;
  developer_id = none;
  area_id = none;
  price_min = 100;
  status = available;
  is_featured = false;
  published_at = none;
  deleted_at = none;
}

abbrev agent_row : User
agent_row = record {
  id = "u1";
  email = "a@b.com";
  name = "Mona";
  password_hash = none;
  phone = none;
  avatar_url = none;
  role = UserRole.agent;
  is_verified = true;
  is_active = true;
  locale = "en";
  reset_token_hash = none;
  reset_token_expires_at = none;
  last_login_at = none;
  created_at = 0;
}

abbrev downtown : Area
downtown = record {
  id = "a1";
  slug = "downtown";
  name_en = "Downtown";
  name_ar = "Wust";
  city = "Cairo";
  governorate = "Cairo";
  description_en = none;
  description_ar = none;
  lat = pos 300444000;
  lng = pos 312357000;
  hero_image = none;
  property_count = 0;
  avg_price_per_meter = none;
  is_active = true;
}

abbrev office : World in_memory
office = record empty {
  property_index = listing_row ∷ [];
  users = agent_row ∷ [];
  areas = downtown ∷ [];
}

abbrev enquiry : Option String → CreateLeadDto
enquiry company = record {
  property_id = some "p1";
  name = "Ahmed";
  phone = "+201001234567";
  email = none;
  message = none;
  area_id = some "a1";
  compound_id = none;
  property_type = none;
  source = none;
  company = company;
}

abbrev stored : Lead
stored = record {
  id = "l1";
  property_id = some "p1";
  user_id = none;
  name = "Ahmed";
  phone = "+201001234567";
  email = none;
  message = none;
  source = "website";
  area_id = some "a1";
  compound_id = none;
  property_type = none;
  status = new;
  assigned_to_id = none;
  notes = none;
  contacted_at = none;
  created_at = 5;
}

abbrev after_enquiry : World in_memory
after_enquiry = record office { leads = stored ∷ [] }

created : create in_memory (enquiry none) none "l1" 5 office ≡ (ok (some "l1"), after_enquiry)
unfolding handlers
created = refl

dropped : create in_memory (enquiry (some " bot ")) none "l1" 5 office ≡ (ok none, office)
unfolding handlers
dropped = refl

blank_company :
    create in_memory (enquiry (some "  ")) none "l1" 5 office ≡ (ok (some "l1"), after_enquiry)
unfolding handlers
blank_company = refl

abbrev identifier : Option String
identifier = some "l1"

create_sound_example :
    ((honeypot_tripped (enquiry none) ≡ true) × (identifier ≡ none) × (after_enquiry ≡ office))
    ⊎ ((honeypot_tripped (enquiry none) ≡ false)
        × (identifier ≡ some "l1")
        × IsStored in_memory (enquiry none) none "l1" 5 office after_enquiry)
create_sound_example = create_sound in_memory (enquiry none) none "l1" 5 office _ _ created

abbrev call : UpdateLeadDto
call = record { status = some contacted; assigned_to_id = to "u1"; notes = to "called" }

abbrev called : Lead
called = record stored {
  status = contacted;
  assigned_to_id = some "u1";
  notes = some "called";
  contacted_at = some 9;
}

updated :
    update in_memory "l1" call 9 after_enquiry ≡ (ok called, record office { leads = called ∷ [] })
unfolding handlers
updated = refl

update_sound_example :
    IsUpdated in_memory "l1" call 9 called after_enquiry (record office { leads = called ∷ [] })
update_sound_example = update_sound in_memory "l1" call 9 after_enquiry _ _ updated

Trail-bound_example : (2 ≤ 5) × (0 < 2 → new ≢ viewing)
unfolding may_move
Trail-bound_example = Trail-bound (step {s = contacted} (step {s = new} here refl) refl)

refused :
    update in_memory "l1"
      (record { status = some won; assigned_to_id = keep; notes = keep })
      9
      after_enquiry
    ≡ (err (transition_error new won), after_enquiry)
unfolding handlers
refused = refl
