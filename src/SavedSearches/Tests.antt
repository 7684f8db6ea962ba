-- ===== src/SavedSearches/Tests.antt =====
-- Saved searches in memory.
use real_estate_platform.Base.{◌≡◌, refl, true, false, [], ◌∷◌, some, none, arith}
use real_estate_platform.Exec.{ok, err, steps}
use real_estate_platform.Schema.{SavedSearch}
use real_estate_platform.Table.Checks.{require}
use real_estate_platform.Platform.{World}
use real_estate_platform.Platform.Memory.{in_memory, empty}
use real_estate_platform.SavedSearches.{
  CreateSavedSearchDto, UpdateSavedSearchDto, new_search, apply_changes, ensure_owned, create,
  update, remove, search_missing,
}
use real_estate_platform.SavedSearches.Ownership.{AtMostFifty, create-AtMostFifty}

handlers : Unit {0}
unfolding steps require new_search apply_changes ensure_owned create update remove
handlers = tt

abbrev wish : CreateSavedSearchDto
wish = record { name = "Three bedrooms"; criteria = "{}"; alert_enabled = none }

abbrev search : SavedSearch
search = record {
  id = "s1";
  user_id = "u1";
  name = "Three bedrooms";
  criteria = "{}";
  alert_enabled = false;
  created_at = 3;
}

abbrev saved : World in_memory
saved = record empty { saved_searches = search ∷ [] }

created : create in_memory "u1" wish "s1" 3 empty ≡ (ok search, saved)
unfolding handlers
created = refl

create-AtMostFifty_example : AtMostFifty (search ∷ [])
create-AtMostFifty_example =
    create-AtMostFifty in_memory "u1" wish "s1" 3 empty saved search created (λ u. omega arith)

abbrev change : UpdateSavedSearchDto
change = record { name = some "Garden"; criteria = none; alert_enabled = some true }

abbrev renamed : SavedSearch
renamed = record search { name = "Garden"; alert_enabled = true }

updated :
    update in_memory "u1" "s1" change saved
    ≡ (ok renamed, record empty { saved_searches = renamed ∷ [] })
unfolding handlers
updated = refl

removed : remove in_memory "u1" "s1" saved ≡ (ok "s1", empty)
unfolding handlers
removed = refl

-- Someone else's search is answered as a missing one.
foreign : remove in_memory "u2" "s1" saved ≡ (err (search_missing "s1"), saved)
unfolding handlers
foreign = refl
