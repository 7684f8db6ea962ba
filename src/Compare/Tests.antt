-- ===== src/Compare/Tests.antt =====
-- The tray in use.
use real_estate_platform.Base.{String, ◌≡◌, refl, false, [], ◌∷◌, some, none}
use real_estate_platform.Compare.{
  CompareItem, CompareState, initial, has, is_full, add, toggle, adds, toggles, begins, steps_to,
  full,
}
use real_estate_platform.Compare.Tray.{IsTray, Reached-IsTray}

abbrev item : String → CompareItem
item id = record {
  id = id;
  slug = id;
  title = "Villa";
  image = none;
  price = 100;
  area_sqm = 180;
  bedrooms = 3;
  bathrooms = 2;
  property_type = "villa";
  area_name = "New Cairo";
  compound_name = none;
}

abbrev one : CompareState
one = (add (item "p1") initial).1

Reached-IsTray_example : IsTray (toggle (item "p2") one).1
Reached-IsTray_example =
    Reached-IsTray (toggle (item "p2") one).1
      (steps_to (steps_to begins (adds (item "p1"))) (toggles (item "p2")))

absent : has "p2" one ≡ false
unfolding has add is_full
absent = refl

room : is_full one ≡ false
unfolding has add is_full
room = refl

-- A fifth listing is refused.
refused :
    (add
      (item "p5")
      (record initial { items = item "p1" ∷ item "p2" ∷ item "p3" ∷ item "p4" ∷ [] })).0
    ≡ some full
unfolding has add is_full
refused = refl
