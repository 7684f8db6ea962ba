-- ===== src/Compare.antt =====
-- apps/web/src/store/compare.store.ts: the compare tray of the web client, at most four listings. The
-- tray that was persisted is read back as it was stored.
pub mod Tray
mod Tests
use real_estate_platform.Base.{
  ℕ, Bool, true, false, not, List, [], ◌∷◌, ◌++◌, Option, none, some, String, ◌==◌, any, keep, take,
  length, leb,
}

pub record CompareItem : Type 0 where
  pub id : String
  pub slug : String
  pub title : String
  pub image : Option String
  pub price : ℕ
  pub area_sqm : ℕ
  pub bedrooms : ℕ
  pub bathrooms : ℕ
  pub property_type : String
  pub area_name : String
  pub compound_name : Option String

pub record CompareState : Type 0 where
  pub items : List CompareItem
  pub is_bar_open : Bool
  pub has_hydrated : Bool

abbrev pub max_compare_items : ℕ
max_compare_items = 4

pub data Refusal : Type 0 where
  duplicate full : Refusal

abbrev pub is_item : String → CompareItem → Bool
is_item id i = i.id == id

abbrev pub initial : CompareState
initial = record { items = []; is_bar_open = true; has_hydrated = false }

unfoldable pub has : String → CompareState → Bool
has id s = any (is_item id) s.items

unfoldable pub is_full : CompareState → Bool
is_full s = leb max_compare_items (length s.items)

abbrev pub added : CompareItem → CompareState → CompareState
added i s = record s { items = s.items ++ i ∷ []; is_bar_open = true }

-- The refusal, if there is one, and the state.
abbrev pub add_checked : Bool → Bool → CompareItem → CompareState → Option Refusal × CompareState
add_checked true at_cap i s = (some duplicate, s)
add_checked false true i s = (some full, s)
add_checked false false i s = (none, added i s)

unfoldable pub add : CompareItem → CompareState → Option Refusal × CompareState
unfolding has is_full
add i s = add_checked (has i.id s) (is_full s) i s

unfoldable pub remove : String → CompareState → CompareState
remove id s = record s { items = keep (λ i. not (is_item id i)) s.items }

pub record Toggled : Type 0 where
  pub ok : Bool
  pub added : Bool
  pub reason : Option Refusal

abbrev pub toggled_by : Option Refusal → Toggled
toggled_by none = record { ok = true; added = true; reason = none }
toggled_by (some r) = record { ok = false; added = false; reason = some r }

unfoldable pub toggle_known : Bool → CompareItem → CompareState → Toggled × CompareState
toggle_known true i s = (record { ok = true; added = false; reason = none }, remove i.id s)
toggle_known false i s = (toggled_by (add i s).0, (add i s).1)

unfoldable pub toggle : CompareItem → CompareState → Toggled × CompareState
toggle i s = toggle_known (has i.id s) i s

unfoldable pub clear : CompareState → CompareState
clear s = record s { items = [] }

unfoldable pub set_bar_open : Bool → CompareState → CompareState
set_bar_open open_ s = record s { is_bar_open = open_ }

unfoldable pub set_has_hydrated : Bool → CompareState → CompareState
set_has_hydrated value s = record s { has_hydrated = value }

-- What is stored of the state.
unfoldable pub partialize : CompareState → List CompareItem
partialize s = take max_compare_items s.items

-- `rehydrate` puts what is stored over the state, then marks it.
unfoldable pub hydrate : List CompareItem → CompareState → CompareState
hydrate stored s = record s { items = stored; has_hydrated = true }

-- The steps of the store, each by a call of the client.
pub data Step : CompareState → CompareState → Type 0 where
  adds : (i : CompareItem) {s : CompareState} → Step s (add i s).1
  removes : (id : String) {s : CompareState} → Step s (remove id s)
  toggles : (i : CompareItem) {s : CompareState} → Step s (toggle i s).1
  clears : {s : CompareState} → Step s (clear s)
  opens : (b : Bool) {s : CompareState} → Step s (set_bar_open b s)
  marks : (b : Bool) {s : CompareState} → Step s (set_has_hydrated b s)
  -- The page is loaded again: the stored tray is read back.
  reloads : {s : CompareState} → Step s (hydrate (partialize s) initial)

pub data Reached : CompareState → Type 0 where
  begins : Reached initial
  steps_to : {s t : CompareState} → Reached s → Step s t → Reached t
