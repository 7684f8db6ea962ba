-- ===== src/Compare/Tray.antt =====
-- apps/web/src/store/compare.store.ts: the listings of the tray over its steps.
use real_estate_platform.Base.{
  ◌≤◌, ◌≡◌, refl, sym, ap, ◌∙◌, subst, Bool, true, false, not, List, [], ◌∷◌, ◌++◌, none, String,
  ◌==◌, any, keep, length, leb, if◌then◌else◌, arith, eq_iff, eq_refl, ◌||◌, length-append,
  length-keep-le, any-concat, take-all,
}
use real_estate_platform.Compare.{
  CompareItem, CompareState, Step, Reached, is_item, initial, has, is_full, added, add_checked, add,
  remove, toggled_by, toggle_known, toggle, clear, set_bar_open, set_has_hydrated, partialize,
  hydrate, adds, removes, toggles, clears, opens, marks, reloads, begins, steps_to,
}

abbrev pub distinct_ids : List CompareItem → Bool
distinct_ids [] = true
distinct_ids (i ∷ is) = if any (is_item i.id) is then false else distinct_ids is

pub record IsTray (s : CompareState) : Type 0 where
  pub at_most_four : length s.items ≤ 4
  pub distinct : distinct_ids s.items ≡ true

any_item-concat :
    (id : String) (is : List CompareItem) (i : CompareItem)
    → any (is_item id) (is ++ i ∷ []) ≡ (any (is_item id) is || i.id == id)
any_item-concat id [] i = ground arith
any_item-concat id (j ∷ is) i = ground (arith, any_item-concat id is i)

any_item-keep :
    (id j : String) (is : List CompareItem)
    → any (is_item j) is ≡ false
    → any (is_item j) (keep (λ i. not (is_item id i)) is) ≡ false
any_item-keep id j [] h = refl
any_item-keep id j (i ∷ is) h = ground (arith, any_item-keep id j is)

distinct-concat :
    (is : List CompareItem) (i : CompareItem)
    → any (is_item i.id) is ≡ false
    → distinct_ids is ≡ true
    → distinct_ids (is ++ i ∷ []) ≡ true
distinct-concat [] i h d = refl
distinct-concat (j ∷ is) i h d =
    ground
      (arith, distinct-concat is i, any_item-concat j.id is i, eq_iff i.id j.id, eq_iff j.id i.id)

distinct-keep :
    (id : String) (is : List CompareItem)
    → distinct_ids is ≡ true
    → distinct_ids (keep (λ i. not (is_item id i)) is) ≡ true
distinct-keep id [] d = refl
distinct-keep id (i ∷ is) d = ground (arith, distinct-keep id is, any_item-keep id i.id is)

concat_short :
    (is : List CompareItem) (i : CompareItem)
    → leb 4 (length is) ≡ false
    → length (is ++ i ∷ []) ≤ 4
concat_short is i h = ground (arith, length-append is (i ∷ []))

add_checked-IsTray :
    (b c : Bool) (i : CompareItem) (s : CompareState)
    → any (is_item i.id) s.items ≡ b
    → leb 4 (length s.items) ≡ c
    → IsTray s
    → IsTray (add_checked b c i s).1
add_checked-IsTray true c i s h k t = t
add_checked-IsTray false true i s h k t = t
add_checked-IsTray false false i s h k t = record {
  at_most_four = concat_short s.items i k;
  distinct = distinct-concat s.items i h t.distinct;
}

add-IsTray : (i : CompareItem) (s : CompareState) → IsTray s → IsTray (add i s).1
unfolding add has is_full
add-IsTray i s t =
    add_checked-IsTray (any (is_item i.id) s.items) (leb 4 (length s.items)) i s refl refl t

keep_short :
    (id : String) (is : List CompareItem)
    → length is ≤ 4
    → length (keep (λ i. not (is_item id i)) is) ≤ 4
keep_short id is h = ground (arith, length-keep-le (λ i. not (is_item id i)) is)

remove-IsTray : (id : String) (s : CompareState) → IsTray s → IsTray (remove id s)
unfolding remove
remove-IsTray id s t = record {
  at_most_four = keep_short id s.items t.at_most_four;
  distinct = distinct-keep id s.items t.distinct;
}

toggle_known-IsTray :
    (b : Bool) (i : CompareItem) (s : CompareState) → IsTray s → IsTray (toggle_known b i s).1
unfolding toggle_known
toggle_known-IsTray true i s t = remove-IsTray i.id s t
toggle_known-IsTray false i s t = add-IsTray i s t

reload-IsTray : (s : CompareState) → IsTray s → IsTray (hydrate (partialize s) initial)
unfolding hydrate partialize
reload-IsTray s t =
    subst (λ is. IsTray (record initial { items = is; has_hydrated = true }))
      (sym (take-all 4 s.items t.at_most_four))
      (record { at_most_four = t.at_most_four; distinct = t.distinct })

Step-IsTray : {s t : CompareState} → Step s t → IsTray s → IsTray t
unfolding toggle clear set_bar_open set_has_hydrated
Step-IsTray (adds i {s}) h = add-IsTray i s h
Step-IsTray (removes id {s}) h = remove-IsTray id s h
Step-IsTray (toggles i {s}) h = toggle_known-IsTray (has i.id s) i s h
Step-IsTray clears h = record { at_most_four = omega arith; distinct = refl }
Step-IsTray (opens b) h = record { at_most_four = h.at_most_four; distinct = h.distinct }
Step-IsTray (marks b) h = record { at_most_four = h.at_most_four; distinct = h.distinct }
Step-IsTray (reloads {s}) h = reload-IsTray s h

-- However the tray is used, through reloads of the page too, it holds at most four listings, each once.
pub Reached-IsTray : (s : CompareState) → Reached s → IsTray s
Reached-IsTray s begins = record { at_most_four = omega arith; distinct = refl }
Reached-IsTray t (steps_to {s} before step) = Step-IsTray step (Reached-IsTray s before)

dropped_again :
    (is : List CompareItem) (i : CompareItem)
    → any (is_item i.id) is ≡ false
    → keep (λ j. not (is_item i.id j)) (is ++ i ∷ []) ≡ is
dropped_again [] i h = ground (arith, eq_refl i.id)
dropped_again (j ∷ is) i h = ground (arith, dropped_again is i)

toggle-absent :
    (i : CompareItem) (s : CompareState)
    → has i.id s ≡ false
    → is_full s ≡ false
    → toggle i s ≡ (toggled_by none, added i s)
unfolding toggle toggle_known add
toggle-absent i s absent room = rw (absent, room, absent) refl

toggle-present :
    (i : CompareItem) (s : CompareState)
    → has i.id s ≡ true
    → toggle i s ≡ (record { ok = true; added = false; reason = none }, remove i.id s)
unfolding toggle toggle_known
toggle-present i s there = rw there refl

has-added : (i : CompareItem) (s : CompareState) → has i.id (added i s) ≡ true
unfolding has
has-added i s = any-concat (is_item i.id) s.items i (eq_refl i.id)

remove-added :
    (i : CompareItem) (s : CompareState)
    → has i.id s ≡ false
    → (remove i.id (added i s)).items ≡ s.items
unfolding has remove
remove-added i s absent = dropped_again s.items i absent

-- Toggling a listing that is not in a tray with room adds it and says so, and toggling it again takes
-- it out, says so and leaves the listings as they were.
toggle-twice :
    (i : CompareItem) (s : CompareState)
    → has i.id s ≡ false
    → is_full s ≡ false
    → let first = toggle i s in
      let second = toggle i first.1 in
      (first.0.added ≡ true)
      × (has i.id first.1 ≡ true)
      × (second.0.added ≡ false)
      × (second.1.items ≡ s.items)
toggle-twice i s absent room =
    let once = toggle-absent i s absent room in
    let back = toggle-present i (added i s) (has-added i s) in
    (
      ap (λ r. r.0.added) once,
      ap (λ r. has i.id r.1) once ∙ has-added i s,
      ap (λ r. (toggle i r.1).0.added) once ∙ ap (λ r. r.0.added) back,
      ap (λ r. (toggle i r.1).1.items) once ∙ ap (λ r. r.1.items) back ∙ remove-added i s absent,
    )
