-- ===== src/SavedSearches/Ownership.antt =====
-- apps/api-core/src/modules/saved-searches: how many searches a user has, and whose they are.
use real_estate_platform.Base.{
  ℕ, ◌≤◌, ◌≡◌, refl, sym, ap, ◌∙◌, subst, Bool, true, false, not, String, List, [], ◌∷◌, ◌++◌, keep,
  any, length, length-keep-concat, eq_iff, arith, leb,
}
use real_estate_platform.Exec.{ok, query}
use real_estate_platform.Exec.Inversion.{>>=-ok, >>-ok, query-ok, store-ok, throw_if-ok}
use real_estate_platform.Schema.{SavedSearch}
use real_estate_platform.Table.{patch}
use real_estate_platform.Table.Checks.{require-ok}
use real_estate_platform.Platform.{Platform, World}
use real_estate_platform.SavedSearches.{
  CreateSavedSearchDto, UpdateSavedSearchDto, is_of, is_search, is_owned, new_search, apply_changes,
  ensure_owned, create, update, remove, on_searches,
}

abbrev pub AtMostFifty : List SavedSearch → Type 0
AtMostFifty ss = (u : String) → length (keep (is_of u) ss) ≤ 50

fifty_more :
    (u v : String) (dto : CreateSavedSearchDto) (id : String) (now : ℕ) (ss : List SavedSearch)
    → leb 50 (length (keep (is_of u) ss)) ≡ false
    → AtMostFifty ss
    → length (keep (is_of v) (ss ++ new_search u dto id now ∷ [])) ≤ 50
unfolding new_search
fifty_more u v dto id now ss few h =
    ground (arith, length-keep-concat (is_of v) ss (new_search u dto id now), h v, eq_iff u v)

-- The searches of the other users.
abbrev pub of_others : String → SavedSearch → Bool
of_others u s = not (is_of u s)

not_there :
    (u id : String) (ss : List SavedSearch)
    → length (keep (is_search id) ss) ≡ 0
    → any (is_owned u id) ss ≡ false
not_there u id [] h = refl
not_there u id (s ∷ ss) h = ground (arith, not_there u id ss)

patch_of_absent :
    (id : String) (dto : UpdateSavedSearchDto) (ss : List SavedSearch)
    → length (keep (is_search id) ss) ≡ 0
    → patch (is_search id) (apply_changes dto) ss ≡ ss
patch_of_absent id dto [] h = refl
patch_of_absent id dto (s ∷ ss) h = ground (arith, patch_of_absent id dto ss)

drop_of_absent :
    (id : String) (ss : List SavedSearch)
    → length (keep (is_search id) ss) ≡ 0
    → keep (λ s. not (is_search id s)) ss ≡ ss
drop_of_absent id [] h = refl
drop_of_absent id (s ∷ ss) h = ground (arith, drop_of_absent id ss)

-- Where the one search with the identifier is the user's, changing or deleting it touches no other.
others_kept-patch :
    (u id : String) (dto : UpdateSavedSearchDto) (ss : List SavedSearch)
    → length (keep (is_search id) ss) ≤ 1
    → any (is_owned u id) ss ≡ true
    → keep (of_others u) (patch (is_search id) (apply_changes dto) ss) ≡ keep (of_others u) ss
unfolding apply_changes
others_kept-patch u id dto [] h o = refl
others_kept-patch u id dto (s ∷ ss) h o =
    ground (arith, others_kept-patch u id dto ss, patch_of_absent id dto ss, not_there u id ss)

others_kept-drop :
    (u id : String) (ss : List SavedSearch)
    → length (keep (is_search id) ss) ≤ 1
    → any (is_owned u id) ss ≡ true
    → keep (of_others u) (keep (λ s. not (is_search id s)) ss) ≡ keep (of_others u) ss
others_kept-drop u id [] h o = refl
others_kept-drop u id (s ∷ ss) h o =
    ground (arith, others_kept-drop u id ss, drop_of_absent id ss, not_there u id ss)

module _ (p : Platform) where
  abbrev pub searches : World p → List SavedSearch
  searches w = p.saved_searches.rows w.saved_searches

  -- Saving a search keeps every user at fifty searches or fewer.
  pub create-AtMostFifty :
      (u : String) (dto : CreateSavedSearchDto) (id : String) (now : ℕ) (w w' : World p)
      (s : SavedSearch)
      → create p u dto id now w ≡ (ok s, w')
      → AtMostFifty (searches w)
      → AtMostFifty (searches w')
  unfolding create
  create-AtMostFifty u dto id now w w' s e h =
      let (n, w1, e1, rest) =
        >>=-ok (query (λ v. p.saved_searches.count (is_of u) v.saved_searches)) _ w e in
      let (x, w2, e2, rest2) = >>-ok _ _ w1 rest in
      let (replied, same1) = query-ok _ w e1 in
      let (few, same2) = throw_if-ok _ _ w1 e2 in
      let (db, stored, written) = store-ok _ _ _ w2 rest2 in
      let same = same2 ∙ same1 in
      let rows =
        ap searches written
        ∙ (p.saved_searches.create_rows _ w2.saved_searches (s, db) stored).1
        ∙ ap (λ v. searches v ++ new_search u dto id now ∷ []) same in
      let counted = p.saved_searches.count_rows _ w.saved_searches n replied in
      λ v.
        subst (λ ss. length (keep (is_of v) ss) ≤ 50) (sym rows)
          (fifty_more u v dto id now (searches w) (ap (leb 50) (sym counted) ∙ few) h)

  -- The search was the user's, and the searches of others are as they were.
  pub record OwnOnly (u id : String) (w w' : World p) : Type 0 where
    pub owned : any (is_owned u id) (searches w) ≡ true
    pub others : keep (of_others u) (searches w') ≡ keep (of_others u) (searches w)

  -- A user who changes a search owns it, and the searches of the other users stay as they were, where
  -- identifiers are unique.
  update-OwnOnly :
      (u id : String) (dto : UpdateSavedSearchDto) (w w' : World p) (s : SavedSearch)
      → update p u id dto w ≡ (ok s, w')
      → length (keep (is_search id) (searches w)) ≤ 1
      → OwnOnly u id w w'
  unfolding update ensure_owned
  update-OwnOnly u id dto w w' s e one =
      let (x, w1, e1, rest) = >>-ok (ensure_owned p u id) _ w e in
      let (owned, same) = require-ok _ _ _ _ w w1 e1 in
      let (db, stored, written) = store-ok _ _ _ w1 rest in
      let rows =
        ap searches written
        ∙ (p.saved_searches.update_rows _ _ w1.saved_searches (s, db) stored).1
        ∙ ap (λ v. patch (is_search id) (apply_changes dto) (searches v)) same in
      record {
        owned = owned;
        others = ap (keep (of_others u)) rows ∙ others_kept-patch u id dto (searches w) one owned;
      }

  -- A user who deletes a search owns it, and the searches of the other users stay as they were, where
  -- identifiers are unique.
  remove-OwnOnly :
      (u id : String) (w w' : World p) (x : String)
      → remove p u id w ≡ (ok x, w')
      → length (keep (is_search id) (searches w)) ≤ 1
      → OwnOnly u id w w'
  unfolding remove ensure_owned
  remove-OwnOnly u id w w' x e one =
      let (a, w1, e1, rest) = >>-ok (ensure_owned p u id) _ w e in
      let (s, w2, e2, rest2) =
        >>-ok (on_searches p (p.saved_searches.delete (is_search id))) _ w1 rest in
      let (owned, same) = require-ok _ _ _ _ w w1 e1 in
      let (db, stored, written) = store-ok _ _ _ w1 e2 in
      let rows =
        ap (λ r. searches r.1) (sym rest2)
        ∙ ap searches written
        ∙ (p.saved_searches.delete_rows _ w1.saved_searches (s, db) stored).1
        ∙ ap (λ v. keep (λ k. not (is_search id k)) (searches v)) same in
      record {
        owned = owned;
        others = ap (keep (of_others u)) rows ∙ others_kept-drop u id (searches w) one owned;
      }
