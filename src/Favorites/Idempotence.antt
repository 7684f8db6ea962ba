-- ===== src/Favorites/Idempotence.antt =====
-- apps/api-core/src/modules/favorites: what `add` and `remove` do to the stores.
use real_estate_platform.Base.{
  ℕ, ◌≡◌, sym, ap, ◌∙◌, inl, inr, subst, Bool, true, false, not, String, List, any, ltb, ◌=?◌,
  length, Bool-cases, not_none-length, any-keep-not, if◌then◌else◌, ltb-length-keep, any-concat,
  keep_of_not_any, eq_refl, ◌++◌, ◌∷◌, [],
}
use mathlib.Core.Path.{subst₂}
use real_estate_platform.Listing.{Property}
use real_estate_platform.Base.Int.{pos, negsuc}
use real_estate_platform.Exec.{ok, answer, ok-injective}
use real_estate_platform.Exec.Inversion.{>>=-ok, >>-ok, query-ok, store-ok}
use real_estate_platform.Schema.{Favorite}
use real_estate_platform.Table.{patch}
use real_estate_platform.Table.Checks.{require-ok}
use real_estate_platform.Platform.{Platform, World}
use real_estate_platform.Properties.{has_property_id, add_favorites}
use real_estate_platform.Properties.Counters.{adjust_favorite_count-ok}
use real_estate_platform.Leads.{is_live_property}
use real_estate_platform.Favorites.{
  is_favorite, new_favorite, save, add_unless, add, uncount, remove,
}
use real_estate_platform.Favorites.Counting.{
  InStep-add, Unique-add, dropped, Consistent, Consistent-remove,
}

module _ (p : Platform) where
  abbrev pub IsConsistent : World p → Type 0
  IsConsistent w = Consistent (p.favorites.rows w.favorites) (p.listings.rows w.listings)

  -- MongoDB answers the update of the counter that a call makes.
  abbrev pub Answers : String → p.listings.Db → Type 0
  Answers id db =
      ((a : ℕ × p.listings.Db) × (p.listings.update_many (has_property_id id)
            (add_favorites (pos 1)) db
          ≡ answer a))
      × ((a : ℕ × p.listings.Db) × (p.listings.update_many (has_property_id id)
              (add_favorites (negsuc 0)) db
            ≡ answer a))

  save-ok :
      (u i : String) (now : ℕ) (w : World p) (b : Bool) (w' : World p)
      → save p u i now w ≡ (ok b, w')
      → Answers i w.listings
      → (b ≡ true)
        × (p.favorites.rows w'.favorites
            ≡ p.favorites.rows w.favorites ++ new_favorite u i now ∷ [])
        × (p.listings.rows w'.listings
            ≡ patch (has_property_id i) (add_favorites (pos 1)) (p.listings.rows w.listings))
  unfolding save
  save-ok u i now w b w' e answers =
      let (f, w1, e1, rest1) = >>-ok _ _ w e in
      let (db, replied, written) = store-ok _ _ _ w e1 in
      let (n, w2, e2, rest2) = >>-ok _ _ w1 rest1 in
      let ((a, up), down) = subst (Answers i) (sym (ap (λ v. v.listings) written)) answers in
      let (counted, kept) = adjust_favorite_count-ok p i (pos 1) now w1 w2 a e2 up in
      let created = p.favorites.create_rows _ w.favorites (f, db) replied in
      let same = ap (λ t. t.1) rest2 in
      (
        sym (ok-injective (ap (λ t. t.0) rest2)),
        ap (λ v. p.favorites.rows v.favorites) (sym same)
            ∙ ap p.favorites.rows kept
            ∙ ap (λ v. p.favorites.rows v.favorites) written
            ∙ created.1,
        ap (λ v. p.listings.rows v.listings) (sym same)
            ∙ counted
            ∙ ap
                (λ v.
                  patch (has_property_id i) (add_favorites (pos 1)) (p.listings.rows v.listings))
                written,
      )

  Consistent-from :
      (w' : World p) {fs : List Favorite} {ds : List Property}
      → p.favorites.rows w'.favorites ≡ fs
      → p.listings.rows w'.listings ≡ ds
      → Consistent fs ds
      → IsConsistent w'
  Consistent-from w' f d c = subst₂ Consistent (sym f) (sym d) c

  add_unless-ok :
      (t : Bool) (u i : String) (now : ℕ) (w : World p) (b : Bool) (w' : World p)
      → add_unless p t u i now w ≡ (ok b, w')
      → Answers i w.listings
      → t ≡ any (is_favorite u i) (p.favorites.rows w.favorites)
      → (b ≡ not t)
        × (b ≡ false → w' ≡ w)
        × (any (is_favorite u i) (p.favorites.rows w'.favorites) ≡ true)
        × (IsConsistent w → IsConsistent w')
  unfolding add_unless
  add_unless-ok true u i now w b w' e answers found =
      let same = sym (ap (λ t. t.1) e) in
      (
        sym (ok-injective (ap (λ t. t.0) e)),
        λ _. same,
        ap (λ v. any (is_favorite u i) (p.favorites.rows v.favorites)) same ∙ sym found,
        subst IsConsistent (sym same),
      )
  add_unless-ok false u i now w b w' e answers found =
      let (is_true, stored, counted) = save-ok u i now w b w' e answers in
      let fs = p.favorites.rows w.favorites in
      (
        is_true,
        λ h. absurd (cc (is_true, h)),
        ap (any (is_favorite u i)) stored
            ∙ any-concat (is_favorite u i) fs (new_favorite u i now) (cc (eq_refl u, eq_refl i)),
        λ c. Consistent-from w' stored counted (record {
          in_step = InStep-add u i now fs (p.listings.rows w.listings) c.in_step;
          unique = Unique-add u i now fs (ap length (keep_of_not_any _ fs (sym found))) c.unique;
        }),
      )

  -- A favourite is added at most once: `added` is true exactly when the user had not saved the
  -- listing. If it is false nothing changes; in both cases the user has the listing saved. The
  -- counters stay in step with the rows, and the rows unique, where MongoDB answers the update.
  pub add_sound :
      (u i : String) (now : ℕ) (w : World p) (b : Bool) (w' : World p)
      → add p u i now w ≡ (ok b, w')
      → Answers i w.listings
      → (any (is_live_property i) (p.property_index.rows w.property_index) ≡ true)
        × (b ≡ not (any (is_favorite u i) (p.favorites.rows w.favorites)))
        × (b ≡ false → w' ≡ w)
        × (any (is_favorite u i) (p.favorites.rows w'.favorites) ≡ true)
        × (IsConsistent w → IsConsistent w')
  unfolding add
  add_sound u i now w b w' e answers =
      let (x, w1, e1, rest1) = >>-ok _ _ w e in
      let (n, w2, e2, rest2) = >>=-ok _ _ w1 rest1 in
      let (live, same1) = require-ok _ _ _ _ w w1 e1 in
      let (replied, same2) = query-ok _ w1 e2 in
      let back = same2 ∙ same1 in
      let fs = p.favorites.rows w.favorites in
      let saved =
        ap (ltb 0) (p.favorites.count_rows _ w1.favorites n replied)
        ∙ ltb-length-keep (is_favorite u i) (p.favorites.rows w1.favorites)
        ∙ ap (λ v. any (is_favorite u i) (p.favorites.rows v.favorites)) same1 in
      let run = subst (λ v. add_unless p (ltb 0 n) u i now v ≡ (ok b, w')) back rest2 in
      let (added, kept, there, consistent) =
        add_unless-ok (ltb 0 n) u i now w b w' run answers saved in
      (live, added ∙ ap not saved, kept, there, consistent)

  uncount-ok :
      (n : ℕ) (i : String) (now : ℕ) (w : World p) (b : Bool) (w' : World p)
      → uncount p n i now w ≡ (ok b, w')
      → Answers i w.listings
      → (b ≡ not (n =? 0))
        × (w'.favorites ≡ w.favorites)
        × (p.listings.rows w'.listings ≡ (
            if n =? 0
            then p.listings.rows w.listings
            else patch (has_property_id i) (add_favorites (negsuc 0)) (p.listings.rows w.listings)))
  unfolding uncount
  uncount-ok n i now w b w' e answers = elim (Bool-cases (n =? 0)) [
    | inl zero_rows ↦
        let run = rw (zero_rows, uncount) at e in
        let same = sym (ap (λ t. t.1) run) in
        rw zero_rows (
          sym (ok-injective (ap (λ t. t.0) run)),
          ap (λ v. v.favorites) same,
          ap (λ v. p.listings.rows v.listings) same,
        )
    | inr some_rows ↦
        let (m, w1, e1, rest) = >>-ok _ _ w (rw (some_rows, uncount) at e) in
        let (counted, kept) =
          adjust_favorite_count-ok p i (negsuc 0) now w w1 answers.1.0 e1 answers.1.1 in
        let same = sym (ap (λ t. t.1) rest) in
        rw some_rows (
          sym (ok-injective (ap (λ t. t.0) rest)),
          ap (λ v. v.favorites) same ∙ kept,
          ap (λ v. p.listings.rows v.listings) same ∙ counted,
        )
  ]

  -- `removed` is true exactly when the user had saved the listing. Afterwards the listing is not
  -- saved by this user, every favourite of another user or listing is kept, and the counters stay in
  -- step with the rows, where MongoDB answers the update.
  remove_sound :
      (u i : String) (now : ℕ) (w : World p) (b : Bool) (w' : World p)
      → remove p u i now w ≡ (ok b, w')
      → Answers i w.listings
      → (b ≡ any (is_favorite u i) (p.favorites.rows w.favorites))
        × (p.favorites.rows w'.favorites ≡ dropped u i (p.favorites.rows w.favorites))
        × (any (is_favorite u i) (p.favorites.rows w'.favorites) ≡ false)
        × (IsConsistent w → IsConsistent w')
  unfolding remove
  remove_sound u i now w b w' e answers =
      let (n, w1, e1, rest) = >>=-ok _ _ w e in
      let (db, replied, written) = store-ok _ _ _ w e1 in
      let (number, left) = p.favorites.delete_many_rows _ w.favorites (n, db) replied in
      let replies = subst (Answers i) (sym (ap (λ v. v.listings) written)) answers in
      let (removed, kept, counted) = uncount-ok n i now w1 b w' rest replies in
      let gone = ap p.favorites.rows kept ∙ ap (λ v. p.favorites.rows v.favorites) written ∙ left in
      let listings = ap (λ v. p.listings.rows v.listings) written in
      (
        removed
            ∙ ap (λ k. not (k =? 0)) number
            ∙ not_none-length (is_favorite u i) (p.favorites.rows w.favorites),
        gone,
        ap (any (is_favorite u i)) gone
            ∙ any-keep-not (is_favorite u i) (p.favorites.rows w.favorites),
        λ c.
            Consistent-from w' gone
              (counted
                ∙ ap
                    (λ ds.
                      if n =? 0
                      then ds
                      else patch (has_property_id i) (add_favorites (negsuc 0)) ds)
                    listings)
              (Consistent-remove u i n _ _ number c),
      )
