-- ===== src/Properties/Moves.antt =====
-- A listing that moves to another area.
use real_estate_platform.Base.{
  ℕ, ◌≡◌, refl, sym, ap, ◌∙◌, false, Option, some, none, List, [], ◌∷◌, String, ◌==◌, eq_iff, find,
  or_else, given, arith,
}
use real_estate_platform.Exec.{ok, or_throw, pure}
use real_estate_platform.Exec.Inversion.{>>=-ok, >>-ok, query-ok, or_throw-ok}
use real_estate_platform.Exec.Frames.{
  Keeps, >>=-Keeps, >>-Keeps, query-Keeps, store-Keeps, store-Keeps_answered, change-Keeps,
  or_throw-Keeps, catch_with-Keeps, try_catch-Keeps,
}
use real_estate_platform.Listing.{Property}
use real_estate_platform.Schema.{Area}
use real_estate_platform.Table.{patch}
use real_estate_platform.Platform.{Platform, World}
use real_estate_platform.Slug.{Unicode}
use real_estate_platform.Slug.Unique.{build_unique_slug-IsFree}
use real_estate_platform.Catalog.Slugs.{taken_in, is_taken-Asks}
use real_estate_platform.Catalog.{is_area, invalidate}
use real_estate_platform.Catalog.Areas.{sync_property_count}
use real_estate_platform.Mirror.{update_with_mirror, undo_update, is_live, listing_missing}
use real_estate_platform.Properties.Media.{Web}
use real_estate_platform.Properties.Writes.{
  UpdatePropertyDto, LocationDto, has_listing_slug_elsewhere,
}
use real_estate_platform.Properties.Service.{
  update, after_write, invalidate_listing, find_area, find_compound, new_location, new_relations,
  new_listing_slug,
}

find-patch_other :
    (a old : String) (f : Area → Area) (rows : List Area)
    → ((r : Area) → (f r).id ≡ r.id)
    → (a == old) ≡ false
    → find (is_area a) (patch (is_area old) f rows) ≡ find (is_area a) rows
find-patch_other a old f [] h d = refl
find-patch_other a old f (r ∷ rows) h d =
    ground
      (arith, h r, find-patch_other a old f rows h d, eq_iff r.id a, eq_iff r.id old, eq_iff a old)

module _ (p : Platform) where
  abbrev pub area_at : String → World p → Option Area
  area_at a w = find (is_area a) (p.areas.rows w.areas)

  sync-area_at :
      (a old : String) (fuel now : ℕ)
      → (a == old) ≡ false
      → Keeps (area_at a) (sync_property_count p old fuel now)
  unfolding sync_property_count invalidate
  sync-area_at a old fuel now d = >>=-Keeps _ _ _ (query-Keeps _ _) (λ n.
      >>-Keeps _ _ _
        (store-Keeps_answered _ _ _ _ (λ w r e.
          ap (find (is_area a)) (p.areas.update_rows _ _ w.areas r e).1
          ∙ find-patch_other a old _ (p.areas.rows w.areas) (λ x. refl) d))
        (change-Keeps _ _ _ _ (λ w d. refl)))

  after_write-area_at :
      (a id old : String) (slug : Option String) (fuel now : ℕ)
      → (a == old) ≡ false
      → Keeps (area_at a) (after_write p id old slug fuel now)
  unfolding after_write invalidate_listing invalidate
  after_write-area_at a id old slug fuel now d =
      >>-Keeps _ _ _
        (>>-Keeps _ _ _ (change-Keeps _ _ _ _ (λ w d. refl)) (change-Keeps _ _ _ _ (λ w d. refl)))
        (catch_with-Keeps _ _ _ (sync-area_at a old fuel now d))

  new_listing_slug-kept :
      (u : Unicode) (id : String) (desired : Option String) (now : ℕ) (w w' : World p)
      (o : Option String)
      → new_listing_slug p u id desired now w ≡ (ok o, w')
      → w' ≡ w
  unfolding new_listing_slug
  new_listing_slug-kept u id none now w w' o e = sym (ap (λ r. r.1) e)
  new_listing_slug-kept u id (some desired) now w w' o e =
      let (s, w1, e1, rest) = >>=-ok _ _ w e in
      sym (ap (λ r. r.1) rest)
      ∙ (build_unique_slug-IsFree _
          (taken_in p.listings (λ v. v.listings) (has_listing_slug_elsewhere id))
          (is_taken-Asks p.listings (λ v. v.listings) (has_listing_slug_elsewhere id)) u desired
          "property" now w w1 s e1).1

  pub find_compound-Keeps : (id : String) → Keeps (λ (w : World p). w) (find_compound p id)
  unfolding find_compound
  find_compound-Keeps id = >>=-Keeps _ _ _ (query-Keeps _ _) (λ found.
      >>=-Keeps _ _ _ (or_throw-Keeps _ _ _) (λ c.
        >>=-Keeps _ _ _ (query-Keeps _ _)
          (λ joined. >>=-Keeps _ _ _ (or_throw-Keeps _ _ _) (λ d w. refl))))

  new_relations-Keeps : (o : Option String) → Keeps (λ (w : World p). w) (new_relations p o)
  unfolding new_relations
  new_relations-Keeps none = λ w. refl
  new_relations-Keeps (some id) = >>=-Keeps _ _ _ (find_compound-Keeps id) (λ r w. refl)

  new_location-Keeps :
      (o : Option LocationDto) (old : String) → Keeps (λ (w : World p). w) (new_location p o old)
  unfolding new_location find_area
  new_location-Keeps none old = λ w. refl
  new_location-Keeps (some l) old =
      >>=-Keeps _ _ _ (>>=-Keeps _ _ _ (query-Keeps _ _) (λ found. or_throw-Keeps _ _ _))
        (λ area w. refl)

  update_with_mirror-areas :
      (id : String) (set : Property → Property) → Keeps (λ w. w.areas) (update_with_mirror p id set)
  unfolding update_with_mirror undo_update
  update_with_mirror-areas id set = >>=-Keeps _ _ _ (query-Keeps _ _) (λ found.
      >>=-Keeps _ _ _ (or_throw-Keeps _ _ _) (λ before.
        >>=-Keeps _ _ _ (store-Keeps _ _ _ _ (λ w d. refl)) (λ written.
          >>=-Keeps _ _ _ (or_throw-Keeps _ _ _) (λ after.
            try_catch-Keeps _ _ _ (>>-Keeps _ _ _ (store-Keeps _ _ _ _ (λ w d. refl)) (λ w. refl))
              (λ e.
                >>-Keeps _ _ _ (catch_with-Keeps _ _ _ (store-Keeps _ _ _ _ (λ w d. refl)))
                  (λ w. refl))))))

  -- A change of a listing that succeeds leaves the row of every area but the one in which the listing
  -- lay before as it was: the area that it moves to keeps its old number of listings.
  pub update-counts_of_others :
      (u : Unicode) (web : Web) (id : String) (dto : UpdatePropertyDto) (fuel now : ℕ)
      (w w' : World p) (d : Property)
      → update p u web id dto fuel now w ≡ (ok d, w')
      → (old : Property) × (find (is_live id) (p.listings.rows w.listings) ≡ some old)
        × ((a : String) → (a == or_else old.area_id "") ≡ false → area_at a w' ≡ area_at a w)
  unfolding update
  update-counts_of_others u web id dto fuel now w w' d e =
      let (found, w1, e1, rest1) = >>=-ok _ _ w e in
      let (old, w2, e2, rest2) = >>=-ok (or_throw found (listing_missing id)) _ w1 rest1 in
      let (slug, w3, e3, rest3) = >>=-ok (new_listing_slug p u id _ now) _ w2 rest2 in
      let (location, w4, e4, rest4) = >>=-ok (new_location p dto.location _) _ w3 rest3 in
      let (compound, w5, e5, rest5) = >>=-ok (new_relations p _) _ w4 rest4 in
      let (doc, w6, e6, rest6) = >>=-ok (update_with_mirror p id _) _ w5 rest5 in
      let (n, w7, e7, rest7) = >>-ok (after_write p id _ _ fuel now) (pure doc) w6 rest6 in
      let (asked, kept1) = query-ok _ w e1 in
      let (is_found, kept2) = or_throw-ok _ _ w1 e2 in
      let before =
        sym (ap (λ r. r.1.areas) e6)
        ∙ update_with_mirror-areas id _ w5
        ∙ ap (λ v. v.areas)
            (sym (ap (λ r. r.1) e5)
              ∙ new_relations-Keeps (given dto.compound_id) w4
              ∙ sym (ap (λ r. r.1) e4)
              ∙ new_location-Keeps dto.location _ w3
              ∙ new_listing_slug-kept u id _ now w2 w3 slug e3
              ∙ kept2
              ∙ kept1) in
      (
        old,
        sym (p.listings.find_first_rows _ w.listings found asked) ∙ is_found,
        λ a other.
            sym (ap (λ r. area_at a r.1) rest7)
            ∙ sym (ap (λ r. area_at a r.1) e7)
            ∙ after_write-area_at a id (or_else old.area_id "") (some old.slug) fuel now other w6
            ∙ ap (λ b. find (is_area a) (p.areas.rows b)) before,
      )
