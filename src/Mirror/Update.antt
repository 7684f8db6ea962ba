-- ===== src/Mirror/Update.antt =====
-- `updateWithMirror` of apps/api-core/src/modules/properties/property-mirror.service.ts, on every
-- outcome of its writes.
use real_estate_platform.Base.{
  ℕ, ◌≡◌, refl, sym, ap, ◌∙◌, inl, inr, String, some, none, some-injective, find, arith,
}
use mathlib.Core.Path.{subst₂}
use real_estate_platform.Errors.{Thrown}
use real_estate_platform.Exec.{Result, err, answer, try_catch, pure, query, or_throw, ◌>>◌}
use real_estate_platform.Exec.Inversion.{
  >>=-cases, store-ok, store-err, query-ok, query-err, or_throw-ok, or_throw-err, try_catch-cases,
  caught_store-answered, ok-not_err,
}
use real_estate_platform.Listing.{Property}
use real_estate_platform.Table.{patch, changed}
use real_estate_platform.Platform.{Platform, World}
use real_estate_platform.Properties.{has_property_id, on_listings}
use real_estate_platform.Mirror.{
  mirror_of, copy_mirror, is_mirror, replace_by, on_index, as_app_exception, undo_update,
  update_with_mirror, listing_missing,
}
use real_estate_platform.Mirror.InStep.{
  Mirrored, Mirrored-update, undone_update, KeepsIds, IsOnly-of_found,
}
use real_estate_platform.Mirror.Atomic.{
  rows_of, documents_of, IsMirrored, Unchanged, Unchanged-of_same, IsMirrored-of_Unchanged, Atomic,
  write_row,
}

none-not_some : {A : Type 0} {a : A} → none ≡ some a → ⊥
none-not_some e = ground arith

module _ (p : Platform) (id : String) (set : Property → Property) where
  undo_update-run :
      (before : Property) (x : Thrown) (w w' : World p) {r : Result Property}
      (a : ℕ × p.listings.Db)
      → p.listings.update_many (has_property_id id) (replace_by before) w.listings ≡ answer a
      → undo_update p id before x w ≡ (r, w')
      → (r ≡ err (as_app_exception x "update")) × (w' ≡ record w { listings = a.1 })
  unfolding undo_update ◌>>◌
  undo_update-run before x w w' a replied e =
      let caught =
        caught_store-answered 0 (λ v. v.listings) (λ v k. record v { listings = k })
          (p.listings.update_many (has_property_id id) (replace_by before)) w replied in
      let end = sym e ∙ (rw caught refl) in (ap (λ k. k.0) end, ap (λ k. k.1) end)

  -- The document has become what the change makes of it, and so has its row.
  pub record Updated (w w' : World p) (d : Property) : Type 0 where
    pub before : Property
    pub was : find (has_property_id id) (documents_of p w) ≡ some before
    pub is : d ≡ set before
    pub rows :
        rows_of p w' ≡ patch (is_mirror id) (copy_mirror (mirror_of (set before))) (rows_of p w)
    pub documents : documents_of p w' ≡ patch (has_property_id id) set (documents_of p w)

  -- The state between the two writes.
  record Written (w w1 : World p) (before after : Property) : Type 0 where
    was : find (has_property_id id) (documents_of p w) ≡ some before
    is : after ≡ set before
    rows : rows_of p w1 ≡ rows_of p w
    documents : documents_of p w1 ≡ patch (has_property_id id) set (documents_of p w)

  undone :
      (before after : Property) (x : Thrown) (w w1 w' : World p) (r : Result Property)
      → KeepsIds set
      → ((d : Property) (db : p.listings.Db)
          → (a : ℕ × p.listings.Db) × (p.listings.update_many (has_property_id id) (replace_by d) db
              ≡ answer a))
      → IsMirrored p w
      → Written w w1 before after
      → undo_update p id before x w1 ≡ (r, w')
      → Atomic p w w' r (Updated w w')
  undone before after x w w1 w' r k undo m half e =
      let (a, replied) = undo before w1.listings in
      let (is_err, end) = undo_update-run before x w1 w' a replied e in
      let kept =
        (p.listings.update_many_rows _ _ w1.listings a replied).1
        ∙ ap (patch (has_property_id id) (replace_by before)) half.documents
        ∙ undone_update id set before (documents_of p w) k
            (IsOnly-of_found id before (documents_of p w) (m.unique id) half.was) in
      let unchanged : Unchanged p w w' = record {
        rows = ap (rows_of p) end ∙ half.rows;
        documents = ap (documents_of p) end ∙ kept;
      } in
      record {
        both_or_none = inr (as_app_exception x "update", is_err, unchanged);
        mirrored = IsMirrored-of_Unchanged p unchanged m;
      }

  second_write :
      (before after : Property) (w w1 w' : World p) (r : Result Property)
      → KeepsIds set
      → ((d : Property) (db : p.listings.Db)
          → (a : ℕ × p.listings.Db) × (p.listings.update_many (has_property_id id) (replace_by d) db
              ≡ answer a))
      → IsMirrored p w
      → Written w w1 before after
      → try_catch
          (on_index p (p.property_index.update (is_mirror id) (copy_mirror (mirror_of after)))
            >> pure after)
          (undo_update p id before)
          w1
        ≡ (r, w')
      → Atomic p w w' r (Updated w w')
  second_write before after w w1 w' r k undo m half e =
      let write = p.property_index.update (is_mirror id) (copy_mirror (mirror_of after)) in
      elim (try_catch-cases _ (undo_update p id before) w1 e) [
        | inl (d, ran, is_ok) ↦ elim (write_row p write after w1 w' ran) [
          | inl (a, replied, end, was) ↦
              let rows' =
                ap (rows_of p) end
                ∙ (p.property_index.update_rows _ _ w1.property_index a replied).1
                ∙ ap (patch (is_mirror id) (copy_mirror (mirror_of after))) half.rows
                ∙ ap (λ q. patch (is_mirror id) (copy_mirror (mirror_of q)) (rows_of p w))
                    half.is in
              let docs' = ap (documents_of p) end ∙ half.documents in
              record {
                both_or_none = inl (
                  after,
                  is_ok ∙ was,
                  record {
                    before = before;
                    was = half.was;
                    is = half.is;
                    rows = rows';
                    documents = docs';
                  },
                );
                mirrored =
                    subst₂ Mirrored (sym rows') (sym docs')
                      (Mirrored-update id set before (rows_of p w) (documents_of p w) k half.was m);
              }
          | inr (x, same, was) ↦ absurd (ok-not_err was)
        ]
        | inr (x, w2, ran, undoing) ↦ elim (write_row p write after w1 w2 ran) [
          | inl (a, replied, end, was) ↦ absurd (ok-not_err (sym was))
          | inr (y, same, was) ↦
              undone before after x w w1 w' r k undo m half
                (ap (undo_update p id before x) (sym same) ∙ undoing)
        ]
      ]

  nothing_done :
      (x : Thrown) (w w' : World p) (r : Result Property)
      → r ≡ err x
      → w' ≡ w
      → IsMirrored p w
      → Atomic p w w' r (Updated w w')
  nothing_done x w w' r is same m =
      let unchanged = Unchanged-of_same p same in
      record {
        both_or_none = inr (x, is, unchanged);
        mirrored = IsMirrored-of_Unchanged p unchanged m;
      }

  -- Changing a listing, by a change that leaves its identifiers alone, is done in both stores and
  -- answers the changed document, or throws and leaves both as they were, where MongoDB answers the
  -- replacement that undoes it; the stores stay in step either way.
  pub update_with_mirror-Atomic :
      (w w' : World p) (r : Result Property)
      → KeepsIds set
      → update_with_mirror p id set w ≡ (r, w')
      → ((d : Property) (db : p.listings.Db)
          → (a : ℕ × p.listings.Db) × (p.listings.update_many (has_property_id id) (replace_by d) db
              ≡ answer a))
      → IsMirrored p w
      → Atomic p w w' r (Updated w w')
  unfolding update_with_mirror
  update_with_mirror-Atomic w w' r k e undo m =
      elim (>>=-cases (query (λ v. p.listings.find_first (has_property_id id) v.listings)) _ w e) [
        | inl (x, refused, is) ↦ nothing_done x w w' r is (query-err _ w refused) m
        | inr (found, w1, asked, rest1) ↦
            let (replied, same1) = query-ok _ w asked in
            elim (>>=-cases (or_throw found (listing_missing id)) _ w1 rest1) [
              | inl (x, refused, is) ↦
                  nothing_done x w w' r is ((or_throw-err _ _ w1 refused).1 ∙ same1) m
              | inr (before, w2, there, rest2) ↦
                  let (is_found, same2) = or_throw-ok _ _ w1 there in
                  let same = same2 ∙ same1 in
                  let was =
                    sym (p.listings.find_first_rows _ w.listings found replied) ∙ is_found in
                  elim (>>=-cases
                    (on_listings p (p.listings.find_one_and_update (has_property_id id) set)) _ w2
                    rest2) [
                      | inl (x, refused, is) ↦
                          nothing_done x w w' r is (store-err _ _ _ w2 refused ∙ same) m
                      | inr (written, w3, stored, rest3) ↦
                          let (db, updated, at) = store-ok _ _ _ w2 stored in
                          let (answered, docs) =
                            p.listings.find_one_and_update_rows _ set w2.listings (written, db)
                              updated in
                          let now_found =
                            answered
                            ∙ ap (λ v. changed set (find (has_property_id id) (documents_of p v)))
                                same
                            ∙ ap (changed set) was in
                          elim (>>=-cases (or_throw written (listing_missing id)) _ w3 rest3) [
                            | inl (x, refused, is) ↦
                                absurd
                                  (none-not_some (sym (or_throw-err _ _ w3 refused).0 ∙ now_found))
                            | inr (after, w4, kept, rest4) ↦
                                let (is_after, same4) = or_throw-ok _ _ w3 kept in
                                second_write before after w w4 w' r k undo m
                                  (record {
                                    was = was;
                                    is = some-injective (sym is_after ∙ now_found);
                                    rows =
                                        ap (rows_of p) same4
                                        ∙ ap (rows_of p) at
                                        ∙ ap (rows_of p) same;
                                    documents =
                                        ap (documents_of p) same4
                                        ∙ ap (documents_of p) at
                                        ∙ docs
                                        ∙ ap
                                            (λ v. patch (has_property_id id) set (documents_of p v))
                                            same;
                                  })
                                  rest4
                          ]
                    ]
            ]
      ]
