-- ===== src/Mirror/Atomic.antt =====
-- `createWithMirror` of apps/api-core/src/modules/properties/property-mirror.service.ts, on every
-- outcome of its writes.
use real_estate_platform.Base.{
  ℕ, ◌≡◌, refl, sym, ap, ◌∙◌, ◌⊎◌, inl, inr, false, not, List, [], ◌∷◌, ◌++◌, keep, any,
}
use mathlib.Core.Path.{subst₂}
use real_estate_platform.Errors.{Thrown}
use real_estate_platform.Exec.{Result, Reply, ok, err, answer, try_catch, pure, ◌>>◌}
use real_estate_platform.Exec.Inversion.{
  >>=-cases, >>-cases, store-ok, store-err, try_catch-cases, caught_store-answered, ok-not_err,
}
use real_estate_platform.Schema.{PropertyIndex}
use real_estate_platform.Listing.{Property}
use real_estate_platform.Platform.{Platform, World}
use real_estate_platform.Properties.{has_property_id, on_listings}
use real_estate_platform.Mirror.{
  mirror_of, has_mongo_id, on_index, as_app_exception, compensate, undo_create, create_with_mirror,
}
use real_estate_platform.Mirror.InStep.{Mirrored, Mirrored-create, undone_create}

module _ (p : Platform) where
  abbrev pub rows_of : World p → List PropertyIndex
  rows_of w = p.property_index.rows w.property_index

  abbrev pub documents_of : World p → List Property
  documents_of w = p.listings.rows w.listings

  abbrev pub IsMirrored : World p → Type 0
  IsMirrored w = Mirrored (rows_of w) (documents_of w)

  -- Neither store has changed.
  pub record Unchanged (w w' : World p) : Type 0 where
    pub rows : rows_of w' ≡ rows_of w
    pub documents : documents_of w' ≡ documents_of w

  pub Unchanged-of_same : {w w' : World p} → w' ≡ w → Unchanged w w'
  Unchanged-of_same {w} e = record { rows = ap rows_of e; documents = ap documents_of e }

  pub IsMirrored-of_Unchanged : {w w' : World p} → Unchanged w w' → IsMirrored w → IsMirrored w'
  IsMirrored-of_Unchanged u m = subst₂ Mirrored (sym u.rows) (sym u.documents) m

  -- What a write of a listing leaves: both writes or none, and the stores in step.
  pub record Atomic (w w' : World p) (r : Result Property) (written : Property → Type 0)
      : Type 0 where
    pub both_or_none :
        ((d : Property) × (r ≡ ok d) × written d) ⊎ ((x : Thrown) × (r ≡ err x) × Unchanged w w')
    pub mirrored : IsMirrored w'

  -- The write of a row and the answer: it is done, or it throws and changes nothing.
  pub write_row :
      (f : p.property_index.Db → Reply (PropertyIndex × p.property_index.Db)) (d : Property)
      (w w' : World p) {r : Result Property}
      → (on_index p f >> pure d) w ≡ (r, w')
      → ((a : PropertyIndex × p.property_index.Db) × (f w.property_index ≡ answer a)
          × (w' ≡ record w { property_index = a.1 })
          × (r ≡ ok d))
        ⊎ ((x : Thrown) × (w' ≡ w) × (r ≡ err x))
  write_row f d w w' e = elim (>>-cases _ _ w e) [
    | inl (x, refused, is) ↦ inr (x, store-err _ _ _ w refused, is)
    | inr (a, w1, stored, rest) ↦
        let (db, replied, written) = store-ok _ _ _ w stored in
        inl ((a, db), replied, ap (λ x. x.1) (sym rest) ∙ written, ap (λ x. x.0) (sym rest))
  ]

  undo_create-run :
      (d : Property) (x : Thrown) (w w' : World p) {r : Result Property} (a : ℕ × p.listings.Db)
      → p.listings.delete_many (has_mongo_id d.mongo_id) w.listings ≡ answer a
      → undo_create p d x w ≡ (r, w')
      → (r ≡ err (as_app_exception x "create")) × (w' ≡ record w { listings = a.1 })
  unfolding undo_create compensate ◌>>◌
  undo_create-run d x w w' a replied e =
      let caught =
        caught_store-answered 0 (λ v. v.listings) (λ v k. record v { listings = k })
          (p.listings.delete_many (has_mongo_id d.mongo_id)) w replied in
      let end = sym e ∙ (rw caught refl) in (ap (λ k. k.0) end, ap (λ k. k.1) end)

  -- Creating a listing, with an object identifier and a property identifier that no document has, is
  -- done in both stores and answers the document, or throws and leaves both as they were, where
  -- MongoDB answers the deletion that undoes it; the stores stay in step either way.
  pub create_with_mirror-Atomic :
      (listing : Property) (w w' : World p) (r : Result Property)
      → create_with_mirror p listing w ≡ (r, w')
      → ((db : p.listings.Db)
          → (a : ℕ × p.listings.Db) × (p.listings.delete_many (has_mongo_id listing.mongo_id) db
              ≡ answer a))
      → any (has_mongo_id listing.mongo_id) (documents_of w) ≡ false
      → any (has_property_id listing.property_id) (documents_of w) ≡ false
      → IsMirrored w
      → Atomic w w' r (λ d.
        (d ≡ listing)
        × (rows_of w' ≡ rows_of w ++ mirror_of listing ∷ [])
        × (documents_of w' ≡ documents_of w ++ listing ∷ []))
  unfolding create_with_mirror
  create_with_mirror-Atomic listing w w' r e undo fresh free m =
      elim (>>=-cases (on_listings p (p.listings.create listing)) _ w e) [
        | inl (x, refused, is) ↦
            let same = Unchanged-of_same (store-err _ _ _ w refused) in
            record { both_or_none = inr (x, is, same); mirrored = IsMirrored-of_Unchanged same m }
        | inr (doc, w1, stored, rest) ↦
            let (db, replied, written) = store-ok _ _ _ w stored in
            let (is_doc, docs) = p.listings.create_rows listing w.listings (doc, db) replied in
            second doc w1 rest is_doc (ap documents_of written ∙ docs) (ap rows_of written)
      ]
    where
      failed_second :
          (doc : Property) (x : Thrown) (w1 w2 : World p)
          → doc ≡ listing
          → documents_of w1 ≡ documents_of w ++ listing ∷ []
          → rows_of w1 ≡ rows_of w
          → w2 ≡ w1
          → undo_create p doc x w2 ≡ (r, w')
          → Atomic w w' r (λ d.
            (d ≡ listing)
            × (rows_of w' ≡ rows_of w ++ mirror_of listing ∷ [])
            × (documents_of w' ≡ documents_of w ++ listing ∷ []))
      failed_second doc x w1 w2 is docs rows same undone =
          let at = ap (λ d. d.mongo_id) is in
          let (a, replied) = undo w2.listings in
          let replied' =
            ap (λ k. p.listings.delete_many (has_mongo_id k) w2.listings) at ∙ replied in
          let (is_err, end) = undo_create-run doc x w2 w' a replied' undone in
          let kept =
            (p.listings.delete_many_rows _ w2.listings a replied).1
            ∙ ap (λ v. keep (λ k. not (has_mongo_id listing.mongo_id k)) (documents_of v)) same
            ∙ ap (keep (λ k. not (has_mongo_id listing.mongo_id k))) docs
            ∙ undone_create listing.mongo_id (documents_of w) listing fresh refl in
          let unchanged : Unchanged w w' = record {
            rows = ap rows_of end ∙ ap rows_of same ∙ rows;
            documents = ap documents_of end ∙ kept;
          } in
          record {
            both_or_none = inr (as_app_exception x "create", is_err, unchanged);
            mirrored = IsMirrored-of_Unchanged unchanged m;
          }

      second :
          (doc : Property) (w1 : World p)
          → try_catch
              (on_index p (p.property_index.create (mirror_of doc)) >> pure doc)
              (undo_create p doc)
              w1
            ≡ (r, w')
          → doc ≡ listing
          → documents_of w1 ≡ documents_of w ++ listing ∷ []
          → rows_of w1 ≡ rows_of w
          → Atomic w w' r (λ d.
            (d ≡ listing)
            × (rows_of w' ≡ rows_of w ++ mirror_of listing ∷ [])
            × (documents_of w' ≡ documents_of w ++ listing ∷ []))
      second doc w1 rest is docs rows = elim (try_catch-cases _ (undo_create p doc) w1 rest) [
        | inl (d, ran, is_ok) ↦
            elim (write_row (p.property_index.create (mirror_of doc)) doc w1 w' ran) [
              | inl (a, replied, end, was) ↦
                  let created = (p.property_index.create_rows _ w1.property_index a replied).1 in
                  let rows' =
                    ap rows_of end
                    ∙ created
                    ∙ ap (λ k. k ++ mirror_of doc ∷ []) rows
                    ∙ ap (λ k. rows_of w ++ mirror_of k ∷ []) is in
                  let docs' = ap documents_of end ∙ docs in
                  record {
                    both_or_none = inl (doc, is_ok ∙ was, (is, rows', docs'));
                    mirrored =
                        subst₂ Mirrored (sym rows') (sym docs')
                          (Mirrored-create (rows_of w) (documents_of w) listing free m);
                  }
              | inr (x, same, was) ↦ absurd (ok-not_err was)
            ]
        | inr (x, w2, ran, undone) ↦
            elim (write_row (p.property_index.create (mirror_of doc)) doc w1 w2 ran) [
              | inl (a, replied, end, was) ↦ absurd (ok-not_err (sym was))
              | inr (y, same, was) ↦ failed_second doc x w1 w2 is docs rows same undone
            ]
      ]
