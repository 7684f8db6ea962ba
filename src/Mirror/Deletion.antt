-- ===== src/Mirror/Deletion.antt =====
-- `softDeleteWithMirror` of apps/api-core/src/modules/properties/property-mirror.service.ts, on every
-- outcome of its writes.
use real_estate_platform.Base.{
  ℕ, ◌≤◌, ◌≡◌, refl, sym, ap, ◌∙◌, subst, ◌⊎◌, inl, inr, true, false, String, List, [], ◌∷◌, Option,
  some, none, is_some, keep, length, ◌=?◌, arith,
}
use real_estate_platform.Errors.{Thrown}
use real_estate_platform.Exec.{Result, ok, err, answer, try_catch, throw_if, ◌>>◌}
use real_estate_platform.Exec.Inversion.{
  >>=-cases, >>-cases, store-ok, store-err, throw_if-ok, throw_if-err, try_catch-cases,
  caught_store-answered,
}
use real_estate_platform.Schema.{PropertyIndex}
use real_estate_platform.Listing.{Property}
use real_estate_platform.Table.{patch}
use real_estate_platform.Platform.{Platform, World}
use real_estate_platform.Properties.{has_property_id, on_listings}
use real_estate_platform.Mirror.{
  mirror_of, is_mirror, is_live, delete_at, delete_mirror_at, on_index, as_app_exception,
  undo_delete, soft_delete_with_mirror, listing_missing,
}
use real_estate_platform.Mirror.InStep.{mirrors}
use real_estate_platform.Mirror.Atomic.{
  rows_of, documents_of, IsMirrored, Unchanged, Unchanged-of_same, IsMirrored-of_Unchanged,
}

none_live :
    (i : String) (ds : List Property)
    → length (keep (has_property_id i) ds) ≡ 0
    → length (keep (is_live i) ds) ≡ 0
none_live i [] h = refl
none_live i (d ∷ ds) h = ground (arith, none_live i ds)

patch_of_none_live :
    (i : String) (o : Option ℕ) (ds : List Property)
    → length (keep (is_live i) ds) ≡ 0
    → patch (is_live i) (delete_at o) ds ≡ ds
patch_of_none_live i o [] h = refl
patch_of_none_live i o (d ∷ ds) h = ground (arith, patch_of_none_live i o ds)

patch_of_absent :
    (i : String) (o : Option ℕ) (ds : List Property)
    → length (keep (has_property_id i) ds) ≡ 0
    → patch (has_property_id i) (delete_at o) ds ≡ ds
patch_of_absent i o [] h = refl
patch_of_absent i o (d ∷ ds) h = ground (arith, patch_of_absent i o ds)

mirrors_of_absent :
    (i : String) (now : ℕ) (ds : List Property)
    → length (keep (has_property_id i) ds) ≡ 0
    → patch (is_mirror i) (delete_mirror_at now) (mirrors ds) ≡ mirrors ds
unfolding mirror_of
mirrors_of_absent i now [] h = refl
mirrors_of_absent i now (d ∷ ds) h = ground (arith, mirrors_of_absent i now ds)

-- Where one live document has the identifier, its row is dated as it is.
dated_in_step :
    (i : String) (now : ℕ) (ds : List Property)
    → length (keep (has_property_id i) ds) ≤ 1
    → (length (keep (is_live i) ds) =? 0) ≡ false
    → patch (is_mirror i) (delete_mirror_at now) (mirrors ds)
      ≡ mirrors (patch (is_live i) (delete_at (some now)) ds)
unfolding mirror_of
dated_in_step i now [] u l = absurd (ground arith)
dated_in_step i now (d ∷ ds) u l = ground (
  arith,
  dated_in_step i now ds,
  mirrors_of_absent i now ds,
  none_live i ds,
  patch_of_none_live i (some now) ds,
)

zero_of_test : (n : ℕ) → (n =? 0) ≡ true → n ≡ 0
zero_of_test n h = ground arith

undated : (d : Property) → is_some d.deleted_at ≡ false → delete_at none d ≡ d
undated d h = ground arith

undone_delete :
    (i : String) (now : ℕ) (ds : List Property)
    → length (keep (has_property_id i) ds) ≤ 1
    → (length (keep (is_live i) ds) =? 0) ≡ false
    → patch (has_property_id i) (delete_at none) (patch (is_live i) (delete_at (some now)) ds) ≡ ds
undone_delete i now [] u l = absurd (ground arith)
undone_delete i now (d ∷ ds) u l = ground (
  arith,
  undone_delete i now ds,
  none_live i ds,
  patch_of_none_live i (some now) ds,
  patch_of_absent i none ds,
  undated d,
)

unique_after :
    (i j : String) (o : Option ℕ) (ds : List Property)
    → length (keep (has_property_id j) (patch (is_live i) (delete_at o) ds))
      ≡ length (keep (has_property_id j) ds)
unique_after i j o [] = refl
unique_after i j o (d ∷ ds) = ground (arith, unique_after i j o ds)

module _ (p : Platform) (id : String) (now : ℕ) where
  -- The live document and its row are dated.
  pub record Deleted (w w' : World p) : Type 0 where
    pub rows : rows_of p w' ≡ patch (is_mirror id) (delete_mirror_at now) (rows_of p w)
    pub documents : documents_of p w' ≡ patch (is_live id) (delete_at (some now)) (documents_of p w)

  -- Both stores are dated or neither, and they are in step.
  pub record AtomicDeletion (w w' : World p) (r : Result PropertyIndex) : Type 0 where
    pub both_or_none :
        ((q : PropertyIndex) × (r ≡ ok q) × Deleted w w')
        ⊎ ((x : Thrown) × (r ≡ err x) × Unchanged p w w')
    pub mirrored : IsMirrored p w'

  nothing_deleted :
      (x : Thrown) (w w' : World p) (r : Result PropertyIndex)
      → r ≡ err x
      → Unchanged p w w'
      → IsMirrored p w
      → AtomicDeletion w w' r
  nothing_deleted x w w' r is unchanged m = record {
    both_or_none = inr (x, is, unchanged);
    mirrored = IsMirrored-of_Unchanged p unchanged m;
  }

  undo_delete-run :
      (x : Thrown) (w w' : World p) {r : Result PropertyIndex} (a : ℕ × p.listings.Db)
      → p.listings.update_many (has_property_id id) (delete_at none) w.listings ≡ answer a
      → undo_delete p id x w ≡ (r, w')
      → (r ≡ err (as_app_exception x "delete")) × (w' ≡ record w { listings = a.1 })
  unfolding undo_delete ◌>>◌
  undo_delete-run x w w' a replied e =
      let caught =
        caught_store-answered 0 (λ v. v.listings) (λ v k. record v { listings = k })
          (p.listings.update_many (has_property_id id) (delete_at none)) w replied in
      let end = sym e ∙ (rw caught refl) in (ap (λ k. k.0) end, ap (λ k. k.1) end)

  second_date :
      (w w1 w' : World p) (r : Result PropertyIndex)
      → ((db : p.listings.Db)
          → (a : ℕ × p.listings.Db) × (p.listings.update_many
                (has_property_id id)
                (delete_at none)
                db
              ≡ answer a))
      → IsMirrored p w
      → (length (keep (is_live id) (documents_of p w)) =? 0) ≡ false
      → rows_of p w1 ≡ rows_of p w
      → documents_of p w1 ≡ patch (is_live id) (delete_at (some now)) (documents_of p w)
      → try_catch
          (on_index p (p.property_index.update (is_mirror id) (delete_mirror_at now)))
          (undo_delete p id)
          w1
        ≡ (r, w')
      → AtomicDeletion w w' r
  second_date w w1 w' r undo m there rows docs e =
      let write = p.property_index.update (is_mirror id) (delete_mirror_at now) in
      let ds = documents_of p w in
      elim (try_catch-cases (on_index p write) (undo_delete p id) w1 e) [
        | inl (q, ran, is_ok) ↦
            let (db, replied, end) = store-ok _ _ _ w1 ran in
            let rows' =
              ap (rows_of p) end
              ∙ (p.property_index.update_rows _ _ w1.property_index (q, db) replied).1
              ∙ ap (patch (is_mirror id) (delete_mirror_at now)) rows in
            let docs' = ap (documents_of p) end ∙ docs in
            record {
              both_or_none = inl (q, is_ok, record { rows = rows'; documents = docs' });
              mirrored = record {
                in_step =
                    rows'
                    ∙ ap (patch (is_mirror id) (delete_mirror_at now)) m.in_step
                    ∙ dated_in_step id now ds (m.unique id) there
                    ∙ sym (ap mirrors docs');
                unique = λ j.
                    subst (λ n. n ≤ 1)
                      (sym (
                        ap (λ es. length (keep (has_property_id j) es)) docs'
                        ∙ unique_after id j (some now) ds))
                      (m.unique j);
              };
            }
        | inr (x, w2, ran, undoing) ↦
            let same = store-err _ _ _ w1 ran in
            let (a, replied) = undo w2.listings in
            let (is_err, end) = undo_delete-run x w2 w' a replied undoing in
            let kept =
              (p.listings.update_many_rows _ _ w2.listings a replied).1
              ∙ ap (λ v. patch (has_property_id id) (delete_at none) (documents_of p v)) same
              ∙ ap (patch (has_property_id id) (delete_at none)) docs
              ∙ undone_delete id now ds (m.unique id) there in
            nothing_deleted (as_app_exception x "delete") w w' r is_err
              (record {
                rows = ap (rows_of p) end ∙ ap (rows_of p) same ∙ rows;
                documents = ap (documents_of p) end ∙ kept;
              })
              m
      ]

  -- Deleting a listing softly dates its live document and its row, or throws and leaves both as they
  -- were, where MongoDB answers the change that undoes it; the stores stay in step either way.
  pub soft_delete_with_mirror-AtomicDeletion :
      (w w' : World p) (r : Result PropertyIndex)
      → soft_delete_with_mirror p id now w ≡ (r, w')
      → ((db : p.listings.Db)
          → (a : ℕ × p.listings.Db) × (p.listings.update_many
                (has_property_id id)
                (delete_at none)
                db
              ≡ answer a))
      → IsMirrored p w
      → AtomicDeletion w w' r
  unfolding soft_delete_with_mirror
  soft_delete_with_mirror-AtomicDeletion w w' r e undo m =
      elim (>>=-cases (on_listings p (p.listings.update_many (is_live id) (delete_at (some now)))) _
        w e) [
          | inl (x, refused, is) ↦
              nothing_deleted x w w' r is (Unchanged-of_same p (store-err _ _ _ w refused)) m
          | inr (n, w1, dated, rest) ↦
              let (db, replied, written) = store-ok _ _ _ w dated in
              let (counted, docs) = p.listings.update_many_rows _ _ w.listings (n, db) replied in
              let rows1 = ap (rows_of p) written in
              let docs1 = ap (documents_of p) written ∙ docs in
              elim (>>-cases (throw_if (n =? 0) (listing_missing id)) _ w1 rest) [
                | inl (x, refused, is) ↦
                    let (none_matched, same, why) = throw_if-err _ _ w1 refused in
                    let untouched =
                      patch_of_none_live id (some now) (documents_of p w)
                        (zero_of_test _ (ap (λ k. k =? 0) (sym counted) ∙ none_matched)) in
                    nothing_deleted x w w' r is
                      (record {
                        rows = ap (rows_of p) same ∙ rows1;
                        documents = ap (documents_of p) same ∙ docs1 ∙ untouched;
                      })
                      m
                | inr (a, w2, passed, rest2) ↦
                    let (some_matched, same) = throw_if-ok _ _ w1 passed in
                    second_date w w2 w' r undo m (ap (λ k. k =? 0) (sym counted) ∙ some_matched)
                      (ap (rows_of p) same ∙ rows1) (ap (documents_of p) same ∙ docs1) rest2
              ]
        ]
