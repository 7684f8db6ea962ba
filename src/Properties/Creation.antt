-- ===== src/Properties/Creation.antt =====
-- A listing that is created.
use real_estate_platform.Base.{
  ℕ, ◌≡◌, refl, sym, ap, ◌∙◌, subst, inl, inr, false, Option, some, none, [], ◌∷◌, ◌++◌, String,
  any, find, or_else,
}
use real_estate_platform.Exec.{ok, answer, pure, ok-injective}
use real_estate_platform.Exec.Inversion.{>>=-ok, >>-ok, query-ok, or_throw-ok, ok-not_err}
use real_estate_platform.Exec.Frames.{
  Keeps, >>=-Keeps, >>-Keeps, query-Keeps, store-Keeps, change-Keeps, catch_with-Keeps,
}
use real_estate_platform.Listing.{Property}
use real_estate_platform.Schema.{Area, Compound, Developer}
use real_estate_platform.Platform.{Platform, World}
use real_estate_platform.Slug.{Unicode, slugify}
use real_estate_platform.Slug.Unique.{IsFree, build_unique_slug-IsFree}
use real_estate_platform.Catalog.Slugs.{taken_in, is_taken-Asks}
use real_estate_platform.Catalog.{is_area, is_compound, is_taken, invalidate}
use real_estate_platform.Catalog.Areas.{sync_property_count}
use real_estate_platform.Mirror.{mirror_of, has_mongo_id, create_with_mirror}
use real_estate_platform.Mirror.InStep.{Mirrored}
use real_estate_platform.Mirror.Atomic.{
  rows_of, documents_of, IsMirrored, create_with_mirror-Atomic,
}
use real_estate_platform.Properties.{has_property_id}
use real_estate_platform.Properties.Media.{Web}
use real_estate_platform.Properties.Writes.{CreatePropertyDto, has_listing_slug, new_listing}
use real_estate_platform.Properties.Service.{
  create, after_write, invalidate_listing, find_area, find_compound, reference_or_next,
  next_reference_no,
}

module _ (p : Platform) where
  -- No listing has the slug, or it is dated since those that the title could have are all taken.
  abbrev pub IsFreeSlug : Unicode → CreatePropertyDto → ℕ → String → World p → Type 0
  IsFreeSlug u dto now slug w =
      IsFree (is_taken p.listings (λ v. v.listings) has_listing_slug)
        (taken_in p.listings (λ v. v.listings) has_listing_slug)
        (slugify u (or_else dto.slug dto.title.en) "property") 50 now w slug

  -- What the creation of a listing did.
  pub record IsListed (u : Unicode) (web : Web) (dto : CreatePropertyDto) (id mongo_id : String)
      (now : ℕ) (w w' : World p) (d : Property) : Type 0 where
    pub compound : Compound
    pub developer : Developer
    pub area : Area
    pub slug : String
    pub reference_no : String
    pub in_compound :
        find (is_compound dto.compound_id) (p.compounds.rows w.compounds) ≡ some compound
    pub in_area : find (is_area dto.location.area_id) (p.areas.rows w.areas) ≡ some area
    pub is_free : IsFreeSlug u dto now slug w
    pub document : d ≡ new_listing web dto compound developer area id mongo_id slug reference_no now
    pub documents : documents_of p w' ≡ documents_of p w ++ d ∷ []
    pub rows : rows_of p w' ≡ rows_of p w ++ mirror_of d ∷ []
    pub mirrored : IsMirrored p w'

  both : World p → p.listings.Db × p.property_index.Db
  both w = (w.listings, w.property_index)

  after_write-both :
      (id area_id : String) (slug : Option String) (fuel now : ℕ)
      → Keeps both (after_write p id area_id slug fuel now)
  unfolding both after_write invalidate_listing invalidate sync_property_count
  after_write-both id area_id slug fuel now =
      >>-Keeps _ _ _
        (>>-Keeps _ _ _ (change-Keeps _ _ _ _ (λ w d. refl)) (change-Keeps _ _ _ _ (λ w d. refl)))
        (catch_with-Keeps _ _ _ (
          >>=-Keeps _ _ _ (query-Keeps _ _) (λ n.
            >>-Keeps _ _ _ (store-Keeps _ _ _ _ (λ w d. refl))
              (change-Keeps _ _ _ _ (λ w d. refl)))))

  find_compound-ok :
      (id : String) (w w' : World p) (r : Compound × Developer)
      → find_compound p id w ≡ (ok r, w')
      → (find (is_compound id) (p.compounds.rows w.compounds) ≡ some r.0) × (w' ≡ w)
  unfolding find_compound
  find_compound-ok id w w' r e =
      let (found, w1, asked, rest1) = >>=-ok _ _ w e in
      let (compound, w2, given, rest2) = >>=-ok _ _ w1 rest1 in
      let (joined, w3, looked, rest3) = >>=-ok _ _ w2 rest2 in
      let (developer, w4, there, rest4) = >>=-ok _ _ w3 rest3 in
      let (replied, same1) = query-ok _ w asked in
      let (is_found, same2) = or_throw-ok _ _ w1 given in
      let (replied3, same3) = query-ok _ w2 looked in
      let (is_there, same4) = or_throw-ok _ _ w3 there in
      (
        sym (p.compounds.find_first_rows _ w.compounds found replied)
            ∙ is_found
            ∙ ap (λ o. some o.0) (ok-injective (ap (λ t. t.0) rest4)),
        sym (ap (λ t. t.1) rest4) ∙ same4 ∙ same3 ∙ same2 ∙ same1,
      )

  find_area-ok :
      (id field : String) (w w' : World p) (a : Area)
      → find_area p id field w ≡ (ok a, w')
      → (find (is_area id) (p.areas.rows w.areas) ≡ some a) × (w' ≡ w)
  unfolding find_area
  find_area-ok id field w w' a e =
      let (found, w1, asked, rest) = >>=-ok _ _ w e in
      let (replied, same1) = query-ok _ w asked in
      let (is_found, same2) = or_throw-ok _ _ w1 rest in
      (sym (p.areas.find_first_rows _ w.areas found replied) ∙ is_found, same2 ∙ same1)

  reference_or_next-Keeps : (o : Option String) → Keeps (λ (w : World p). w) (reference_or_next p o)
  unfolding reference_or_next next_reference_no
  reference_or_next-Keeps none = >>=-Keeps _ _ _ (query-Keeps _ _) (λ ds w. refl)
  reference_or_next-Keeps (some r) = λ w. refl

  -- The document and its row, whatever comes after the two writes.
  mirrored-IsListed :
      (u : Unicode) (web : Web) (dto : CreatePropertyDto) (id mongo_id : String) (now : ℕ)
      (w v w' : World p) (d : Property) (c : Compound) (b : Developer) (a : Area)
      (slug ref : String)
      → find (is_compound dto.compound_id) (p.compounds.rows w.compounds) ≡ some c
      → find (is_area dto.location.area_id) (p.areas.rows w.areas) ≡ some a
      → IsFreeSlug u dto now slug w
      → create_with_mirror p (new_listing web dto c b a id mongo_id slug ref now) w ≡ (ok d, v)
      → both w' ≡ both v
      → ((db : p.listings.Db)
          → (x : ℕ × p.listings.Db) × (p.listings.delete_many (has_mongo_id mongo_id) db
              ≡ answer x))
      → any (has_mongo_id mongo_id) (documents_of p w) ≡ false
      → any (has_property_id id) (documents_of p w) ≡ false
      → IsMirrored p w
      → IsListed u web dto id mongo_id now w w' d
  unfolding both new_listing
  mirrored-IsListed u web dto id mongo_id now w v w' d c b a slug ref in_c in_a free e same undo
        fresh new m =
      let listing = new_listing web dto c b a id mongo_id slug ref now in
      let atomic = create_with_mirror-Atomic p listing w v (ok d) e undo fresh new m in
      elim atomic.both_or_none [
        | inr (x, threw, kept) ↦ absurd (ok-not_err threw)
        | inl (doc, is_doc, (is_listing, rows, documents)) ↦
            let is : d ≡ listing = ok-injective is_doc ∙ is_listing in
            record {
              compound = c;
              developer = b;
              area = a;
              slug = slug;
              reference_no = ref;
              in_compound = in_c;
              in_area = in_a;
              is_free = free;
              document = is;
              documents =
                  ap (λ t. p.listings.rows t.0) same
                  ∙ documents
                  ∙ ap (λ k. documents_of p w ++ k ∷ []) (sym is);
              rows =
                  ap (λ t. p.property_index.rows t.1) same
                  ∙ rows
                  ∙ ap (λ k. rows_of p w ++ mirror_of k ∷ []) (sym is);
              mirrored =
                  subst (λ t. Mirrored (p.property_index.rows t.1) (p.listings.rows t.0)) (sym same)
                    atomic.mirrored;
            }
      ]

  -- A creation that succeeds, of a listing whose identifiers no document has and where MongoDB answers
  -- the deletion that would undo it, is of a known compound and area, stores the document of the request
  -- behind the others with a slug that is free or dated, and its row behind the other rows, and the
  -- stores stay in step.
  pub create-IsListed :
      (u : Unicode) (web : Web) (dto : CreatePropertyDto) (id mongo_id : String) (fuel now : ℕ)
      (w w' : World p) (d : Property)
      → create p u web dto id mongo_id fuel now w ≡ (ok d, w')
      → ((db : p.listings.Db)
          → (x : ℕ × p.listings.Db) × (p.listings.delete_many (has_mongo_id mongo_id) db
              ≡ answer x))
      → any (has_mongo_id mongo_id) (documents_of p w) ≡ false
      → any (has_property_id id) (documents_of p w) ≡ false
      → IsMirrored p w
      → IsListed u web dto id mongo_id now w w' d
  unfolding create
  create-IsListed u web dto id mongo_id fuel now w w' d e undo fresh new m =
      let (r, w1, e1, rest1) = >>=-ok (find_compound p dto.compound_id) _ w e in
      let (a, w2, e2, rest2) = >>=-ok (find_area p dto.location.area_id _) _ w1 rest1 in
      let (slug, w3, e3, rest3) = >>=-ok _ _ w2 rest2 in
      let (ref, w4, e4, rest4) = >>=-ok (reference_or_next p dto.reference_no) _ w3 rest3 in
      let (doc, w5, e5, rest5) = >>=-ok (create_with_mirror p _) _ w4 rest4 in
      let (n, w6, e6, rest6) =
        >>-ok (after_write p doc.property_id a.id none fuel now) (pure doc) w5 rest5 in
      let (in_compound, same1) = find_compound-ok dto.compound_id w w1 r e1 in
      let (in_area, same2) = find_area-ok dto.location.area_id _ w1 w2 a e2 in
      let back2 = same2 ∙ same1 in
      let (free, same3) =
        build_unique_slug-IsFree _ (taken_in p.listings (λ v. v.listings) has_listing_slug)
          (is_taken-Asks p.listings (λ v. v.listings) has_listing_slug) u _ "property" now w2 w3
          slug e3 in
      let back4 =
        sym (ap (λ t. t.1) e4) ∙ reference_or_next-Keeps dto.reference_no w3 ∙ same3 ∙ back2 in
      let start =
        subst
          (λ v.
            create_with_mirror p (new_listing web dto r.0 r.1 a id mongo_id slug ref now) v
            ≡ (ok doc, w5))
          back4 e5 in
      let after =
        sym (ap (λ t. both t.1) rest6)
        ∙ sym (ap (λ t. both t.1) e6)
        ∙ after_write-both doc.property_id a.id none fuel now w5 in
      subst (IsListed u web dto id mongo_id now w w') (ok-injective (ap (λ t. t.0) rest6)) (
        mirrored-IsListed u web dto id mongo_id now w w5 w' doc r.0 r.1 a slug ref in_compound
          (subst (λ v. find (is_area dto.location.area_id) (p.areas.rows v.areas) ≡ some a) same1
            in_area)
          (subst (IsFreeSlug u dto now slug) back2 free) start after undo fresh new m)
