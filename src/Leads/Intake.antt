-- ===== src/Leads/Intake.antt =====
-- What a submitted enquiry does: the honeypot, the references, the stored row, the counter.
use real_estate_platform.Base.{
  ℕ, ◌≡◌, refl, sym, ap, ◌∙◌, ◌⊎◌, inl, inr, Bool, true, false, String, Option, none, some, any,
  List, [], ◌∷◌, ◌++◌, subst, given, Bool-cases, some-injective,
}
use real_estate_platform.Exec.{Exec, ok, if_given, ◌>>◌, pure}
use real_estate_platform.Exec.Inversion.{>>=-ok, >>-ok, store-ok, if_given-ok}
use real_estate_platform.Exec.{ok-injective, ◌>>=◌}
use real_estate_platform.Table.Checks.{require-ok}
use real_estate_platform.Platform.{Platform, World}
use real_estate_platform.Properties.{increment_lead_count}
use real_estate_platform.Properties.Counters.{increment_lead_count-run}
use real_estate_platform.Catalog.{is_area, is_compound}
use real_estate_platform.Leads.{
  on_leads, CreateLeadDto, honeypot_tripped, new_lead, is_live_property, assert_property,
  assert_area, assert_compound, assert_catalog_refs_exist, count_lead, submit, create,
}

module _ (p : Platform) where
  -- What an identifier that is given and not empty names is there.
  abbrev pub Resolves : {Row : Type 0} → (String → Row → Bool) → List Row → Option String → Type 0
  Resolves is rows o = (id : String) → given o ≡ some id → any (is id) rows ≡ true

  optional-ok :
      {Row : Type 0} (is : String → Row → Bool) (rows : World p → List Row) (o : Option String)
      (check : String → Exec (World p) (Unit {0})) (w w' : World p)
      → ((id : String) (v v' : World p)
          → check id v ≡ (ok tt, v')
          → (any (is id) (rows v) ≡ true) × (v' ≡ v))
      → if_given (given o) check w ≡ (ok tt, w')
      → Resolves is (rows w) o × (w' ≡ w)
  optional-ok is rows o check w w' law e = elim (if_given-ok (given o) check w e) [
    | inl (absent, same) ↦ ((λ id h. absurd (none_some absent h)), same)
    | inr (id, is_id, checked) ↦
        let (found, same) = law id w w' checked in
        (
          (λ j h. subst (λ i. any (is i) (rows w) ≡ true) (some-injective (sym is_id ∙ h)) found),
          same,
        )
  ]
    where
      none_some : {id : String} → given o ≡ none → given o ≡ some id → ⊥
      none_some a b = cc (sym a ∙ b)

  counted : Option String → ℕ → Exec (World p) (Unit {0})
  counted o now = if_given o (λ id. increment_lead_count p id now >> pure tt)

  counted-run :
      (o : Option String) (now : ℕ) (w : World p)
      → (counted o now w).0 ≡ ok tt
        × ((counted o now w).1 ≡ record w {
          listings = (counted o now w).1.listings;
          redis = (counted o now w).1.redis;
        })
  unfolding counted if_given ◌>>◌
  counted-run none now w = (refl, refl)
  counted-run (some id) now w = let (n, e) = increment_lead_count-run p id now w in (rw e, rw e)

  -- The counter of the listing never makes an enquiry fail, and no other store changes.
  count_lead-run :
      (o : Option String) (now : ℕ) (w : World p)
      → (count_lead p o now w).0 ≡ ok tt
        × ((count_lead p o now w).1 ≡ record w {
          listings = (count_lead p o now w).1.listings;
          redis = (count_lead p o now w).1.redis;
        })
  unfolding count_lead counted
  count_lead-run o now w = counted-run (given o) now w

  refs-ok :
      (a c : Option String) (w w' : World p)
      → assert_catalog_refs_exist p a c w ≡ (ok tt, w')
      → Resolves is_area (p.areas.rows w.areas) a
        × Resolves is_compound (p.compounds.rows w.compounds) c
        × (w' ≡ w)
  unfolding assert_catalog_refs_exist assert_area assert_compound
  refs-ok a c w w' e =
      let (u, w1, first, second) = >>-ok _ _ w e in
      let (area, same1) =
        optional-ok is_area (λ v. p.areas.rows v.areas) a _ w w1
          (λ id v v' h. require-ok _ _ _ _ v v' h) first in
      let (compound, same2) =
        optional-ok is_compound (λ v. p.compounds.rows v.compounds) c _ w1 w'
          (λ id v v' h. require-ok _ _ _ _ v v' h) second in
      (
        area,
        subst (λ v. Resolves is_compound (p.compounds.rows v.compounds) c) same1 compound,
        same2 ∙ same1,
      )

  property-ok :
      (o : Option String) (w w' : World p)
      → if_given (given o) (assert_property p) w ≡ (ok tt, w')
      → Resolves is_live_property (p.property_index.rows w.property_index) o × (w' ≡ w)
  unfolding assert_property
  property-ok o w w' e =
      optional-ok is_live_property (λ v. p.property_index.rows v.property_index) o _ w w'
        (λ id v v' h. require-ok _ _ _ _ v v' h) e

  -- What a form that passes the honeypot has stored.
  pub record IsStored (dto : CreateLeadDto) (submitter : Option String) (id : String) (now : ℕ)
      (w w' : World p) : Type 0 where
    pub stored : p.leads.rows w'.leads ≡ p.leads.rows w.leads ++ new_lead dto submitter id now ∷ []
    pub property :
        Resolves is_live_property (p.property_index.rows w.property_index) dto.property_id
    pub area : Resolves is_area (p.areas.rows w.areas) dto.area_id
    pub compound : Resolves is_compound (p.compounds.rows w.compounds) dto.compound_id
    pub others : w' ≡ record w { leads = w'.leads; listings = w'.listings; redis = w'.redis }

  counted-frame :
      (o : Option String) (now : ℕ) (w w' : World p) {u : Unit {0}}
      → count_lead p o now w ≡ (ok u, w')
      → w' ≡ record w { listings = w'.listings; redis = w'.redis }
  counted-frame o now w w' e =
      subst (λ v. v ≡ record w { listings = v.listings; redis = v.redis }) (ap (λ t. t.1) e)
        (count_lead-run o now w).1

  -- The row is stored, then counted.
  store_lead : CreateLeadDto → Option String → String → ℕ → Exec (World p) (Option String)
  store_lead dto submitter id now = do
    lead ← on_leads p (p.leads.create (new_lead dto submitter id now))
    count_lead p dto.property_id now
    pure (some lead.id)

  store_lead-ok :
      (dto : CreateLeadDto) (submitter : Option String) (id : String) (now : ℕ) (w : World p)
      (r : Option String) (w' : World p)
      → store_lead dto submitter id now w ≡ (ok r, w')
      → (r ≡ some id)
        × (p.leads.rows w'.leads ≡ p.leads.rows w.leads ++ new_lead dto submitter id now ∷ [])
        × (w' ≡ record w { leads = w'.leads; listings = w'.listings; redis = w'.redis })
  unfolding store_lead new_lead
  store_lead-ok dto submitter id now w r w' e =
      let (lead, w1, e1, rest1) = >>=-ok _ _ w e in
      let (db, replied, written) = store-ok _ _ _ w e1 in
      let (u, w2, e2, rest2) = >>-ok _ _ w1 rest1 in
      let created = p.leads.create_rows _ w.leads (lead, db) replied in
      let same = ap (λ t. t.1) rest2 in
      let frame =
        subst (λ v. w2 ≡ record v { listings = w2.listings; redis = w2.redis }) written
          (counted-frame dto.property_id now w1 w2 e2) in
      let result = ok-injective (ap (λ t. t.0) rest2) in
      (
        sym result ∙ ap (λ l. some l.id) created.0,
        subst
            (λ v. p.leads.rows v.leads ≡ p.leads.rows w.leads ++ new_lead dto submitter id now ∷ [])
            same (ap (λ v. p.leads.rows v.leads) frame ∙ created.1),
        subst (λ v. v ≡ record w { leads = v.leads; listings = v.listings; redis = v.redis }) same
            (frame
              ∙ ap {A = p.leads.Db}
                  (λ d. record w { leads = d; listings = w2.listings; redis = w2.redis })
                  (sym (ap (λ v. v.leads) frame))),
      )

  submit-ok :
      (dto : CreateLeadDto) (submitter : Option String) (id : String) (now : ℕ) (w : World p)
      (r : Option String) (w' : World p)
      → submit p dto submitter id now w ≡ (ok r, w')
      → (r ≡ some id) × IsStored dto submitter id now w w'
  unfolding submit store_lead
  submit-ok dto submitter id now w r w' e =
      let (u1, w1, e1, rest1) = >>-ok _ _ w e in
      let (u2, w2, e2, rest2) = >>-ok _ _ w1 rest1 in
      let (property, same1) = property-ok dto.property_id w w1 e1 in
      let (area, compound, same2) = refs-ok dto.area_id dto.compound_id w1 w2 e2 in
      let back = same2 ∙ same1 in
      let (result, stored, others) =
        subst
          (λ v.
            (r ≡ some id)
            × (p.leads.rows w'.leads ≡ p.leads.rows v.leads ++ new_lead dto submitter id now ∷ [])
            × (w' ≡ record v { leads = w'.leads; listings = w'.listings; redis = w'.redis }))
          back (store_lead-ok dto submitter id now w2 r w' rest2) in
      (
        result,
        record {
          stored = stored;
          property = property;
          area = subst (λ v. Resolves is_area (p.areas.rows v.areas) dto.area_id) same1 area;
          compound =
              subst (λ v. Resolves is_compound (p.compounds.rows v.compounds) dto.compound_id) same1
                compound;
          others = others;
        },
      )

  -- An enquiry is answered in one of two ways. A form that trips the honeypot gets no identifier and
  -- changes nothing. Any other gets the identifier of the one row that is added: the listing, area
  -- and compound that it names are there, the listing is not deleted, and apart from the leads only
  -- the listings and the cache may change.
  pub create_sound :
      (dto : CreateLeadDto) (submitter : Option String) (id : String) (now : ℕ) (w : World p)
      (r : Option String) (w' : World p)
      → create p dto submitter id now w ≡ (ok r, w')
      → ((honeypot_tripped dto ≡ true) × (r ≡ none) × (w' ≡ w))
        ⊎ ((honeypot_tripped dto ≡ false) × (r ≡ some id) × IsStored dto submitter id now w w')
  unfolding create
  create_sound dto submitter id now w r w' e = elim (Bool-cases (honeypot_tripped dto)) [
    | inl tripped ↦ inl (
      tripped,
      sym (ok-injective (ap (λ t. t.0) (rw (tripped, create) at e))),
      sym (ap (λ t. t.1) (rw (tripped, create) at e)),
    )
    | inr clear ↦
        let (result, stored) = submit-ok dto submitter id now w r w' (rw (clear, create) at e) in
        inr (clear, result, stored)
  ]
