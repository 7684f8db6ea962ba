-- ===== src/Catalog/Homes.antt =====
-- An area is removed: the compounds keep their areas.
use real_estate_platform.Base.{
  ℕ, ◌≡◌, refl, sym, ap, ◌∙◌, subst, ◌⊎◌, inl, inr, Bool, true, false, not, List, [], ◌∷◌, String,
  ◌==◌, eq_iff, any, keep, ltb, All, arith, ltb-length-keep,
}
use real_estate_platform.Exec.{ok, ok-injective, pure}
use real_estate_platform.Exec.Inversion.{>>=-ok, >>-ok, query-ok, store-ok}
use real_estate_platform.Exec.Frames.{Keeps, change-Keeps}
use real_estate_platform.Schema.{Area, Compound}
use real_estate_platform.Table.{patch}
use real_estate_platform.Table.Checks.{require-ok}
use real_estate_platform.Platform.{Platform, World}
use real_estate_platform.Catalog.{is_area, invalidate}
use real_estate_platform.Catalog.Areas.{
  lies_in, area_missing, ensure_exists, deactivate_or_delete, remove,
}

abbrev pub HasHome : List Area → Compound → Type 0
HasHome areas c = any (is_area c.area_id) areas ≡ true

abbrev deactivated : Area → Area
deactivated a = record a { is_active = false }

patched_home :
    (id j : String) (areas : List Area)
    → any (is_area j) (patch (is_area id) deactivated areas) ≡ any (is_area j) areas
patched_home id j [] = refl
patched_home id j (a ∷ areas) = ground (arith, patched_home id j areas)

deleted_home :
    (id j : String) (areas : List Area)
    → (j == id) ≡ false
    → any (is_area j) (keep (λ a. not (is_area id a)) areas) ≡ any (is_area j) areas
deleted_home id j [] h = refl
deleted_home id j (a ∷ areas) h =
    ground (arith, deleted_home id j areas h, eq_iff a.id j, eq_iff a.id id, eq_iff j id)

patched_homes :
    (id : String) (areas : List Area) (cs : List Compound)
    → All (HasHome areas) cs
    → All (HasHome (patch (is_area id) deactivated areas)) cs
patched_homes id areas [] h = tt
patched_homes id areas (c ∷ cs) h =
    (patched_home id c.area_id areas ∙ h.0, patched_homes id areas cs h.1)

deleted_homes :
    (id : String) (areas : List Area) (cs : List Compound)
    → any (lies_in id) cs ≡ false
    → All (HasHome areas) cs
    → All (HasHome (keep (λ a. not (is_area id a)) areas)) cs
deleted_homes id areas [] e h = tt
deleted_homes id areas (c ∷ cs) e h = (
  deleted_home id c.area_id areas (ground arith) ∙ h.0,
  deleted_homes id areas cs (ground arith) h.1,
)

module _ (p : Platform) where
  abbrev areas : World p → List Area
  areas w = p.areas.rows w.areas

  -- What the removal of an area did.
  pub record IsRemoved (id : String) (w w' : World p) : Type 0 where
    pub known : any (is_area id) (p.areas.rows w.areas) ≡ true
    pub rows :
        ((any (lies_in id) (p.compounds.rows w.compounds) ≡ true)
          × (p.areas.rows w'.areas
              ≡ patch (is_area id) (λ a. record a { is_active = false }) (p.areas.rows w.areas)))
        ⊎ ((any (lies_in id) (p.compounds.rows w.compounds) ≡ false)
            × (any (is_area id) (p.areas.rows w'.areas) ≡ false))
    pub homes :
        All (HasHome (p.areas.rows w.areas)) (p.compounds.rows w.compounds)
        → All (HasHome (p.areas.rows w'.areas)) (p.compounds.rows w'.compounds)

  gone :
      (id : String) (rows : List Area)
      → any (is_area id) (keep (λ a. not (is_area id a)) rows) ≡ false
  gone id [] = refl
  gone id (a ∷ rows) = ground (arith, gone id rows)

  taken :
      (b : Bool) (id : String) (a : Area) (w w' : World p)
      → deactivate_or_delete p b id w ≡ (ok a, w')
      → any (lies_in id) (p.compounds.rows w.compounds) ≡ b
      → any (is_area id) (areas w) ≡ true
      → IsRemoved id w w'
  unfolding deactivate_or_delete
  taken true id a w w' e inhabited known =
      let (db, updated, written) = store-ok _ _ _ w e in
      let rows = ap areas written ∙ (p.areas.update_rows _ _ w.areas (a, db) updated).1 in
      record {
        known = known;
        rows = inl (inhabited, rows);
        homes = λ h.
            subst (λ v. All (HasHome v) (p.compounds.rows w'.compounds)) (sym rows)
              (subst
                (λ v. All (HasHome (patch (is_area id) deactivated (areas w))) (p.compounds.rows v))
                (sym (ap (λ v. v.compounds) written))
                (patched_homes id (areas w) (p.compounds.rows w.compounds) h));
      }
  taken false id a w w' e empty known =
      let (db, deleted, written) = store-ok _ _ _ w e in
      let rows = ap areas written ∙ (p.areas.delete_rows _ w.areas (a, db) deleted).1 in
      record {
        known = known;
        rows = inr (empty, ap (any (is_area id)) rows ∙ gone id (areas w));
        homes = λ h.
            subst (λ v. All (HasHome v) (p.compounds.rows w'.compounds)) (sym rows)
              (subst
                (λ v. All (HasHome (keep (λ x. not (is_area id x)) (areas w))) (p.compounds.rows v))
                (sym (ap (λ v. v.compounds) written))
                (deleted_homes id (areas w) (p.compounds.rows w.compounds) empty h));
      }

  abbrev places : World p → p.areas.Db × p.compounds.Db
  places w = (w.areas, w.compounds)

  same_places :
      (id : String) (w v v' : World p)
      → v'.areas ≡ v.areas
      → v'.compounds ≡ v.compounds
      → IsRemoved id w v
      → IsRemoved id w v'
  same_places id w v v' e f r = record {
    known = r.known;
    rows =
        subst
          (λ a.
            ((any (lies_in id) (p.compounds.rows w.compounds) ≡ true)
              × (p.areas.rows a
                  ≡ patch (is_area id) (λ a. record a { is_active = false })
                      (p.areas.rows w.areas)))
            ⊎ ((any (lies_in id) (p.compounds.rows w.compounds) ≡ false)
                × (any (is_area id) (p.areas.rows a) ≡ false)))
          (sym e) r.rows;
    homes = λ h.
        subst (λ c. All (HasHome (p.areas.rows v'.areas)) (p.compounds.rows c)) (sym f)
          (subst (λ a. All (HasHome (p.areas.rows a)) (p.compounds.rows v.compounds)) (sym e)
            (r.homes h));
  }

  invalidate-places : (fuel now : ℕ) → Keeps places (invalidate p fuel now)
  unfolding invalidate
  invalidate-places fuel now = change-Keeps _ _ _ _ (λ w d. refl)

  -- A removal of an area that succeeds is of a registered area and answers its identifier: the area is
  -- deactivated if a compound lies in it and else is gone, and compounds that all had their areas still
  -- have them.
  pub remove_area-IsRemoved :
      (id answered : String) (fuel now : ℕ) (w w' : World p)
      → remove p id fuel now w ≡ (ok answered, w')
      → (answered ≡ id) × IsRemoved id w w'
  unfolding remove ensure_exists
  remove_area-IsRemoved id answered fuel now w w' e =
      let (x, w1, e1, rest1) = >>-ok (ensure_exists p id) _ w e in
      let (n, w2, e2, rest2) = >>=-ok _ _ w1 rest1 in
      let (a, w3, e3, rest3) = >>-ok (deactivate_or_delete p (ltb 0 n) id) _ w2 rest2 in
      let (m, w4, e4, rest4) = >>-ok (invalidate p fuel now) (pure id) w3 rest3 in
      let (known, kept1) =
        require-ok p.areas (λ v. v.areas) (is_area id) (area_missing id) w w1 e1 in
      let (counted, kept2) = query-ok _ w1 e2 in
      let same = kept2 ∙ kept1 in
      let number =
        ap (ltb 0) (p.compounds.count_rows _ w1.compounds n counted)
        ∙ ltb-length-keep (lies_in id) (p.compounds.rows w1.compounds) in
      let last : places w' ≡ places w3 =
        sym (ap (λ r. places r.1) rest4)
        ∙ sym (ap (λ r. places r.1) e4)
        ∙ invalidate-places fuel now w3 in
      (
        sym (ok-injective (ap (λ r. r.0) rest4)),
        subst (λ v. IsRemoved id v w') same
            (same_places id w2 w3 w' (ap (λ b. b.0) last) (ap (λ b. b.1) last) (
              taken (ltb 0 n) id a w2 w3 e3
                (ap (λ v. any (lies_in id) (p.compounds.rows v.compounds)) kept2 ∙ sym number)
                (ap (λ v. any (is_area id) (areas v)) same ∙ known))),
      )
