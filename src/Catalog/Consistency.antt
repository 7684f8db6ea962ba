-- ===== src/Catalog/Consistency.antt =====
-- Compounds are created, changed and removed: what each operation does to the tables of compounds
-- and developers, whose consistency is that the developers show the number of their projects.
use real_estate_platform.Base.{
  ℕ, ◌≡◌, refl, sym, ap, ◌∙◌, inl, inr, Bool, true, false, List, [], ◌∷◌, ◌++◌, Option, some, none,
  String, ◌==◌, eq_iff, given, any, length-keep-concat, arith, ltb,
}
use real_estate_platform.Errors.{Thrown}
use real_estate_platform.Exec.{
  ok, err, answer, Exec, if_given, ◌>>◌, Result, transaction, rolled_back,
}
use real_estate_platform.Exec.Inversion.{>>=-ok, >>-ok, store-ok, if_given-ok}
use real_estate_platform.Exec.Frames.{
  Keeps, >>=-Keeps, >>-Keeps, pure-Keeps, query-Keeps, store-Keeps, or_throw-Keeps,
}
use real_estate_platform.Schema.{Compound}
use real_estate_platform.Table.{Table, patch}
use real_estate_platform.Table.Checks.{require, require-ok}
use real_estate_platform.Platform.{Platform, World}
use real_estate_platform.Catalog.{is_compound, on_compounds, invalidate, is_developer, is_area}
use real_estate_platform.Catalog.Developers.{is_active_of}
use real_estate_platform.Catalog.Compounds.{
  CreateCompoundDto, UpdateCompoundDto, new_compound, apply_compound, assert_developer, assert_area,
  assert_relations_exist, find_one, create_links, create_link_unless, create_many_links, insert,
  replace_links, write,
}
use real_estate_platform.Catalog.Slugs.{Unique}
use real_estate_platform.Catalog.Projects.{
  projects, developers, has_unnamed, InStep, nobody, both, invalidate-both,
}

pub projects-concat :
    (i : String) (cs : List Compound) (c : Compound)
    → (i == c.developer_id) ≡ false
    → projects i (cs ++ c ∷ []) ≡ projects i cs
projects-concat i cs c h =
    let added = length-keep-concat (is_active_of i) cs c in
    ground (arith, added, eq_iff i c.developer_id, eq_iff c.developer_id i)

pub other_developer :
    (i : String) (c : Compound) → (i == c.developer_id) ≡ false → is_active_of i c ≡ false
other_developer i c h = ground (arith, eq_iff i c.developer_id, eq_iff c.developer_id i)

module _ (p : Platform) where
  abbrev pub compounds : World p → List Compound
  compounds w = p.compounds.rows w.compounds

  -- `id String @id`: Postgres refuses a second compound with one identifier.
  abbrev pub IsKeyed : Type 0
  IsKeyed =
      (c : Compound) (db : p.compounds.Db) (a : Compound × p.compounds.Db)
      → p.compounds.create c db ≡ answer a
      → any (is_compound c.id) (p.compounds.rows db) ≡ false

  -- No developer has the empty identifier, no two compounds have the same one, and each developer
  -- shows the number of its active compounds.
  pub record IsConsistent (w : World p) : Type 0 where
    pub named : has_unnamed (developers p w) ≡ false
    pub ids : Unique (λ c. c.id) (compounds w)
    pub in_step : InStep p nobody w

  relation-kept :
      {Row : Type 0} (t : Table Row) (read : World p → t.Db) (is : String → Row → Bool)
      (missing : String → Thrown) (o : Option String) (w w' : World p)
      → if_given o (λ i. require t read (is i) (missing i)) w ≡ (ok tt, w')
      → w' ≡ w
  relation-kept t read is missing o w w' e = elim (if_given-ok o _ w e) [
    | inl skipped ↦ skipped.1
    | inr (a, _, checked) ↦ (require-ok t read (is a) (missing a) w w' checked).1
  ]

  pub relations-ok :
      (d a : Option String) (w w' : World p) {x : Unit {0}}
      → assert_relations_exist p d a w ≡ (ok x, w')
      → w' ≡ w
  unfolding assert_relations_exist assert_developer assert_area
  relations-ok d a w w' e =
      let (x, w1, e1, rest) = >>-ok _ _ w e in
      relation-kept p.areas (λ v. v.areas) is_area _ (given a) w1 w' rest
      ∙ relation-kept p.developers (λ v. v.developers) is_developer _ (given d) w w1 e1

  pub find_one-Keeps : (id : String) → Keeps (λ (w : World p). w) (find_one p id)
  unfolding find_one
  find_one-Keeps id = >>=-Keeps _ _ _ (query-Keeps _ _) (λ found.
      >>=-Keeps _ _ _ (or_throw-Keeps _ _ _) (λ c. >>=-Keeps _ _ _ (query-Keeps _ _) (λ links.
        >>=-Keeps _ _ _ (query-Keeps _ _)
          (λ n. >>=-Keeps _ _ _ (query-Keeps _ _) (λ prices v. refl)))))

  create_links-both : (id : String) (xs : List String) → Keeps (both p) (create_links p id xs)
  unfolding create_links
  create_links-both id [] = pure-Keeps _ tt
  create_links-both id (a ∷ xs) =
      >>-Keeps _ _ _ (store-Keeps _ _ _ _ (λ w d. refl)) (create_links-both id xs)

  create_many_links-both :
      (id : String) (xs : List String) → Keeps (both p) (create_many_links p id xs)
  unfolding create_many_links create_link_unless
  create_many_links-both id [] = pure-Keeps _ tt
  create_many_links-both id (a ∷ xs) =
      >>=-Keeps _ _ _ (query-Keeps _ _)
        (λ n. >>-Keeps _ _ _ (unless (ltb 0 n)) (create_many_links-both id xs))
    where
      unless : (b : Bool) → Keeps (both p) (create_link_unless p b id a)
      unless true = pure-Keeps _ tt
      unless false = >>-Keeps _ _ _ (store-Keeps _ _ _ _ (λ w d. refl)) (pure-Keeps _ tt)

  replace_links-both :
      (id : String) (o : Option (List String)) → Keeps (both p) (replace_links p id o)
  unfolding replace_links
  replace_links-both id none = pure-Keeps _ tt
  replace_links-both id (some xs) =
      >>-Keeps _ _ _ (store-Keeps _ _ _ _ (λ w d. refl)) (create_many_links-both id xs)

  committed :
      {A : Type 0} (r : Result A × World p) (w w' : World p) {a : A}
      → rolled_back w r ≡ (ok a, w')
      → r ≡ (ok a, w')
  committed (ok b, v) w w' e = e
  committed (err x, v) w w' e = absurd (ground arith)

  transaction-ok :
      {A : Type 0} (m : Exec (World p) A) (w w' : World p) {a : A}
      → transaction m w ≡ (ok a, w')
      → m w ≡ (ok a, w')
  unfolding transaction
  transaction-ok m w w' e = committed (m w) w w' e

  pub insert-ok :
      (dto : CreateCompoundDto) (id slug : String) (w w' : World p) (c : Compound)
      → IsKeyed
      → transaction (insert p dto id slug) w ≡ (ok c, w')
      → (any (is_compound id) (compounds w) ≡ false)
        × (compounds w' ≡ compounds w ++ new_compound dto id slug ∷ [])
        × (w'.developers ≡ w.developers)
  unfolding insert new_compound
  insert-ok dto id slug w w' c keyed e =
      let (row, w1, e1, rest1) =
        >>=-ok (on_compounds p (p.compounds.create (new_compound dto id slug))) _ w
          (transaction-ok (insert p dto id slug) w w' e) in
      let (x, w2, e2, rest2) = >>-ok (create_links p id _) _ w1 rest1 in
      let (db, created, written) = store-ok _ _ _ w e1 in
      let kept =
        ap (both p) (sym (ap (λ r. r.1) rest2))
        ∙ sym (ap (λ r. both p r.1) e2)
        ∙ create_links-both id _ w1 in
      (
        keyed (new_compound dto id slug) w.compounds (row, db) created,
        ap (λ b. p.compounds.rows b.1) kept
            ∙ ap compounds written
            ∙ (p.compounds.create_rows _ w.compounds (row, db) created).1,
        ap (λ b. b.0) kept ∙ ap (λ v. v.developers) written,
      )

  pub write-ok :
      (id : String) (slug : Option String) (dto : UpdateCompoundDto) (w w' : World p) {x : Unit {0}}
      → transaction (write p id slug dto) w ≡ (ok x, w')
      → (compounds w' ≡ patch (is_compound id) (apply_compound slug dto) (compounds w))
        × (w'.developers ≡ w.developers)
  unfolding write
  write-ok id slug dto w w' e =
      let (row, w1, e1, rest1) =
        >>-ok (on_compounds p (p.compounds.update (is_compound id) (apply_compound slug dto))) _ w
          (transaction-ok (write p id slug dto) w w' e) in
      let (db, updated, written) = store-ok _ _ _ w e1 in
      let kept = sym (ap (λ r. both p r.1) rest1) ∙ replace_links-both id dto.amenity_ids w1 in
      (
        ap (λ b. p.compounds.rows b.1) kept
            ∙ ap compounds written
            ∙ (p.compounds.update_rows _ _ w.compounds (row, db) updated).1,
        ap (λ b. b.0) kept ∙ ap (λ v. v.developers) written,
      )

  -- The last steps of every operation: the cached lists go, and the answer is read.
  pub last_steps :
      {A : Type 0} (fuel now : ℕ) (m : Exec (World p) A) (w w' : World p) {a : A}
      → Keeps (λ v. v) m
      → (invalidate p fuel now >> m) w ≡ (ok a, w')
      → both p w' ≡ both p w
  last_steps fuel now m w w' keeps e =
      sym (ap (λ r. both p r.1) e)
      ∙ >>-Keeps (both p) (invalidate p fuel now) m (invalidate-both p fuel now)
          (λ v. ap (both p) (keeps v)) w
