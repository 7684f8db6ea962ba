-- ===== src/Catalog/Creation.antt =====
-- A compound is created.
use real_estate_platform.Base.{ℕ, ◌≡◌, sym, ◌∙◌, subst, ◌∷◌, [], ◌++◌, String, or_else}
use real_estate_platform.Exec.{ok, transaction}
use real_estate_platform.Exec.Inversion.{>>=-ok, >>-ok}
use real_estate_platform.Schema.{Compound}
use real_estate_platform.Platform.{Platform, World}
use real_estate_platform.Slug.{Unicode}
use real_estate_platform.Slug.Unique.{build_unique_slug-IsFree}
use real_estate_platform.Catalog.{is_taken}
use real_estate_platform.Catalog.Developers.{sync_projects_count}
use real_estate_platform.Catalog.Compounds.{
  CreateCompoundDto, CompoundDetail, new_compound, has_slug, assert_relations_exist, find_one,
  insert, create,
}
use real_estate_platform.Catalog.Slugs.{taken_in, is_taken-Asks, concat-Unique}
use real_estate_platform.Catalog.Projects.{nobody, one}
use real_estate_platform.Catalog.Consistency.{
  projects-concat, compounds, IsKeyed, IsConsistent, relations-ok, find_one-Keeps, insert-ok,
  last_steps,
}
use real_estate_platform.Catalog.Writes.{IsWritten, synced, finished, moved}

module _ (p : Platform) where
  inserted :
      (dto : CreateCompoundDto) (id slug : String) (w w' : World p) (c : Compound)
      → IsKeyed p
      → transaction (insert p dto id slug) w ≡ (ok c, w')
      → IsConsistent p w
      → IsWritten p (one dto.developer_id) w'
  unfolding new_compound
  inserted dto id slug w w' c keyed e h =
      let (new, rows, developers) = insert-ok p dto id slug w w' c keyed e in
      let row = new_compound dto id slug in
      moved p (one dto.developer_id) w w' (compounds p w ++ row ∷ []) rows developers
        (concat-Unique (λ c. c.id) (compounds p w) row h.ids new)
        (λ i b. projects-concat i (compounds p w) row b) h

  pub create-IsConsistent :
      (u : Unicode) (dto : CreateCompoundDto) (id : String) (fuel now : ℕ) (w w' : World p)
      (d : CompoundDetail)
      → IsKeyed p
      → create p u dto id fuel now w ≡ (ok d, w')
      → IsConsistent p w
      → IsConsistent p w'
  unfolding create
  create-IsConsistent u dto id fuel now w w' d keyed e h =
      let (x, w1, e1, rest1) = >>-ok (assert_relations_exist p _ _) _ w e in
      let (slug, w2, e2, rest2) = >>=-ok _ _ w1 rest1 in
      let (c, w3, e3, rest3) = >>=-ok (transaction (insert p dto id slug)) _ w2 rest2 in
      let (n, w4, e4, rest4) = >>-ok (sync_projects_count p dto.developer_id fuel now) _ w3 rest3 in
      let (_, same2) =
        build_unique_slug-IsFree (is_taken p.compounds (λ v. v.compounds) has_slug)
          (taken_in p.compounds (λ v. v.compounds) has_slug)
          (is_taken-Asks p.compounds (λ v. v.compounds) has_slug) u (or_else dto.slug dto.name)
          "compound" now w1 w2 slug e2 in
      let same = same2 ∙ relations-ok p _ _ w w1 e1 in
      finished p w4 w' (last_steps p fuel now (find_one p c.id) w4 w' (find_one-Keeps p c.id) rest4)
        (synced p dto.developer_id (one dto.developer_id) nobody fuel now w3 w4 e4 (λ i b k. k)
          (inserted dto id slug w2 w3 c keyed e3 (subst (IsConsistent p) (sym same) h)))
