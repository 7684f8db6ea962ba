-- ===== src/Catalog/Change.antt =====
-- A compound is changed, and moved to another developer.
use real_estate_platform.Base.{
  ℕ, ◌≡◌, refl, sym, ap, ◌∙◌, subst, Bool, false, ◌||◌, Option, some, none, String, ◌==◌, eq_iff,
  find, or_else, given, Bool-cases, inl, inr, arith,
}
use real_estate_platform.Exec.{ok, or_throw, transaction}
use real_estate_platform.Exec.Inversion.{>>=-ok, >>-ok, query-ok, or_throw-ok}
use real_estate_platform.Schema.{Compound}
use real_estate_platform.Table.{patch}
use real_estate_platform.Platform.{Platform, World}
use real_estate_platform.Slug.{Unicode}
use real_estate_platform.Catalog.{is_compound}
use real_estate_platform.Catalog.Developers.{is_active_of, sync_projects_count}
use real_estate_platform.Catalog.Compounds.{
  UpdateCompoundDto, CompoundDetail, apply_compound, has_slug_elsewhere, assert_relations_exist,
  find_one, write, sync_previous, update, compound_missing,
}
use real_estate_platform.Catalog.Slugs.{new_slug-kept, patch-Unique_same}
use real_estate_platform.Catalog.Counting.{length-keep-patch}
use real_estate_platform.Catalog.Projects.{nobody, one, developers, has_unnamed, sync-named}
use real_estate_platform.Catalog.Consistency.{
  other_developer, compounds, IsConsistent, relations-ok, find_one-Keeps, write-ok, last_steps,
}
use real_estate_platform.Catalog.Writes.{IsWritten, synced, finished, moved}

module _ (p : Platform) where
  abbrev either : String → String → String → Bool
  either x y id = id == x || id == y

  chosen : (o : Option String) (old : String) → or_else o old ≡ or_else o old
  chosen none old = refl
  chosen (some d) old = refl

  written :
      (id : String) (slug : Option String) (dto : UpdateCompoundDto) (old : Compound)
      (w w' : World p) {x : Unit {0}}
      → transaction (write p id slug dto) w ≡ (ok x, w')
      → find (is_compound id) (compounds p w) ≡ some old
      → IsConsistent p w
      → IsWritten p (either old.developer_id (or_else dto.developer_id old.developer_id)) w'
  unfolding apply_compound
  written id slug dto old w w' e found h =
      let (rows, developers) = write-ok p id slug dto w w' e in
      let f = apply_compound slug dto in
      let next = or_else dto.developer_id old.developer_id in
      moved p (either old.developer_id next) w w' (patch (is_compound id) f (compounds p w)) rows
        developers
        (patch-Unique_same (λ c. c.id) (is_compound id) f (compounds p w) (λ c. refl) h.ids)
        (λ i b.
          length-keep-patch (is_active_of i) (is_compound id) f (compounds p w) old (h.ids id) found
            (other_developer i old (ground arith))
            (other_developer i (f old)
              (ap (λ d. i == d) (chosen dto.developer_id old.developer_id) ∙ ground arith)))
        h

  -- A developer that was synchronised is not the empty text.
  given_full :
      (d : String) (fuel now : ℕ) (w w' : World p) {n : ℕ}
      → sync_projects_count p d fuel now w ≡ (ok n, w')
      → has_unnamed (developers p w) ≡ false
      → given (some d) ≡ some d
  given_full d fuel now w w' e named = elim (Bool-cases (d == "")) [
    | inl empty ↦
        let e0 = ap (λ x. sync_projects_count p x fuel now w) (sym ((eq_iff d "").0 empty)) ∙ e in
        absurd (sync-named p fuel now w w' e0 named)
    | inr full ↦ rw full refl
  ]

  -- The developer that the compound has now, then the one that it had, if that is another.
  both_synced :
      (o : Option String) (old : String) (fuel now : ℕ) (w w1 w2 : World p) {n m : ℕ}
      → sync_projects_count p (or_else o old) fuel now w ≡ (ok n, w1)
      → sync_previous p (given o) old fuel now w1 ≡ (ok m, w2)
      → IsWritten p (either old (or_else o old)) w
      → IsWritten p nobody w2
  unfolding sync_previous
  both_synced none old fuel now w w1 w2 e1 e2 h =
      subst (IsWritten p nobody) (ap (λ r. r.1) e2)
        (synced p old (either old old) nobody fuel now w w1 e1 (λ i b k. rw k refl) h)
  both_synced (some d) old fuel now w w1 w2 e1 e2 h =
      let e3 =
        ap (λ o. sync_previous p o old fuel now w1) (sym (given_full d fuel now w w1 e1 h.named))
        ∙ e2 in
      elim (Bool-cases (d == old)) [
        | inl same ↦ subst (IsWritten p nobody) (ap (λ r. r.1) (rw same at e3)) (
            synced p d (either old d) nobody fuel now w w1 e1
              (λ i b k. ap (λ x. (i == x) || (i == d)) (sym ((eq_iff d old).0 same)) ∙ rw k refl) h)
        | inr differ ↦
            synced p old (one old) nobody fuel now w1 w2 (rw differ at e3) (λ i b k. k)
              (synced p d (either old d) (one old) fuel now w w1 e1 (λ i b k. ground arith) h)
      ]

  pub update-IsConsistent :
      (u : Unicode) (id : String) (dto : UpdateCompoundDto) (fuel now : ℕ) (w w' : World p)
      (d : CompoundDetail)
      → update p u id dto fuel now w ≡ (ok d, w')
      → IsConsistent p w
      → IsConsistent p w'
  unfolding update
  update-IsConsistent u id dto fuel now w w' d e h =
      let (found, w1, e1, rest1) = >>=-ok _ _ w e in
      let (old, w2, e2, rest2) = >>=-ok (or_throw found (compound_missing id)) _ w1 rest1 in
      let (x, w3, e3, rest3) = >>-ok (assert_relations_exist p _ _) _ w2 rest2 in
      let (slug, w4, e4, rest4) = >>=-ok _ _ w3 rest3 in
      let (y, w5, e5, rest5) = >>-ok (transaction (write p id slug dto)) _ w4 rest4 in
      let (n, w6, e6, rest6) = >>-ok (sync_projects_count p _ fuel now) _ w5 rest5 in
      let (m, w7, e7, rest7) = >>-ok (sync_previous p _ old.developer_id fuel now) _ w6 rest6 in
      let (asked, kept1) = query-ok _ w e1 in
      let (is_found, kept2) = or_throw-ok _ _ w1 e2 in
      let same3 = relations-ok p _ _ w2 w3 e3 ∙ kept2 ∙ kept1 in
      let same4 =
        new_slug-kept p.compounds (λ v. v.compounds) (has_slug_elsewhere id) u _ "compound" now w3
          w4 e4
        ∙ same3 in
      let listed = sym (p.compounds.find_first_rows _ w.compounds found asked) ∙ is_found in
      finished p w7 w' (last_steps p fuel now (find_one p id) w7 w' (find_one-Keeps p id) rest7) (
        both_synced dto.developer_id old.developer_id fuel now w5 w6 w7 e6 e7 (
          written id slug dto old w4 w5 e5
            (ap (λ v. find (is_compound id) (compounds p v)) same4 ∙ listed)
            (subst (IsConsistent p) (sym same4) h)))
