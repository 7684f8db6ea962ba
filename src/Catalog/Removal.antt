-- ===== src/Catalog/Removal.antt =====
-- A compound is deleted, or deactivated while listings point to it.
use real_estate_platform.Base.{
  ℕ, ◌≡◌, refl, sym, ap, ◌∙◌, subst, Bool, true, false, not, some, String, keep, find,
}
use real_estate_platform.Exec.{ok, pure, or_throw}
use real_estate_platform.Exec.Inversion.{>>=-ok, >>-ok, query-ok, store-ok, or_throw-ok}
use real_estate_platform.Schema.{Compound}
use real_estate_platform.Table.{patch}
use real_estate_platform.Platform.{Platform, World}
use real_estate_platform.Catalog.{is_compound}
use real_estate_platform.Catalog.Developers.{is_active_of, sync_projects_count}
use real_estate_platform.Catalog.Compounds.{deactivate_or_delete, remove, compound_missing}
use real_estate_platform.Catalog.Slugs.{delete-Unique, patch-Unique_same}
use real_estate_platform.Catalog.Counting.{length-keep-patch, length-keep-delete}
use real_estate_platform.Catalog.Projects.{nobody, one}
use real_estate_platform.Catalog.Consistency.{other_developer, compounds, IsConsistent, last_steps}
use real_estate_platform.Catalog.Writes.{IsWritten, synced, finished, moved}

module _ (p : Platform) where
  taken_away :
      (b : Bool) (id : String) (old c : Compound) (w w' : World p)
      → deactivate_or_delete p b id w ≡ (ok c, w')
      → find (is_compound id) (compounds p w) ≡ some old
      → IsConsistent p w
      → IsWritten p (one old.developer_id) w'
  unfolding deactivate_or_delete
  taken_away true id old c w w' e found h =
      let (db, updated, written) = store-ok _ _ _ w e in
      let f = λ (r : Compound). record r { is_active = false } in
      moved p (one old.developer_id) w w' (patch (is_compound id) f (compounds p w))
        (ap (compounds p) written ∙ (p.compounds.update_rows _ _ w.compounds (c, db) updated).1)
        (ap (λ v. v.developers) written)
        (patch-Unique_same (λ r. r.id) (is_compound id) f (compounds p w) (λ r. refl) h.ids)
        (λ i b.
          length-keep-patch (is_active_of i) (is_compound id) f (compounds p w) old (h.ids id) found
            (other_developer i old b) (other_developer i (f old) b))
        h
  taken_away false id old c w w' e found h =
      let (db, deleted, written) = store-ok _ _ _ w e in
      let rest = keep (λ r. not (is_compound id r)) (compounds p w) in
      moved p (one old.developer_id) w w' rest
        (ap (compounds p) written ∙ (p.compounds.delete_rows _ w.compounds (c, db) deleted).1)
        (ap (λ v. v.developers) written) (delete-Unique (λ r. r.id) _ (compounds p w) h.ids)
        (λ i b.
          length-keep-delete (is_active_of i) (is_compound id) (compounds p w) old (h.ids id) found
            (other_developer i old b))
        h

  pub remove-IsConsistent :
      (id answered : String) (fuel now : ℕ) (w w' : World p)
      → remove p id fuel now w ≡ (ok answered, w')
      → IsConsistent p w
      → IsConsistent p w'
  unfolding remove
  remove-IsConsistent id answered fuel now w w' e h =
      let (found, w1, e1, rest1) = >>=-ok _ _ w e in
      let (old, w2, e2, rest2) = >>=-ok (or_throw found (compound_missing id)) _ w1 rest1 in
      let (n, w3, e3, rest3) = >>=-ok _ _ w2 rest2 in
      let (c, w4, e4, rest4) = >>-ok (deactivate_or_delete p _ id) _ w3 rest3 in
      let (m, w5, e5, rest5) = >>-ok (sync_projects_count p _ fuel now) _ w4 rest4 in
      let (asked, kept1) = query-ok _ w e1 in
      let (is_found, kept2) = or_throw-ok _ _ w1 e2 in
      let same = (query-ok _ w2 e3).1 ∙ kept2 ∙ kept1 in
      let listed = sym (p.compounds.find_first_rows _ w.compounds found asked) ∙ is_found in
      finished p w5 w' (last_steps p fuel now (pure id) w5 w' (λ v. refl) rest5) (
        synced p old.developer_id (one old.developer_id) nobody fuel now w4 w5 e5 (λ i b k. k)
          (taken_away _ id old c w3 w4 e4
            (ap (λ v. find (is_compound id) (compounds p v)) same ∙ listed)
            (subst (IsConsistent p) (sym same) h)))
