-- ===== src/Catalog/Writes.antt =====
-- A change of the compounds, before the developers concerned have been synchronised.
use real_estate_platform.Base.{ℕ, ◌≡◌, refl, sym, ap, ◌∙◌, subst, Bool, false, List, String, ◌==◌}
use real_estate_platform.Exec.{ok}
use real_estate_platform.Schema.{Compound}
use real_estate_platform.Platform.{Platform, World}
use real_estate_platform.Catalog.Developers.{sync_projects_count}
use real_estate_platform.Catalog.Slugs.{Unique}
use real_estate_platform.Catalog.Projects.{
  projects, developers, has_unnamed, InStep, InStepBut, nobody, both, move_rows, kept-InStep,
  sync-InStep, sync-compounds, sync-developers,
}
use real_estate_platform.Catalog.Consistency.{compounds, IsConsistent}

module _ (p : Platform) where
  -- The compounds are as they should be, and the developers too once those excepted have been
  -- synchronised.
  pub record IsWritten (except : String → Bool) (w : World p) : Type 0 where
    pub named : has_unnamed (developers p w) ≡ false
    pub ids : Unique (λ c. c.id) (compounds p w)
    pub in_step : InStep p except w

  pub synced :
      (x : String) (except but : String → Bool) (fuel now : ℕ) (w w' : World p) {n : ℕ}
      → sync_projects_count p x fuel now w ≡ (ok n, w')
      → ((i : String) → but i ≡ false → (i == x) ≡ false → except i ≡ false)
      → IsWritten except w
      → IsWritten but w'
  synced x except but fuel now w w' e sub h =
      let same = sym (ap (λ r. r.1.compounds) e) ∙ sync-compounds p x fuel now w in
      record {
        named = (sync-developers p x fuel now w w' e).1 ∙ h.named;
        ids = subst (λ c. Unique (λ r. r.id) (p.compounds.rows c)) (sym same) h.ids;
        in_step = sync-InStep p x except but fuel now w w' e sub h.in_step;
      }

  pub finished : (w w' : World p) → both p w' ≡ both p w → IsWritten nobody w → IsConsistent p w'
  finished w w' same h = record {
    named = ap (λ b. has_unnamed (p.developers.rows b.0)) same ∙ h.named;
    ids = subst (λ b. Unique (λ r. r.id) (p.compounds.rows b.1)) (sym same) h.ids;
    in_step = kept-InStep p nobody w w' same h.in_step;
  }

  -- New rows of compounds, and the developers as they were.
  pub moved :
      (but : String → Bool) (w w' : World p) (cs : List Compound)
      → compounds p w' ≡ cs
      → w'.developers ≡ w.developers
      → Unique (λ c. c.id) cs
      → ((i : String) → but i ≡ false → projects i cs ≡ projects i (compounds p w))
      → IsConsistent p w
      → IsWritten but w'
  moved but w w' cs rows developers_kept ids same h = record {
    named = ap (λ d. has_unnamed (p.developers.rows d)) developers_kept ∙ h.named;
    ids = subst (Unique (λ c. c.id)) (sym rows) ids;
    in_step =
        subst (λ r. InStepBut but r (p.developers.rows w'.developers)) (sym rows)
          (subst (λ d. InStepBut but cs (p.developers.rows d)) (sym developers_kept)
            (move_rows nobody but (compounds p w) cs (p.developers.rows w.developers)
              (λ i b. (refl, same i b)) h.in_step));
  }
