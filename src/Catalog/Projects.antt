-- ===== src/Catalog/Projects.antt =====
-- The number of projects that a developer shows is the number of active compounds of the developer.
use real_estate_platform.Base.{
  ℕ, ◌≡◌, refl, sym, ap, ◌∙◌, subst, inl, inr, Bool, true, false, List, [], ◌∷◌, some, any, find,
  arith, String, ◌==◌, eq_iff, All, keep, length, Bool-cases,
}
use real_estate_platform.Exec.{ok, answer}
use real_estate_platform.Exec.Inversion.{>>=-ok, >>-ok, query-ok, store-ok}
use real_estate_platform.Exec.Frames.{
  Keeps, >>=-Keeps, >>-Keeps, query-Keeps, store-Keeps, change-Keeps,
}
use real_estate_platform.Schema.{Developer, Compound}
use real_estate_platform.Table.{patch}
use real_estate_platform.Platform.{Platform, World}
use real_estate_platform.Catalog.{is_developer, on_developers, invalidate}
use real_estate_platform.Catalog.Developers.{is_active_of, set_projects_count, sync_projects_count}

abbrev pub projects : String → List Compound → ℕ
projects id cs = length (keep (is_active_of id) cs)

-- The developers that the test does not except show the number of their projects.
abbrev pub InStepBut : (String → Bool) → List Compound → List Developer → Type 0
InStepBut except cs ds = All (λ d. except d.id ≡ false → d.projects_count ≡ projects d.id cs) ds

abbrev pub nobody : String → Bool
nobody id = false

abbrev pub one : String → String → Bool
one x id = id == x

sync_rows :
    (x : String) (except but : String → Bool) (cs : List Compound) (ds : List Developer)
    → ((i : String) → but i ≡ false → (i == x) ≡ false → except i ≡ false)
    → InStepBut except cs ds
    → InStepBut but cs (patch (is_developer x) (set_projects_count (projects x cs)) ds)
sync_rows x except but cs [] sub h = tt
sync_rows x except but cs (d ∷ ds) sub h = (
  elim (Bool-cases (d.id == x)) [
    | inl same ↦ λ e. rw same (ap (λ i. projects i cs) (sym ((eq_iff d.id x).0 same)))
    | inr differ ↦ rw differ (λ e. h.0 (sub d.id e differ))
  ],
  sync_rows x except but cs ds sub h.1,
)

-- A change of the compounds that leaves the projects of all but the excepted as they were.
pub move_rows :
    (except but : String → Bool) (cs cs' : List Compound) (ds : List Developer)
    → ((i : String) → but i ≡ false → (except i ≡ false) × (projects i cs' ≡ projects i cs))
    → InStepBut except cs ds
    → InStepBut but cs' ds
move_rows except but cs cs' [] same h = tt
move_rows except but cs cs' (d ∷ ds) same h =
    (λ e. h.0 (same d.id e).0 ∙ sym (same d.id e).1, move_rows except but cs cs' ds same h.1)

-- A developer has the empty identifier.
abbrev pub has_unnamed : List Developer → Bool
has_unnamed ds = any (is_developer "") ds

has_unnamed-patch :
    (x : String) (n : ℕ) (ds : List Developer)
    → has_unnamed (patch (is_developer x) (set_projects_count n) ds) ≡ has_unnamed ds
has_unnamed-patch x n [] = refl
has_unnamed-patch x n (d ∷ ds) = ground (arith, has_unnamed-patch x n ds)

named_if_found :
    (ds : List Developer) (d : Developer)
    → find (is_developer "") ds ≡ some d
    → has_unnamed ds ≡ true
named_if_found [] d h = absurd (ground arith)
named_if_found (e ∷ ds) d h = ground (arith, named_if_found ds d)

module _ (p : Platform) where
  abbrev pub developers : World p → List Developer
  developers w = p.developers.rows w.developers

  abbrev pub InStep : (String → Bool) → World p → Type 0
  InStep except w = InStepBut except (p.compounds.rows w.compounds) (p.developers.rows w.developers)

  abbrev pub both : World p → p.developers.Db × p.compounds.Db
  both w = (w.developers, w.compounds)

  pub invalidate-both : (fuel now : ℕ) → Keeps both (invalidate p fuel now)
  unfolding invalidate
  invalidate-both fuel now = change-Keeps _ _ _ _ (λ w d. refl)

  pub sync-compounds :
      (x : String) (fuel now : ℕ) → Keeps (λ w. w.compounds) (sync_projects_count p x fuel now)
  unfolding sync_projects_count
  sync-compounds x fuel now = >>=-Keeps _ _ _ (query-Keeps _ _) (λ n.
      >>-Keeps _ _ _ (store-Keeps _ _ _ _ (λ w d. refl))
        (λ w. ap (λ b. b.1) (invalidate-both fuel now w)))

  -- A step that keeps both tables keeps the numbers in step.
  pub kept-InStep :
      (except : String → Bool) (w w' : World p)
      → both w' ≡ both w
      → InStep except w
      → InStep except w'
  kept-InStep except w w' e h =
      subst (λ b. InStepBut except (p.compounds.rows b.1) (p.developers.rows b.0)) (sym e) h

  written-InStep :
      (x : String) (except but : String → Bool) (w w' : World p) (n : ℕ) (d : Developer)
      (db : p.developers.Db)
      → p.developers.update (is_developer x) (set_projects_count n) w.developers ≡ answer (d, db)
      → n ≡ projects x (p.compounds.rows w.compounds)
      → w' ≡ record w { developers = db }
      → ((i : String) → but i ≡ false → (i == x) ≡ false → except i ≡ false)
      → InStep except w
      → InStep but w'
  written-InStep x except but w w' n d db updated number written sub h =
      let cs = p.compounds.rows w.compounds in
      let rows =
        (p.developers.update_rows _ _ w.developers (d, db) updated).1
        ∙ ap (λ m. patch (is_developer x) (set_projects_count m) (p.developers.rows w.developers))
            number in
      kept-InStep but (record w { developers = db }) w' (ap both written)
        (subst (InStepBut but cs) (sym rows)
          (sync_rows x except but cs (p.developers.rows w.developers) sub h))

  -- After the synchronisation of a developer that answers, the developer is in step too.
  pub sync-InStep :
      (x : String) (except but : String → Bool) (fuel now : ℕ) (w w' : World p) {n : ℕ}
      → sync_projects_count p x fuel now w ≡ (ok n, w')
      → ((i : String) → but i ≡ false → (i == x) ≡ false → except i ≡ false)
      → InStep except w
      → InStep but w'
  unfolding sync_projects_count
  sync-InStep x except but fuel now w w' e sub h =
      let (n, w1, e1, rest1) = >>=-ok _ _ w e in
      let (d, w2, e2, rest2) = >>-ok (on_developers p _) (invalidate p fuel now) w1 rest1 in
      let (counted, kept1) = query-ok _ w e1 in
      let (db, updated, written) = store-ok _ _ _ w1 e2 in
      let number =
        p.compounds.count_rows _ w.compounds n counted
        ∙ ap (λ v. projects x (p.compounds.rows v.compounds)) (sym kept1) in
      let last : both w' ≡ both w2 = sym (ap (λ r. both r.1) rest2) ∙ invalidate-both fuel now w2 in
      kept-InStep but w2 w' last (
        written-InStep x except but w1 w2 n d db updated number written sub
          (kept-InStep except w w1 (ap both kept1) h))

  -- A synchronisation that answers has found its developer and changes no identifier.
  pub sync-developers :
      (x : String) (fuel now : ℕ) (w w' : World p) {n : ℕ}
      → sync_projects_count p x fuel now w ≡ (ok n, w')
      → ((d : Developer) × (find (is_developer x) (developers w) ≡ some d))
        × (has_unnamed (developers w') ≡ has_unnamed (developers w))
  unfolding sync_projects_count
  sync-developers x fuel now w w' e =
      let (n, w1, e1, rest1) = >>=-ok _ _ w e in
      let (d, w2, e2, rest2) = >>-ok (on_developers p _) (invalidate p fuel now) w1 rest1 in
      let (counted, kept1) = query-ok _ w e1 in
      let (db, updated, written) = store-ok _ _ _ w1 e2 in
      let ((old, found, _), rows) = p.developers.update_rows _ _ w1.developers (d, db) updated in
      let last : both w' ≡ both w2 = sym (ap (λ r. both r.1) rest2) ∙ invalidate-both fuel now w2 in
      (
        (old, ap (λ v. find (is_developer x) (developers v)) (sym kept1) ∙ found),
        ap (λ b. has_unnamed (p.developers.rows b.0)) last
            ∙ ap (λ v. has_unnamed (developers v)) written
            ∙ ap has_unnamed rows
            ∙ has_unnamed-patch x n (developers w1)
            ∙ ap (λ v. has_unnamed (developers v)) kept1,
      )

  -- A developer with the empty identifier cannot be synchronised where there is none.
  pub sync-named :
      (fuel now : ℕ) (w w' : World p) {n : ℕ}
      → sync_projects_count p "" fuel now w ≡ (ok n, w')
      → ¬ (has_unnamed (developers w) ≡ false)
  sync-named fuel now w w' e h =
      let ((d, found), _) = sync-developers "" fuel now w w' e in
      let there = named_if_found (developers w) d found in ground arith
