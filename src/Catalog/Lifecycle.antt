-- ===== src/Catalog/Lifecycle.antt =====
-- Compounds are created, changed and removed in any order: the developers show the number of their
-- projects.
use real_estate_platform.Base.{ℕ, ◌≡◌, String}
use real_estate_platform.Exec.{ok}
use real_estate_platform.Platform.{Platform, World}
use real_estate_platform.Slug.{Unicode}
use real_estate_platform.Catalog.Compounds.{
  CreateCompoundDto, UpdateCompoundDto, CompoundDetail, create, update, remove,
}
use real_estate_platform.Catalog.Consistency.{IsKeyed, IsConsistent}
use real_estate_platform.Catalog.Creation.{create-IsConsistent}
use real_estate_platform.Catalog.Change.{update-IsConsistent}
use real_estate_platform.Catalog.Removal.{remove-IsConsistent}

module _ (p : Platform) (u : Unicode) where
  -- A call that succeeds.
  pub data Call : World p → World p → Type 0 where
    created :
        {w w' : World p} (dto : CreateCompoundDto) (id : String) (fuel now : ℕ) (d : CompoundDetail)
        → create p u dto id fuel now w ≡ (ok d, w')
        → Call w w'
    updated :
        {w w' : World p} (id : String) (dto : UpdateCompoundDto) (fuel now : ℕ) (d : CompoundDetail)
        → update p u id dto fuel now w ≡ (ok d, w')
        → Call w w'
    removed :
        {w w' : World p} (id answered : String) (fuel now : ℕ)
        → remove p id fuel now w ≡ (ok answered, w')
        → Call w w'

  pub data Calls (w : World p) : World p → Type 0 where
    none_yet : Calls w w
    next : {v v' : World p} → Calls w v → Call v v' → Calls w v'

  Call-IsConsistent :
      {w w' : World p} → IsKeyed p → Call w w' → IsConsistent p w → IsConsistent p w'
  Call-IsConsistent {w} {w'} keyed (created dto id fuel now d e) h =
      create-IsConsistent p u dto id fuel now w w' d keyed e h
  Call-IsConsistent {w} {w'} keyed (updated id dto fuel now d e) h =
      update-IsConsistent p u id dto fuel now w w' d e h
  Call-IsConsistent {w} {w'} keyed (removed id answered fuel now e) h =
      remove-IsConsistent p id answered fuel now w w' e h

  -- Where Postgres refuses a second compound with one identifier, no developer has the empty
  -- identifier, no two compounds have the same one, and each developer shows the number of its active
  -- compounds, that stays so however compounds are created, changed, moved to other developers and
  -- removed, by calls that succeed.
  pub Calls-IsConsistent :
      {w w' : World p} → IsKeyed p → Calls w w' → IsConsistent p w → IsConsistent p w'
  Calls-IsConsistent keyed none_yet h = h
  Calls-IsConsistent keyed (next calls call) h =
      Call-IsConsistent keyed call (Calls-IsConsistent keyed calls h)
