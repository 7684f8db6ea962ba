-- ===== src/Catalog/Counting.antt =====
-- Counting the rows that a test selects, when one row is changed or taken out.
use real_estate_platform.Base.{
  ◌≤◌, ◌≡◌, refl, Bool, false, not, List, [], ◌∷◌, some, keep, find, length, arith,
}
use real_estate_platform.Table.{patch}

module _ {Row : Type 0} (counted sel : Row → Bool) where
  patch_none :
      (f : Row → Row) (rows : List Row)
      → length (keep sel rows) ≤ 0
      → length (keep counted (patch sel f rows)) ≡ length (keep counted rows)
  patch_none f [] h = refl
  patch_none f (r ∷ rows) h = ground (arith, patch_none f rows)

  -- The one selected row is not counted, neither before nor after.
  pub length-keep-patch :
      (f : Row → Row) (rows : List Row) (c : Row)
      → length (keep sel rows) ≤ 1
      → find sel rows ≡ some c
      → counted c ≡ false
      → counted (f c) ≡ false
      → length (keep counted (patch sel f rows)) ≡ length (keep counted rows)
  length-keep-patch f [] c one h d e = refl
  length-keep-patch f (r ∷ rows) c one h d e =
      ground (arith, length-keep-patch f rows c, patch_none f rows)

  delete_none :
      (rows : List Row)
      → length (keep sel rows) ≤ 0
      → length (keep counted (keep (λ r. not (sel r)) rows)) ≡ length (keep counted rows)
  delete_none [] h = refl
  delete_none (r ∷ rows) h = ground (arith, delete_none rows)

  pub length-keep-delete :
      (rows : List Row) (c : Row)
      → length (keep sel rows) ≤ 1
      → find sel rows ≡ some c
      → counted c ≡ false
      → length (keep counted (keep (λ r. not (sel r)) rows)) ≡ length (keep counted rows)
  length-keep-delete [] c one h d = refl
  length-keep-delete (r ∷ rows) c one h d =
      ground (arith, length-keep-delete rows c, delete_none rows)
