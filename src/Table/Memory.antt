-- ===== src/Table/Memory.antt =====
-- A table held in memory that always answers: it meets what `Table` states of a driver.
use real_estate_platform.Base.{
  Bool, true, false, not, String, ◌==◌, any, List, [], ◌∷◌, ◌++◌, keep, find, length, Option, some,
  none, ◌≡◌, refl, sym, ap, arith,
}
use real_estate_platform.Exec.{Reply, answer, failed, answer-injective}
use real_estate_platform.Table.{Table, patch, changed}

abbrev pub update_first :
    {Row : Type 0} → (Row → Bool) → (Row → Row) → List Row → Option Row → Reply (Row × List Row)
update_first p f rs none = failed "P2025"
update_first p f rs (some r) = answer (f r, patch p f rs)

pub update_first-rows :
    {Row : Type 0} (p : Row → Bool) (f : Row → Row) (rs : List Row) (o : Option Row)
    (a : Row × List Row)
    → update_first p f rs o ≡ answer a
    → ((r : Row) × (o ≡ some r) × (a.0 ≡ f r)) × (a.1 ≡ patch p f rs)
update_first-rows p f rs none a e = absurd (ground arith)
update_first-rows p f rs (some r) a e = ((r, refl, ground arith), ground arith)

abbrev pub delete_first :
    {Row : Type 0} → (Row → Bool) → List Row → Option Row → Reply (Row × List Row)
delete_first p rs none = failed "P2025"
delete_first p rs (some r) = answer (r, keep (λ r. not (p r)) rs)

pub delete_first-rows :
    {Row : Type 0} (p : Row → Bool) (rs : List Row) (o : Option Row) (a : Row × List Row)
    → delete_first p rs o ≡ answer a
    → (o ≡ some a.0) × (a.1 ≡ keep (λ r. not (p r)) rs)
delete_first-rows p rs none a e = absurd (ground arith)
delete_first-rows p rs (some r) a e = (ground arith, ground arith)

abbrev pub memory : (Row : Type 0) → Table Row
memory Row = record {
  Db = List Row;
  rows = λ rs. rs;
  find_first = λ p rs. answer (find p rs);
  find_many = λ p rs. answer (keep p rs);
  count = λ p rs. answer (length (keep p rs));
  create = λ r rs. answer (r, rs ++ r ∷ []);
  update = λ p f rs. update_first p f rs (find p rs);
  update_many = λ p f rs. answer (length (keep p rs), patch p f rs);
  find_one_and_update = λ p f rs. answer (changed f (find p rs), patch p f rs);
  delete_many = λ p rs. answer (length (keep p rs), keep (λ r. not (p r)) rs);
  delete = λ p rs. delete_first p rs (find p rs);
  find_first_rows = λ p rs r e. sym (answer-injective e);
  find_many_rows = λ p rs r e. sym (answer-injective e);
  count_rows = λ p rs r e. sym (answer-injective e);
  create_rows = λ r rs a e.
      (ap (λ t. t.0) (sym (answer-injective e)), ap (λ t. t.1) (sym (answer-injective e)));
  update_rows = λ p f rs a e. update_first-rows p f rs (find p rs) a e;
  update_many_rows = λ p f rs a e.
      (ap (λ t. t.0) (sym (answer-injective e)), ap (λ t. t.1) (sym (answer-injective e)));
  find_one_and_update_rows = λ p f rs a e.
      (ap (λ t. t.0) (sym (answer-injective e)), ap (λ t. t.1) (sym (answer-injective e)));
  delete_many_rows = λ p rs a e.
      (ap (λ t. t.0) (sym (answer-injective e)), ap (λ t. t.1) (sym (answer-injective e)));
  delete_rows = λ p rs a e. delete_first-rows p rs (find p rs) a e;
}

-- A table with a primary key refuses a second row with one key.
abbrev pub create_new : {Row : Type 0} → Bool → Row → List Row → Reply (Row × List Row)
create_new true r rs = failed "P2002"
create_new false r rs = answer (r, rs ++ r ∷ [])

pub create_new-rows :
    {Row : Type 0} (b : Bool) (r : Row) (rs : List Row) (a : Row × List Row)
    → create_new b r rs ≡ answer a
    → (b ≡ false) × ((a.0 ≡ r) × (a.1 ≡ rs ++ r ∷ []))
create_new-rows true r rs a e = absurd (ground arith)
create_new-rows false r rs a e = (refl, (ground arith, ground arith))

abbrev pub keyed : (Row : Type 0) → (Row → String) → Table Row
keyed Row key = record (memory Row) {
  create = λ r rs. create_new (any (λ x. key x == key r) rs) r rs;
  create_rows = λ r rs a e. (create_new-rows (any (λ x. key x == key r) rs) r rs a e).1;
}
