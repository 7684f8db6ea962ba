-- ===== src/Table.antt =====
-- A table or collection behind its driver: a Prisma model delegate (Postgres) or a Mongoose model
-- (MongoDB). The drivers are not part of the repository, so a table is a parameter: the calls that
-- the services make, and what the drivers document of each call that answers.
pub mod Memory
pub mod Checks
use real_estate_platform.Base.{
  ℕ, Bool, not, List, [], ◌∷◌, ◌++◌, map, keep, find, length, Option, some, none, ◌≡◌,
  if◌then◌else◌,
}
use real_estate_platform.Exec.{Reply, answer}

-- `data: { … }` of the rows that the condition selects.
abbrev pub patch : {Row : Type 0} → (Row → Bool) → (Row → Row) → List Row → List Row
patch p f rs = map (λ r. if p r then f r else r) rs

abbrev pub changed : {Row : Type 0} → (Row → Row) → Option Row → Option Row
changed f none = none
changed f (some r) = some (f r)

pub record Table (Row : Type 0) : Type 1 where
  pub Db : Type 0
  -- The rows that the table holds, in the order in which a query answers them.
  pub rows : Db → List Row
  pub find_first : (Row → Bool) → Db → Reply (Option Row)
  pub find_many : (Row → Bool) → Db → Reply (List Row)
  pub count : (Row → Bool) → Db → Reply ℕ
  pub create : Row → Db → Reply (Row × Db)
  -- `update` throws where no row is selected; `update_many` and `delete_many` answer the number.
  pub update : (Row → Bool) → (Row → Row) → Db → Reply (Row × Db)
  pub update_many : (Row → Bool) → (Row → Row) → Db → Reply (ℕ × Db)
  -- `findOneAndUpdate` with `new: true`: the changed row, or none where no row is selected.
  pub find_one_and_update : (Row → Bool) → (Row → Row) → Db → Reply (Option Row × Db)
  pub delete_many : (Row → Bool) → Db → Reply (ℕ × Db)
  -- `delete` throws where no row is selected.
  pub delete : (Row → Bool) → Db → Reply (Row × Db)
  pub find_first_rows :
      (p : Row → Bool) (db : Db) (r : Option Row)
      → find_first p db ≡ answer r
      → r ≡ find p (rows db)
  pub find_many_rows :
      (p : Row → Bool) (db : Db) (rs : List Row)
      → find_many p db ≡ answer rs
      → rs ≡ keep p (rows db)
  pub count_rows :
      (p : Row → Bool) (db : Db) (n : ℕ) → count p db ≡ answer n → n ≡ length (keep p (rows db))
  pub create_rows :
      (r : Row) (db : Db) (a : Row × Db)
      → create r db ≡ answer a
      → (a.0 ≡ r) × (rows a.1 ≡ rows db ++ r ∷ [])
  pub update_rows :
      (p : Row → Bool) (f : Row → Row) (db : Db) (a : Row × Db)
      → update p f db ≡ answer a
      → ((r : Row) × (find p (rows db) ≡ some r) × (a.0 ≡ f r)) × (rows a.1 ≡ patch p f (rows db))
  pub update_many_rows :
      (p : Row → Bool) (f : Row → Row) (db : Db) (a : ℕ × Db)
      → update_many p f db ≡ answer a
      → (a.0 ≡ length (keep p (rows db))) × (rows a.1 ≡ patch p f (rows db))
  pub find_one_and_update_rows :
      (p : Row → Bool) (f : Row → Row) (db : Db) (a : Option Row × Db)
      → find_one_and_update p f db ≡ answer a
      → (a.0 ≡ changed f (find p (rows db))) × (rows a.1 ≡ patch p f (rows db))
  pub delete_many_rows :
      (p : Row → Bool) (db : Db) (a : ℕ × Db)
      → delete_many p db ≡ answer a
      → (a.0 ≡ length (keep p (rows db))) × (rows a.1 ≡ keep (λ r. not (p r)) (rows db))
  pub delete_rows :
      (p : Row → Bool) (db : Db) (a : Row × Db)
      → delete p db ≡ answer a
      → (find p (rows db) ≡ some a.0) × (rows a.1 ≡ keep (λ r. not (p r)) (rows db))
