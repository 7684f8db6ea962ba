-- ===== src/Catalog/Slugs.antt =====
-- The slugs and the unique identifiers of a table of the catalogue, whatever its rows are.
use real_estate_platform.Base.{
  ℕ, ◌+◌, ◌≤◌, ◌≡◌, refl, sym, ap, ◌∙◌, inl, inr, Bool, false, List, [], ◌∷◌, ◌++◌, Option, some,
  none, String, ◌==◌, eq_iff, any, keep, length, length-keep-concat, length-keep-keep-le,
  ltb-length-keep, Bool-cases, arith, if◌then◌else◌, ltb,
}
use real_estate_platform.Exec.{ok, ok-injective}
use real_estate_platform.Exec.Inversion.{>>=-ok, query-ok}
use real_estate_platform.Table.{Table, patch}
use real_estate_platform.Slug.{Unicode}
use real_estate_platform.Slug.Unique.{Asks, build_unique_slug-IsFree}
use real_estate_platform.Catalog.{is_taken, new_slug}

module _ {W Row : Type 0} (t : Table Row) (read : W → t.Db) (q : String → Row → Bool) where
  abbrev pub taken_in : String → W → Bool
  taken_in c w = any (q c) (t.rows (read w))

  pub is_taken-Asks : Asks (is_taken t read q) taken_in
  unfolding is_taken
  is_taken-Asks c w w' b e =
      let (n, w1, e1, rest) = >>=-ok _ _ w e in
      let (counted, kept) = query-ok _ w e1 in
      (
        sym (ok-injective (ap (λ r. r.0) rest))
            ∙ ap (λ m. ltb 0 m) (t.count_rows (q c) (read w) n counted)
            ∙ ltb-length-keep (q c) (t.rows (read w)),
        sym (ap (λ r. r.1) rest) ∙ kept,
      )

  pub new_slug-kept :
      (u : Unicode) (desired : Option String) (fallback : String) (now : ℕ) (w w' : W)
      {o : Option String}
      → new_slug (is_taken t read q) u desired fallback now w ≡ (ok o, w')
      → w' ≡ w
  unfolding new_slug
  new_slug-kept u none fallback now w w' e = sym (ap (λ r. r.1) e)
  new_slug-kept u (some desired) fallback now w w' e =
      let (s, w1, e1, rest) = >>=-ok _ _ w e in
      sym (ap (λ r. r.1) rest)
      ∙ (build_unique_slug-IsFree (is_taken t read q) taken_in is_taken-Asks u desired fallback now
          w w1 s e1).1

module _ {Row : Type 0} (key : Row → String) where
  abbrev pub count_key : String → List Row → ℕ
  count_key s rows = length (keep (λ r. key r == s) rows)

  -- No two rows have the same key.
  abbrev pub Unique : List Row → Type 0
  Unique rows = (s : String) → count_key s rows ≤ 1

  none_counted :
      (s : String) (rows : List Row) → any (λ r. key r == s) rows ≡ false → count_key s rows ≡ 0
  none_counted s [] h = refl
  none_counted s (r ∷ rows) h = ground (arith, none_counted s rows)

  pub concat-Unique :
      (rows : List Row) (r : Row)
      → Unique rows
      → any (λ x. key x == key r) rows ≡ false
      → Unique (rows ++ r ∷ [])
  concat-Unique rows r unique h s =
      let added = length-keep-concat (λ x. key x == s) rows r in
      elim (Bool-cases (key r == s)) [
        | inl same ↦
            let none_yet =
              none_counted s rows
                (ap (λ k. any (λ x. key x == k) rows) (sym ((eq_iff (key r) s).0 same)) ∙ h) in
            omega (arith, added ∙ ap (λ b. count_key s rows + (if b then 1 else 0)) same, none_yet)
        | inr differ ↦
            omega
              (arith, added ∙ ap (λ b. count_key s rows + (if b then 1 else 0)) differ, unique s)
      ]

  pub delete-Unique : (q : Row → Bool) (rows : List Row) → Unique rows → Unique (keep q rows)
  delete-Unique q rows unique s =
      omega (arith, length-keep-keep-le q (λ r. key r == s) rows, unique s)

  same_count :
      (sel : Row → Bool) (f : Row → Row) (s : String) (rows : List Row)
      → ((r : Row) → key (f r) ≡ key r)
      → count_key s (patch sel f rows) ≡ count_key s rows
  same_count sel f s [] h = refl
  same_count sel f s (r ∷ rows) h = ground (arith, h r, same_count sel f s rows h)

  pub patch-Unique_same :
      (sel : Row → Bool) (f : Row → Row) (rows : List Row)
      → ((r : Row) → key (f r) ≡ key r)
      → Unique rows
      → Unique (patch sel f rows)
  patch-Unique_same sel f rows h unique s = omega (arith, same_count sel f s rows h, unique s)
