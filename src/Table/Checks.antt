-- ===== src/Table/Checks.antt =====
-- `if ((await table.count({ where })) === 0) throw …`, the check that the services share.
use real_estate_platform.Base.{◌≡◌, ◌∙◌, sym, ap, Bool, true, any, ◌=?◌, any_of_counted, inl, inr}
use real_estate_platform.Errors.{Thrown}
use real_estate_platform.Exec.{Exec, ok, err, query, throw_if, ◌>>=◌}
use real_estate_platform.Exec.Inversion.{
  >>=-ok, >>=-err, query-ok, query-err, throw_if-ok, throw_if-err,
}
use real_estate_platform.Table.{Table}

module _ {W Row : Type 0} (t : Table Row) (read : W → t.Db) (p : Row → Bool)
    (missing : Thrown) where
  unfoldable pub require : Exec W (Unit {0})
  require = do n ← query (λ w. t.count p (read w)); throw_if (n =? 0) missing

  pub require-ok :
      (w w' : W) → require w ≡ (ok tt, w') → (any p (t.rows (read w)) ≡ true) × (w' ≡ w)
  unfolding require
  require-ok w w' e =
      let (n, w1, asked, rest) = >>=-ok _ _ w e in
      let (replied, same) = query-ok _ w asked in
      let (found, same') = throw_if-ok _ _ w1 rest in
      let counted = t.count_rows p (read w) n replied in
      (any_of_counted p _ (ap (λ k. k =? 0) (sym counted) ∙ found), same' ∙ same)

  pub require-err : (w w' : W) {x : Thrown} → require w ≡ (err x, w') → w' ≡ w
  unfolding require
  require-err w w' e = elim (>>=-err _ _ w e) [
    | inl refused ↦ query-err _ w refused
    | inr (n, w1, asked, rest) ↦ (throw_if-err _ _ w1 rest).1 ∙ (query-ok _ w asked).1
  ]
