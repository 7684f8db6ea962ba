-- ===== src/Favorites/Refinement.antt =====
-- apps/api-core/src/modules/favorites: `add` and `remove` beside the set of pairs that callers see.
use real_estate_platform.Base.{
  ℕ, ◌≡◌, refl, sym, ap, ◌∙◌, subst, Bool, true, false, not, String, List, [], ◌∷◌, keep, inl, inr,
  Bool-cases, ltb, ltb-length-keep, map, length, ◌=?◌, not_none-length,
}
use real_estate_platform.Base.Int.{ℤ, pos, negsuc}
use real_estate_platform.Exec.{Exec, Result, ok, pure, ◌>>◌}
use real_estate_platform.Exec.Inversion.{
  >>=-cases, >>-cases, query-ok, query-err, store-ok, store-err, ok-not_err,
}
use real_estate_platform.Table.Checks.{require-ok, require-err}
use real_estate_platform.Platform.{Platform, World}
use real_estate_platform.Properties.{adjust_favorite_count}
use real_estate_platform.Properties.Counters.{adjust_favorite_count-run}
use real_estate_platform.Favorites.{is_favorite, save, add_unless, add, uncount, remove}
use real_estate_platform.Favorites.SavedSet.{
  Call, adds, removes, Saved, Allowed, done, Simulates, extend, view, view-append, with_pair-there,
  view-keep,
}

module _ (p : Platform) where
  abbrev pub saved_in : World p → Saved
  saved_in w = view (p.favorites.rows w.favorites)

  -- A call at a time.
  unfoldable pub handle : Call → ℕ → Exec (World p) Bool
  handle (adds u i) now = add p u i now
  handle (removes u i) now = remove p u i now

  unfoldable pub serve : List (Call × ℕ) → World p → List (Result Bool) × World p
  serve [] w = ([], w)
  serve ((c, now) ∷ cs) w =
      let (r, w1) = handle c now w in let (rs, w2) = serve cs w1 in (r ∷ rs, w2)

  counted_after :
      (i : String) (now : ℕ) (w : World p) {r : Result Bool} {w' : World p}
      → (delta : ℤ) → (adjust_favorite_count p i delta now >> pure true) w ≡ (r, w')
      → (r ≡ ok true) × (w'.favorites ≡ w.favorites)
  counted_after i now w delta e = elim (>>-cases _ _ w e) [
    | inl (x, thrown, same) ↦
        let (n, run) = adjust_favorite_count-run p i now w delta in
        absurd (ok-not_err (ap (λ t. t.0) (sym run ∙ thrown)))
    | inr (m, w1, ran, rest) ↦
        let (n, run) = adjust_favorite_count-run p i now w delta in
        (
          sym (ap (λ t. t.0) rest),
          ap (λ t. t.1.favorites) (sym rest) ∙ ap (λ t. t.1.favorites) (sym ran ∙ run),
        )
  ]

  -- A step that leaves the rows, and what is seen of them, as they were.
  seen : {w w' : World p} → w' ≡ w → saved_in w' ≡ saved_in w
  seen e = ap saved_in e

  add_unless-Simulates :
      (t : Bool) (u i : String) (now : ℕ) (w : World p) {r : Result Bool} {w' : World p}
      → add_unless p t u i now w ≡ (r, w')
      → saved_in w u i ≡ t
      → Simulates (adds u i) r (saved_in w) (saved_in w')
  unfolding add_unless save
  add_unless-Simulates true u i now w e there =
      subst (λ o. Simulates (adds u i) o.0 (saved_in w) (saved_in o.1)) e
        (ap not (sym there), with_pair-there u i (saved_in w) there)
  add_unless-Simulates false u i now w {r} {w'} e missing = elim (>>-cases _ _ w e) [
    | inl (x, thrown, is_err) ↦
        subst (λ o. Simulates (adds u i) o (saved_in w) (saved_in w')) (sym is_err)
          (seen (store-err _ _ _ w thrown))
    | inr (f, w1, stored, rest) ↦
        let (db, replied, written) = store-ok _ _ _ w stored in
        let (is_ok, kept) = counted_after i now w1 (pos 1) rest in
        let created = p.favorites.create_rows _ w.favorites (f, db) replied in
        subst (λ o. Simulates (adds u i) o (saved_in w) (saved_in w')) (sym is_ok)
          (
            ap not (sym missing),
            ap (λ d. view (p.favorites.rows d)) kept
                ∙ ap saved_in written
                ∙ ap view created.1
                ∙ view-append u i now (p.favorites.rows w.favorites),
          )
  ]

  add-Simulates :
      (u i : String) (now : ℕ) (w : World p) {r : Result Bool} {w' : World p}
      → add p u i now w ≡ (r, w')
      → Simulates (adds u i) r (saved_in w) (saved_in w')
  unfolding add
  add-Simulates u i now w {r} {w'} e = elim (>>-cases _ _ w e) [
    | inl (x, thrown, is_err) ↦
        subst (λ o. Simulates (adds u i) o (saved_in w) (saved_in w')) (sym is_err)
          (seen (require-err _ _ _ _ w w' thrown))
    | inr (tt, w1, checked, rest) ↦
        let (live, same1) = require-ok _ _ _ _ w w1 checked in
        elim (>>=-cases _ _ w1 rest) [
          | inl (x, thrown, is_err) ↦
              subst (λ o. Simulates (adds u i) o (saved_in w) (saved_in w')) (sym is_err)
                (seen (query-err _ w1 thrown ∙ same1))
          | inr (n, w2, asked, run) ↦
              let (replied, same2) = query-ok _ w1 asked in
              let there =
                sym (ltb-length-keep (is_favorite u i) (p.favorites.rows w2.favorites))
                ∙ ap (λ v. ltb 0 (length (keep (is_favorite u i) (p.favorites.rows v.favorites))))
                    same2
                ∙ ap (ltb 0) (sym (p.favorites.count_rows _ w1.favorites n replied)) in
              subst (λ s. Simulates (adds u i) r s (saved_in w')) (seen (same2 ∙ same1))
                (add_unless-Simulates (ltb 0 n) u i now w2 run there)
        ]
  ]

  uncount-kept :
      (n : ℕ) (i : String) (now : ℕ) (w : World p) {r : Result Bool} {w' : World p}
      → uncount p n i now w ≡ (r, w')
      → (r ≡ ok (not (n =? 0))) × (w'.favorites ≡ w.favorites)
  unfolding uncount
  uncount-kept n i now w e = elim (Bool-cases (n =? 0)) [
    | inl none_gone ↦
        let run = rw (none_gone, uncount) at e in
        (
          sym (ap (λ t. t.0) run) ∙ ap (λ b. ok (not b)) (sym none_gone),
          ap (λ t. t.1.favorites) (sym run),
        )
    | inr some_gone ↦
        let (is_ok, kept) = counted_after i now w (negsuc 0) (rw (some_gone, uncount) at e) in
        (is_ok ∙ ap (λ b. ok (not b)) (sym some_gone), kept)
  ]

  remove-Simulates :
      (u i : String) (now : ℕ) (w : World p) {r : Result Bool} {w' : World p}
      → remove p u i now w ≡ (r, w')
      → Simulates (removes u i) r (saved_in w) (saved_in w')
  unfolding remove
  remove-Simulates u i now w {r} {w'} e = elim (>>=-cases _ _ w e) [
    | inl (x, thrown, is_err) ↦
        subst (λ o. Simulates (removes u i) o (saved_in w) (saved_in w')) (sym is_err)
          (seen (store-err _ _ _ w thrown))
    | inr (n, w1, deleted, rest) ↦
        let (db, replied, written) = store-ok _ _ _ w deleted in
        let (number, left) = p.favorites.delete_many_rows _ w.favorites (n, db) replied in
        let (is_ok, kept) = uncount-kept n i now w1 rest in
        subst (λ o. Simulates (removes u i) o (saved_in w) (saved_in w')) (sym is_ok)
          (
            ap (λ k. not (k =? 0)) number
                ∙ not_none-length (is_favorite u i) (p.favorites.rows w.favorites),
            ap (λ d. view (p.favorites.rows d)) kept
                ∙ ap saved_in written
                ∙ ap view left
                ∙ view-keep u i (p.favorites.rows w.favorites),
          )
  ]

  handle-Simulates :
      (c : Call) (now : ℕ) (w : World p)
      → Simulates c (handle c now w).0 (saved_in w) (saved_in (handle c now w).1)
  unfolding handle
  handle-Simulates (adds u i) now w = add-Simulates u i now w refl
  handle-Simulates (removes u i) now w = remove-Simulates u i now w refl

  -- Whatever calls add and remove favourites, and whatever the stores throw, what the callers are
  -- answered and what is saved afterwards is allowed by a set of pairs of a user and a listing: a call
  -- answers whether it changes the set and makes that change, or it throws and leaves the set.
  pub serve-Allowed :
      (cs : List (Call × ℕ)) (w : World p)
      → Allowed (map (λ c. c.0) cs) (serve cs w).0 (saved_in w) (saved_in (serve cs w).1)
  unfolding serve
  serve-Allowed [] w = done
  serve-Allowed ((c, now) ∷ cs) w =
      extend c (handle c now w).0 (handle-Simulates c now w) (serve-Allowed cs (handle c now w).1)
