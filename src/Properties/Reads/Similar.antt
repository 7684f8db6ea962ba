-- ===== src/Properties/Reads/Similar.antt =====
-- What the listings like another one are.
use mathlib.Core.List.{Memᴰ}
use real_estate_platform.Base.{
  ℕ, ◌≤◌, ◌*◌, ◌≡◌, refl, sym, ap, ◌∙◌, subst, ◌⊎◌, Bool-cases, inl, inr, List, [], ◌∷◌, Option,
  none, some, keep, take, length, All, String,
}
use real_estate_platform.Exec.{ok, ok-injective}
use real_estate_platform.Exec.Inversion.{>>=-ok, query-ok}
use real_estate_platform.Exec.Frames.{
  Keeps, >>=-Keeps, >>-Keeps, query-Keeps, or_throw-Keeps, change-Keeps,
}
use real_estate_platform.Listing.{Property}
use real_estate_platform.Platform.{Platform, World}
use real_estate_platform.Properties.Reads.{
  Texts, is_similar, distance, sort, read_cached, keep_cached, load, cached_or_loaded, find_one,
  similar,
}
use real_estate_platform.Properties.Reads.Likeness.{IsLike, is_similar-IsLike, IsLike-is_similar}
use real_estate_platform.Properties.Reads.Sorted.{
  IsSorted, sort-IsSorted, sort-All, take-All, take-IsSorted, take-le, keep-Mem, each-Mem,
  answered_or_full,
}

keep-IsLike :
    (source : Property) (ds : List Property) → All (IsLike source) (keep (is_similar source) ds)
keep-IsLike source [] = tt
keep-IsLike source (d ∷ ds) = elim (Bool-cases (is_similar source d)) [
  | inl like ↦ rw like (is_similar-IsLike source d like, keep-IsLike source ds)
  | inr unlike ↦ rw unlike (keep-IsLike source ds)
]

module _ (p : Platform) (x : Texts) where
  load-listings : (id : String) (now : ℕ) → Keeps (λ (w : World p). w.listings) (load p x id now)
  unfolding load keep_cached
  load-listings id now = >>=-Keeps _ _ _ (query-Keeps _ _) (λ found.
      >>=-Keeps _ _ _ (or_throw-Keeps _ _ _)
        (λ d. >>-Keeps _ _ _ (change-Keeps _ _ _ _ (λ w d. refl)) (λ w. refl)))

  find_one-listings :
      (id : String) (now : ℕ) → Keeps (λ (w : World p). w.listings) (find_one p x id now)
  unfolding find_one read_cached cached_or_loaded
  find_one-listings id now = >>=-Keeps _ _ _ (change-Keeps _ _ _ _ (λ w d. refl)) next
    where
      next :
          (o : Option Property)
          → Keeps (λ (w : World p). w.listings) (cached_or_loaded p x o id now)
      next none = load-listings id now
      next (some d) = λ w. refl

  -- A read of the listings like another one that succeeds has found that listing, and answers at most
  -- the limit of listings, each of them not deleted, another one, on offer, in its compound or area,
  -- within a quarter of its price (up to a fraction of a pound) and one bedroom, the nearer in price
  -- first; where it answers fewer than the limit, every listing of MongoDB that is so is among them.
  pub similar-IsSorted :
      (id : String) (limit now : ℕ) (w w' : World p) (ds : List Property)
      → similar p x id limit now w ≡ (ok ds, w')
      → (source : Property) × ((find_one p x id now w).0 ≡ ok source)
        × All (IsLike source) ds
        × (length ds ≤ limit)
        × IsSorted (distance source) ds
        × All (λ d. IsLike source d → Memᴰ d ds ⊎ (length ds ≡ limit)) (p.listings.rows w.listings)
  unfolding similar
  similar-IsSorted id limit now w w' ds e =
      let (source, w1, found, rest) = >>=-ok _ _ w e in
      let (candidates, w2, asked, last) = >>=-ok _ _ w1 rest in
      let (replied, same) = query-ok _ w1 asked in
      let kept : w1.listings ≡ w.listings =
        sym (ap (λ t. t.1.listings) found) ∙ find_one-listings id now w in
      let rows = p.listings.find_many_rows _ w1.listings candidates replied in
      let like =
        subst (All (IsLike source)) (sym rows) (keep-IsLike source (p.listings.rows w1.listings)) in
      let some_of = take (limit * 3) candidates in
      let near = distance source in
      let answered : take limit (sort near some_of) ≡ ds = ok-injective (ap (λ t. t.0) last) in
      let held = sort-All near (IsLike source) some_of (take-All _ (limit * 3) candidates like) in
      (
        source,
        ap (λ t. t.0) found,
        subst (All (IsLike source)) answered (take-All _ limit _ held),
        subst (λ c. length c ≤ limit) answered (take-le limit (sort near some_of)),
        subst (IsSorted near) answered (take-IsSorted near limit _ (sort-IsSorted near some_of)),
        each-Mem (p.listings.rows w.listings) (λ d there like_it.
            subst (λ t. Memᴰ d t ⊎ (length t ≡ limit)) answered
              (answered_or_full near limit candidates d (
                subst (Memᴰ d) (sym rows) (
                  keep-Mem (is_similar source) (p.listings.rows w1.listings)
                    (IsLike-is_similar source d like_it)
                    (subst (λ l. Memᴰ d (p.listings.rows l)) (sym kept) there))))),
      )
