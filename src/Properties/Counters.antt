-- ===== src/Properties/Counters.antt =====
-- apps/api-core/src/modules/properties: what an update of a counter does.
use real_estate_platform.Base.{ℕ, ◌≡◌, sym, ap, ◌∙◌, String, arith, [], ◌∷◌}
use real_estate_platform.Base.Int.{ℤ}
use real_estate_platform.Exec.{ok, Reply, failed, answer, steps}
use real_estate_platform.Cache
use real_estate_platform.Table.{patch}
use real_estate_platform.CacheKeys.{property_key}
use real_estate_platform.Platform.{Platform, World}
use real_estate_platform.Properties.{
  has_property_id, add_favorites, add_lead, adjust_favorite_count, increment_lead_count,
}

-- The listings after an update that MongoDB answered or refused.
abbrev pub after : {A D : Type 0} → D → Reply (A × D) → D
after d (failed m) = d
after d (answer a) = a.1

module _ (p : Platform) (property_id : String) (now : ℕ) (w : World p) where
  -- The cached document of the listing is dropped.
  abbrev pub uncached : p.redis.Store
  uncached = (Cache.del p.redis (property_key property_id ∷ []) now w.redis).1

  pub increment_lead_count-run :
      (n : ℕ) × (increment_lead_count p property_id now w ≡ (
        ok n,
        record w {
          listings =
              after w.listings
                (p.listings.update_many (has_property_id property_id) add_lead w.listings);
          redis = uncached;
        },
      ))
  unfolding increment_lead_count steps
  increment_lead_count-run =
      ((Cache.del p.redis (property_key property_id ∷ []) now w.redis).0, ground arith)

  pub adjust_favorite_count-run :
      (delta : ℤ)
      → (n : ℕ) × (adjust_favorite_count p property_id delta now w ≡ (
        ok n,
        record w {
          listings = after w.listings (
              p.listings.update_many
                (has_property_id property_id)
                (add_favorites delta)
                w.listings);
          redis = uncached;
        },
      ))
  unfolding adjust_favorite_count steps
  adjust_favorite_count-run delta =
      ((Cache.del p.redis (property_key property_id ∷ []) now w.redis).0, ground arith)

module _ (p : Platform) where
  -- Where MongoDB answers, the counter of the listing moves by `delta`; no favourite changes.
  pub adjust_favorite_count-ok :
      (property_id : String) (delta : ℤ) (now : ℕ) (w w' : World p) {n : ℕ} (a : ℕ × p.listings.Db)
      → adjust_favorite_count p property_id delta now w ≡ (ok n, w')
      → p.listings.update_many (has_property_id property_id) (add_favorites delta) w.listings
        ≡ answer a
      → (p.listings.rows w'.listings
          ≡ patch (has_property_id property_id) (add_favorites delta) (p.listings.rows w.listings))
        × (w'.favorites ≡ w.favorites)
  adjust_favorite_count-ok property_id delta now w w' a e replied =
      let (m, run) = adjust_favorite_count-run p property_id now w delta in
      let ends = sym (ap (λ t. t.1) e) ∙ ap (λ t. t.1) run in
      let updated = p.listings.update_many_rows _ _ w.listings a replied in
      (
        ap (λ v. p.listings.rows v.listings) ends
            ∙ ap (λ r. p.listings.rows (after w.listings r)) replied
            ∙ updated.1,
        ap (λ v. v.favorites) ends,
      )
