-- ===== src/Slug/Unique.antt =====
-- A slug that no row has yet.
use real_estate_platform.Base.{
  ℕ, zero, suc, ◌+◌, ◌≤◌, ◌<◌, ◌≡◌, sym, ap, ◌∙◌, ◌⊎◌, inl, inr, Bool, true, false, String, ◌=?◌,
  =?_iff, Bool-cases, arith,
}
use real_estate_platform.Exec.{Exec, ok, ◌>>=◌, ok-injective}
use real_estate_platform.Exec.Inversion.{>>=-ok}
use real_estate_platform.Slug.{Unicode, slugify, numbered, stamped, try_numbered, build_unique_slug}

module _ {W : Type 0} (is_taken : String → Exec W Bool) (taken : String → W → Bool) where
  -- The check asks the store, and leaves it as it is.
  abbrev pub Asks : Type 0
  Asks = (c : String) (w w' : W) (b : Bool) → is_taken c w ≡ (ok b, w') → (b ≡ taken c w) × (w' ≡ w)

  -- The slug is free, or it ends with the time since each of the numbered ones is taken.
  abbrev pub IsFree : String → ℕ → ℕ → W → String → Type 0
  IsFree base last now w s =
      (taken s w ≡ false)
      ⊎ ((s ≡ stamped base now)
          × (taken base w ≡ true)
          × ((k : ℕ) → 2 ≤ k → k ≤ last → taken (numbered base k) w ≡ true))

  module _ (asks : Asks) where
    -- One round: the store is asked, and as it was.
    asked :
        (c : String) (f : Bool → Exec W String) (w w' : W) (s : String)
        → (is_taken c >>= f) w ≡ (ok s, w')
        → f (taken c w) w ≡ (ok s, w')
    asked c f w w' s e =
        let (b, w1, e1, rest) = >>=-ok (is_taken c) f w e in
        let (same, kept) = asks c w w1 b e1 in
        ap (λ v. f (taken c w) v) (sym kept) ∙ ap (λ t. f t w1) (sym same) ∙ rest

    below_suc :
        (attempt : ℕ) (base : String) (w : W)
        → ((k : ℕ) → 2 ≤ k → k < attempt → taken (numbered base k) w ≡ true)
        → taken (numbered base attempt) w ≡ true
        → (k : ℕ) → 2 ≤ k
        → k < attempt + 1
        → taken (numbered base k) w ≡ true
    below_suc attempt base w h t k low high = elim (Bool-cases (k =? attempt)) [
      | inl same ↦ ap (λ m. taken (numbered base m) w) ((=?_iff k attempt).0 same) ∙ t
      | inr differ ↦ h k low (ground arith)
    ]

    numbered_lem :
        (left attempt last : ℕ) (base : String) (now : ℕ) (w w' : W) (s : String)
        → try_numbered is_taken left attempt base now w ≡ (ok s, w')
        → left + attempt ≡ last + 1
        → taken base w ≡ true
        → ((k : ℕ) → 2 ≤ k → k < attempt → taken (numbered base k) w ≡ true)
        → IsFree base last now w s × (w' ≡ w)
    unfolding try_numbered
    numbered_lem zero attempt last base now w w' s e l t h = (
      inr (sym (ok-injective (ap (λ r. r.0) e)), t, λ k low high. h k low (omega arith)),
      sym (ap (λ r. r.1) e),
    )
    numbered_lem (suc left) attempt last base now w w' s e l t h =
        elim (Bool-cases (taken (numbered base attempt) w)) [
          | inl again ↦
              numbered_lem left (attempt + 1) last base now w w' s
                (rw again at (asked (numbered base attempt) _ w w' s e)) (omega arith) t
                (below_suc attempt base w h again)
          | inr free ↦
              let done = rw free at (asked (numbered base attempt) _ w w' s e) in
              let same = ok-injective (ap (λ r. r.0) done) in
              (inl (ap (λ c. taken c w) (sym same) ∙ free), sym (ap (λ r. r.1) done))
        ]

    -- The slug that is answered is free, unless it ends with the time since the slug of the text and
    -- those numbered from 2 to 50 are all taken; and the store is left as it was.
    pub build_unique_slug-IsFree :
        (u : Unicode) (desired fallback : String) (now : ℕ) (w w' : W) (s : String)
        → build_unique_slug is_taken u desired fallback now w ≡ (ok s, w')
        → IsFree (slugify u desired fallback) 50 now w s × (w' ≡ w)
    unfolding build_unique_slug
    build_unique_slug-IsFree u desired fallback now w w' s e =
        let base = slugify u desired fallback in
        elim (Bool-cases (taken base w)) [
          | inl again ↦
              numbered_lem 49 2 50 base now w w' s (rw again at (asked base _ w w' s e))
                (omega arith) again (λ k low high. absurd (omega arith))
          | inr free ↦
              let done = rw free at (asked base _ w w' s e) in
              let same = ok-injective (ap (λ r. r.0) done) in
              (inl (ap (λ c. taken c w) (sym same) ∙ free), sym (ap (λ r. r.1) done))
        ]
