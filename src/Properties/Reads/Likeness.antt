-- ===== src/Properties/Reads/Likeness.antt =====
-- When a listing is like another one, and that `is_similar` tests just that.
use text.Mathlib.TextEquality.{eq_iff}
use real_estate_platform.Base.{
  ℕ, ◌+◌, ◌-◌, ◌≤◌, ◌<◌, ◌*◌, ◌≡◌, refl, ap, ◌⊎◌, Bool, true, not, ◌&&◌, ◌||◌, Bool-cases, inl, inr,
  Option, none, some, is_some, String, ◌==◌, leb, arith,
}
use real_estate_platform.Enums.{PropertyStatus, available, off_plan, reserved, sold, delivered}
use real_estate_platform.Listing.{Property}
use real_estate_platform.Properties.Reads.{
  is_on_offer, same_reference, lowest_price, highest_price, is_similar,
}

-- The listing d is like the source: not deleted, another one, on offer, in the same compound or
-- area, between three and five quarters of its price (a fraction of a pound is let in), and at
-- most one bedroom away.
pub record IsLike (source d : Property) : Type 0 where
  pub live : d.deleted_at ≡ none
  pub other : ¬ (d.property_id ≡ source.property_id)
  pub on_offer : (d.status ≡ available) ⊎ ((d.status ≡ off_plan) ⊎ (d.status ≡ reserved))
  pub near_by :
      ((c : String) × (d.compound_id ≡ some c) × (source.compound_id ≡ some c))
      ⊎ ((a : String) × (d.area_id ≡ some a) × (source.area_id ≡ some a))
  pub not_cheaper : source.price_amount * 3 < (d.price_amount + 1) * 4
  pub not_dearer : d.price_amount * 4 < source.price_amount * 5 + 4
  pub bedrooms :
      (source.details.specs.bedrooms ≤ d.details.specs.bedrooms + 1)
      × (d.details.specs.bedrooms ≤ source.details.specs.bedrooms + 1)

both : {a b : Bool} → (a && b) ≡ true → (a ≡ true) × (b ≡ true)
both h = (ground arith, ground arith)

no_text : {A : Type 0} (o : Option A) → not (is_some o) ≡ true → o ≡ none
no_text none h = refl
no_text (some a) h = absurd (ground arith)

other_text : (a b : String) → not (a == b) ≡ true → ¬ (a ≡ b)
other_text a b h same = ground (arith, (eq_iff a b).1 same)

offered :
    (s : PropertyStatus)
    → is_on_offer s ≡ true
    → (s ≡ available) ⊎ ((s ≡ off_plan) ⊎ (s ≡ reserved))
offered available h = inl refl
offered reserved h = inr (inr refl)
offered sold h = absurd (ground arith)
offered off_plan h = inr (inl refl)
offered delivered h = absurd (ground arith)

same_text :
    (a b : Option String) → same_reference a b ≡ true → (c : String) × (a ≡ some c) × (b ≡ some c)
same_text none b h = absurd (ground arith)
same_text (some a) none h = absurd (ground arith)
same_text (some a) (some b) h = (b, ap some ((eq_iff a b).0 h), refl)

same_place :
    (a b c d : Option String)
    → (same_reference a b || same_reference c d) ≡ true
    → ((x : String) × (a ≡ some x) × (b ≡ some x)) ⊎ ((x : String) × (c ≡ some x) × (d ≡ some x))
same_place a b c d h = elim (Bool-cases (same_reference a b)) [
  | inl same ↦ inl (same_text a b same)
  | inr differ ↦ inr (same_text c d (ground arith))
]

prices :
    (source price : ℕ)
    → (leb (lowest_price source) price && leb price (highest_price source)) ≡ true
    → (source * 3 < (price + 1) * 4) × (price * 4 < source * 5 + 4)
prices source price h = (ground arith, ground arith)

rooms :
    (source n : ℕ)
    → (leb (source - 1) n && leb n (source + 1)) ≡ true
    → (source ≤ n + 1) × (n ≤ source + 1)
rooms source n h = (ground arith, ground arith)

pub is_similar-IsLike : (source d : Property) → is_similar source d ≡ true → IsLike source d
unfolding is_similar
is_similar-IsLike source d h =
    let (there, rest) = both h in
    let (live, other) = both there in
    let (on_offer, rest2) = both rest in
    let (place, rest3) = both rest2 in
    let (price, bedrooms) = both rest3 in
    let (low, high) = prices source.price_amount d.price_amount price in
    record {
      live = no_text d.deleted_at live;
      other = λ same. absurd (other_text d.property_id source.property_id other same);
      on_offer = offered d.status on_offer;
      near_by = same_place d.compound_id source.compound_id d.area_id source.area_id place;
      not_cheaper = low;
      not_dearer = high;
      bedrooms = rooms source.details.specs.bedrooms d.details.specs.bedrooms bedrooms;
    }

another_text : (a b : String) → ¬ (a ≡ b) → not (a == b) ≡ true
another_text a b differ = elim (Bool-cases (a == b)) [
  | inl same ↦ absurd (differ ((eq_iff a b).0 same))
  | inr other ↦ rw other refl
]

status_offered :
    (s : PropertyStatus)
    → (s ≡ available) ⊎ ((s ≡ off_plan) ⊎ (s ≡ reserved))
    → is_on_offer s ≡ true
status_offered s (inl e) = rw e refl
status_offered s (inr (inl e)) = rw e refl
status_offered s (inr (inr e)) = rw e refl

text_shared :
    (a b : Option String) (c : String) → a ≡ some c → b ≡ some c → same_reference a b ≡ true
text_shared a b c e k = rw (e, k) ((eq_iff c c).1 refl)

place_shared :
    (a b c d : Option String)
    → ((x : String) × (a ≡ some x) × (b ≡ some x)) ⊎ ((x : String) × (c ≡ some x) × (d ≡ some x))
    → (same_reference a b || same_reference c d) ≡ true
place_shared a b c d (inl (x, e, k)) = rw (text_shared a b x e k) refl
place_shared a b c d (inr (x, e, k)) = let same = text_shared c d x e k in ground arith

prices_within :
    (source price : ℕ)
    → source * 3 < (price + 1) * 4
    → price * 4 < source * 5 + 4
    → (leb (lowest_price source) price && leb price (highest_price source)) ≡ true
prices_within source price h k = ground arith

rooms_within :
    (source n : ℕ)
    → source ≤ n + 1
    → n ≤ source + 1
    → (leb (source - 1) n && leb n (source + 1)) ≡ true
rooms_within source n h k = ground arith

all_of : {a b : Bool} → a ≡ true → b ≡ true → (a && b) ≡ true
all_of h k = ground arith

pub IsLike-is_similar : (source d : Property) → IsLike source d → is_similar source d ≡ true
unfolding is_similar
IsLike-is_similar source d h =
    all_of
      (all_of (ap (λ o. not (is_some o)) h.live)
        (another_text d.property_id source.property_id h.other))
      (all_of (status_offered d.status h.on_offer) (
        all_of (place_shared d.compound_id source.compound_id d.area_id source.area_id h.near_by) (
          all_of (prices_within source.price_amount d.price_amount h.not_cheaper h.not_dearer) (
            rooms_within source.details.specs.bedrooms d.details.specs.bedrooms h.bedrooms.0
              h.bedrooms.1))))
