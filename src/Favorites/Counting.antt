-- ===== src/Favorites/Counting.antt =====
-- apps/api-core/src/modules/favorites: the rows of favourites beside the counters of listings.
use real_estate_platform.Base.{
  ℕ, ◌+◌, ◌≤◌, ◌≡◌, sym, ap, ◌∙◌, subst, Bool, true, false, not, String, ◌==◌, eq_iff, List, [],
  ◌∷◌, ◌++◌, keep, length, length-keep-concat, length-keep-split, keep-keep_disjoint,
  length-keep-keep-le, All, arith, if◌then◌else◌, ◌=?◌, Bool-cases, inl, inr, keep-not_of_none,
}
use native.Mathlib.Nat.{le_trans}
use real_estate_platform.Base.Int.{ℤ, pos, negsuc, ◌+ℤ◌}
use real_estate_platform.Schema.{Favorite}
use real_estate_platform.Listing.{Property}
use real_estate_platform.Table.{patch}
use real_estate_platform.Properties.{has_property_id, add_favorites}
use real_estate_platform.Favorites.{is_favorite, new_favorite}

abbrev pub of_property : String → Favorite → Bool
of_property id f = f.property_id == id

abbrev pub saves : String → List Favorite → ℕ
saves id fs = length (keep (of_property id) fs)

-- Each listing's counter is right.
abbrev pub InStep : List Favorite → List Property → Type 0
InStep fs ds = All (λ d. d.stats.favorites ≡ pos (saves d.property_id fs)) ds

-- The unique index on user and listing.
abbrev pub Unique : List Favorite → Type 0
Unique fs = (u i : String) → length (keep (is_favorite u i) fs) ≤ 1

add_one : (n : ℕ) → pos n +ℤ pos 1 ≡ pos (n + 1)
unfolding ◌+ℤ◌
add_one n = ground arith

take_one : (n m : ℕ) → n ≡ m + 1 → pos n +ℤ negsuc 0 ≡ pos m
unfolding ◌+ℤ◌
take_one n m e = ground arith

saves-concat :
    (id : String) (fs : List Favorite) (f : Favorite)
    → saves id (fs ++ f ∷ []) ≡ saves id fs + (if f.property_id == id then 1 else 0)
saves-concat id fs f = length-keep-concat (of_property id) fs f

-- The counter of one listing after an update that counts `delta` for the listing `i`.
abbrev counted : String → ℤ → Property → Property
counted i delta d = if has_property_id i d then add_favorites delta d else d

added_one :
    (u i : String) (now : ℕ) (fs : List Favorite) (d : Property)
    → d.stats.favorites ≡ pos (saves d.property_id fs)
    → (counted i (pos 1) d).stats.favorites
      ≡ pos (saves (counted i (pos 1) d).property_id (fs ++ new_favorite u i now ∷ []))
added_one u i now fs d h =
    let more = saves-concat d.property_id fs (new_favorite u i now) in
    ground (
      arith,
      more,
      add_one (saves d.property_id fs),
      eq_iff d.property_id i,
      eq_iff i d.property_id,
    )

pub InStep-add :
    (u i : String) (now : ℕ) (fs : List Favorite) (ds : List Property)
    → InStep fs ds
    → InStep
        (fs ++ new_favorite u i now ∷ [])
        (patch (has_property_id i) (add_favorites (pos 1)) ds)
InStep-add u i now fs [] h = tt
InStep-add u i now fs (d ∷ ds) h = (added_one u i now fs d h.0, InStep-add u i now fs ds h.1)

abbrev pub dropped : String → String → List Favorite → List Favorite
dropped u i = keep (λ f. not (is_favorite u i f))

saves-dropped :
    (u i : String) (fs : List Favorite)
    → saves i (dropped u i fs) + length (keep (is_favorite u i) fs) ≡ saves i fs
saves-dropped u i fs = length-keep-split (is_favorite u i) (of_property i) fs (λ f h. ground arith)

saves-dropped_ne :
    (u i j : String) (fs : List Favorite) → (j == i) ≡ false → saves j (dropped u i fs) ≡ saves j fs
saves-dropped_ne u i j fs h = ap length (
    keep-keep_disjoint (is_favorite u i) (of_property j) fs
      (λ f k. ground (arith, eq_iff f.property_id i, eq_iff f.property_id j, eq_iff j i)))

removed_one :
    (u i : String) (fs : List Favorite) (d : Property)
    → length (keep (is_favorite u i) fs) ≡ 1
    → d.stats.favorites ≡ pos (saves d.property_id fs)
    → (counted i (negsuc 0) d).stats.favorites
      ≡ pos (saves (counted i (negsuc 0) d).property_id (dropped u i fs))
removed_one u i fs d one h = ground (
  arith,
  saves-dropped u i fs,
  saves-dropped_ne u i d.property_id fs,
  take_one (saves d.property_id fs) (saves d.property_id (dropped u i fs)),
  eq_iff d.property_id i,
)

pub InStep-remove :
    (u i : String) (fs : List Favorite) (ds : List Property)
    → length (keep (is_favorite u i) fs) ≡ 1
    → InStep fs ds
    → InStep (dropped u i fs) (patch (has_property_id i) (add_favorites (negsuc 0)) ds)
InStep-remove u i fs [] one h = tt
InStep-remove u i fs (d ∷ ds) one h =
    (removed_one u i fs d one h.0, InStep-remove u i fs ds one h.1)

pub Unique-add :
    (u i : String) (now : ℕ) (fs : List Favorite)
    → length (keep (is_favorite u i) fs) ≡ 0
    → Unique fs
    → Unique (fs ++ new_favorite u i now ∷ [])
Unique-add u i now fs fresh h v j = ground (
  arith,
  length-keep-concat (is_favorite v j) fs (new_favorite u i now),
  h v j,
  eq_iff u v,
  eq_iff i j,
)

pub Unique-remove : (u i : String) (fs : List Favorite) → Unique fs → Unique (dropped u i fs)
Unique-remove u i fs h v j =
    le_trans (length-keep-keep-le (λ f. not (is_favorite u i f)) (is_favorite v j) fs) (h v j)

-- The stores of favourites and listings agree.
pub record Consistent (fs : List Favorite) (ds : List Property) : Type 0 where
  pub in_step : InStep fs ds
  pub unique : Unique fs

present_once : (n m : ℕ) → n ≡ m → (n =? 0) ≡ false → m ≤ 1 → m ≡ 1
present_once n m e h k = ground arith

dropped_of_absent :
    (u i : String) (fs : List Favorite)
    → (length (keep (is_favorite u i) fs) =? 0) ≡ true
    → dropped u i fs ≡ fs
dropped_of_absent u i fs h = keep-not_of_none (is_favorite u i) fs h

pub Consistent-remove :
    (u i : String) (n : ℕ) (fs : List Favorite) (ds : List Property)
    → n ≡ length (keep (is_favorite u i) fs)
    → Consistent fs ds
    → Consistent
        (dropped u i fs)
        (if n =? 0 then ds else patch (has_property_id i) (add_favorites (negsuc 0)) ds)
Consistent-remove u i n fs ds number c = elim (Bool-cases (n =? 0)) [
  | inl absent ↦
      let gone = dropped_of_absent u i fs (ap (λ k. k =? 0) (sym number) ∙ absent) in
      rw absent (subst (λ gs. Consistent gs ds) (sym gone) c)
  | inr there ↦ rw there (record {
    in_step = InStep-remove u i fs ds (present_once n _ number there (c.unique u i)) c.in_step;
    unique = Unique-remove u i fs c.unique;
  })
]
