-- ===== src/Favorites/SavedSet.antt =====
-- What a caller sees of apps/api-core/src/modules/favorites: a set of pairs of a user and a listing.
-- Rows, their order and their dates, counters and caches are forgotten.
use mathlib.Core.Path.{fun_ext}
use real_estate_platform.Base.{
  ℕ, ◌≡◌, refl, sym, subst, Bool, true, not, ◌&&◌, ◌||◌, String, ◌==◌, eq_iff, List, [], ◌∷◌, ◌++◌,
  any, keep, arith, inl, inr, Bool-cases,
}
use real_estate_platform.Errors.{Thrown}
use real_estate_platform.Exec.{Result, ok, err}
use real_estate_platform.Schema.{Favorite}
use real_estate_platform.Favorites.{is_favorite, new_favorite}

pub data Call : Type 0 where
  adds : String → String → Call
  removes : String → String → Call

-- Whether a user has saved a listing.
abbrev pub Saved : Type 0
Saved = String → String → Bool

abbrev pub with_pair : String → String → Saved → Saved
with_pair u i s v j = s v j || (u == v && i == j)

abbrev pub without_pair : String → String → Saved → Saved
without_pair u i s v j = not (u == v && i == j) && s v j

-- What a call makes of the set, and whether that is a change, which is what the call answers.
abbrev pub perform : Call → Saved → Saved
perform (adds u i) s = with_pair u i s
perform (removes u i) s = without_pair u i s

abbrev pub changes : Call → Saved → Bool
changes (adds u i) s = not (s u i)
changes (removes u i) s = s u i

-- What a caller may see: a call answers whether it changes the set, or throws and leaves the set.
pub data Allowed : List Call → List (Result Bool) → Saved → Saved → Type 0 where
  done : {s : Saved} → Allowed [] [] s s
  answers :
      {c : Call} {cs : List Call} {rs : List (Result Bool)} {s t : Saved}
      → Allowed cs rs (perform c s) t
      → Allowed (c ∷ cs) (ok (changes c s) ∷ rs) s t
  throws :
      {c : Call} {cs : List Call} {rs : List (Result Bool)} {s t : Saved} (x : Thrown)
      → Allowed cs rs s t
      → Allowed (c ∷ cs) (err x ∷ rs) s t

abbrev pub Simulates : Call → Result Bool → Saved → Saved → Type 0
Simulates c (ok b) s t = (b ≡ changes c s) × (t ≡ perform c s)
Simulates c (err x) s t = t ≡ s

pub extend :
    (c : Call) (r : Result Bool) {cs : List Call} {rs : List (Result Bool)} {s t z : Saved}
    → Simulates c r s t
    → Allowed cs rs t z
    → Allowed (c ∷ cs) (r ∷ rs) s z
extend c (ok b) {cs} {rs} {s} {t} {z} (h, e) a =
    subst (λ k. Allowed (c ∷ cs) (ok k ∷ rs) s z) (sym h)
      (answers (subst (λ q. Allowed cs rs q z) e a))
extend c (err x) {cs} {rs} {s} {t} {z} e a = throws x (subst (λ q. Allowed cs rs q z) e a)

abbrev pub view : List Favorite → Saved
view fs u i = any (is_favorite u i) fs

any-append_one :
    (f : Favorite → Bool) (fs : List Favorite) (x : Favorite)
    → any f (fs ++ x ∷ []) ≡ any f fs || f x
any-append_one f [] x = ground arith
any-append_one f (y ∷ fs) x = ground (arith, any-append_one f fs x)

pub view-append :
    (u i : String) (now : ℕ) (fs : List Favorite)
    → view (fs ++ new_favorite u i now ∷ []) ≡ with_pair u i (view fs)
view-append u i now fs =
    fun_ext λ v. fun_ext λ j. any-append_one (is_favorite v j) fs (new_favorite u i now)

-- A pair that is there already.
pub with_pair-there : (u i : String) (s : Saved) → s u i ≡ true → s ≡ with_pair u i s
with_pair-there u i s h = fun_ext λ v. fun_ext λ j. elim (Bool-cases (u == v && i == j)) [
  | inl same ↦
      let there : s v j ≡ true = ground (arith, eq_iff u v, eq_iff i j, h) in rw (same, there) refl
  | inr other ↦ rw other (ground arith)
]

pub view-keep :
    (u i : String) (fs : List Favorite)
    → view (keep (λ f. not (is_favorite u i f)) fs) ≡ without_pair u i (view fs)
view-keep u i fs = fun_ext λ v. fun_ext λ j. go v j fs
  where
    go :
        (v j : String) (gs : List Favorite)
        → any (is_favorite v j) (keep (λ f. not (is_favorite u i f)) gs)
          ≡ not (u == v && i == j) && any (is_favorite v j) gs
    go v j [] = ground arith
    go v j (f ∷ gs) = ground (
      arith,
      go v j gs,
      eq_iff u v,
      eq_iff i j,
      eq_iff f.user_id u,
      eq_iff f.property_id i,
      eq_iff f.user_id v,
      eq_iff f.property_id j,
    )
