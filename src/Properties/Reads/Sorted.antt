-- ===== src/Properties/Reads/Sorted.antt =====
-- The sort of listings by a number, and the first of what it gives.
use mathlib.Core.List.{Memᴰ}
use real_estate_platform.Base.{
  ℕ, zero, suc, ◌≤◌, ◌*◌, ◌≡◌, refl, sym, ap, ◌∙◌, subst, ◌⊎◌, Bool, true, Bool-cases, inl, inr,
  List, [], ◌∷◌, keep, take, take-all, length, length-take, min, All, leb, leb→le, arith,
}
use real_estate_platform.Properties.Reads.{insert, sort}

module _ {ℓ} {A : Type ℓ} (key : A → ℕ) where
  -- No item comes before one with a smaller key.
  abbrev pub IsSorted : List A → Type ℓ
  IsSorted [] = Unit
  IsSorted (y ∷ ys) = All (λ z. key y ≤ key z) ys × IsSorted ys

  insert-All {κ} : (P : A → Type κ) (y : A) (ys : List A) → P y → All P ys → All P (insert key y ys)
  unfolding insert
  insert-All P y [] h k = (h, tt)
  insert-All P y (z ∷ zs) h k = elim (Bool-cases (leb (key y) (key z))) [
    | inl first ↦ rw first (h, k)
    | inr later ↦ rw later (k.0, insert-All P y zs h k.1)
  ]

  All-weaken :
      (y z : A) (ys : List A)
      → key y ≤ key z
      → All (λ t. key z ≤ key t) ys
      → All (λ t. key y ≤ key t) ys
  All-weaken y z [] h k = tt
  All-weaken y z (t ∷ ts) h k = (omega (arith, k.0), All-weaken y z ts h k.1)

  insert-IsSorted : (y : A) (ys : List A) → IsSorted ys → IsSorted (insert key y ys)
  unfolding insert
  insert-IsSorted y [] s = (tt, tt)
  insert-IsSorted y (z ∷ zs) s = elim (Bool-cases (leb (key y) (key z))) [
    | inl first ↦ let below = leb→le _ _ first in rw first ((below, All-weaken y z zs below s.0), s)
    | inr later ↦
        let above : key z ≤ key y = ground arith in
        rw later (insert-All (λ t. key z ≤ key t) y zs above s.0, insert-IsSorted y zs s.1)
  ]

  pub sort-IsSorted : (ys : List A) → IsSorted (sort key ys)
  unfolding sort
  sort-IsSorted [] = tt
  sort-IsSorted (y ∷ ys) = insert-IsSorted y (sort key ys) (sort-IsSorted ys)

  pub sort-All {κ} : (P : A → Type κ) (ys : List A) → All P ys → All P (sort key ys)
  unfolding sort
  sort-All P [] k = tt
  sort-All P (y ∷ ys) k = insert-All P y (sort key ys) k.0 (sort-All P ys k.1)

module _ {ℓ} {A : Type ℓ} where
  pub take-All {κ} : (P : A → Type κ) (n : ℕ) (ys : List A) → All P ys → All P (take n ys)
  take-All P zero ys k = tt
  take-All P (suc n) [] k = tt
  take-All P (suc n) (y ∷ ys) k = (k.0, take-All P n ys k.1)

  pub take-IsSorted :
      (key : A → ℕ) (n : ℕ) (ys : List A) → IsSorted key ys → IsSorted key (take n ys)
  take-IsSorted key zero ys s = tt
  take-IsSorted key (suc n) [] s = tt
  take-IsSorted key (suc n) (y ∷ ys) s =
      (take-All (λ z. key y ≤ key z) n ys s.0, take-IsSorted key n ys s.1)

  pub take-le : (n : ℕ) (ys : List A) → length (take n ys) ≤ n
  take-le zero ys = omega arith
  take-le (suc n) [] = omega arith
  take-le (suc n) (y ∷ ys) = omega (arith, take-le n ys)

module _ {ℓ} {A : Type ℓ} where
  pub keep-Mem : (f : A → Bool) (ys : List A) {y : A} → f y ≡ true → Memᴰ y ys → Memᴰ y (keep f ys)
  keep-Mem f [] holds k = elim k [ ]
  keep-Mem f (z ∷ zs) holds (Memᴰ.head e) = rw (sym (ap f e) ∙ holds) (Memᴰ.head e)
  keep-Mem f (z ∷ zs) holds (Memᴰ.tail k) = elim (Bool-cases (f z)) [
    | inl first ↦ rw first (Memᴰ.tail (keep-Mem f zs holds k))
    | inr other ↦ rw other (keep-Mem f zs holds k)
  ]

  pub each-Mem {κ} : {Q : A → Type κ} (ys : List A) → ((y : A) → Memᴰ y ys → Q y) → All Q ys
  each-Mem [] h = tt
  each-Mem (y ∷ ys) h = (h y (Memᴰ.head refl), each-Mem ys (λ z k. h z (Memᴰ.tail k)))

  swapped :
      (y x : A) (xs rest : List A) {z : A}
      → (Memᴰ z (y ∷ xs) → Memᴰ z rest)
      → Memᴰ z (y ∷ x ∷ xs)
      → Memᴰ z (x ∷ rest)
  swapped y x xs rest go (Memᴰ.head e) = Memᴰ.tail (go (Memᴰ.head e))
  swapped y x xs rest go (Memᴰ.tail (Memᴰ.head e)) = Memᴰ.head e
  swapped y x xs rest go (Memᴰ.tail (Memᴰ.tail k)) = Memᴰ.tail (go (Memᴰ.tail k))

module _ {ℓ} {A : Type ℓ} (key : A → ℕ) where
  insert-Mem : (y : A) (ys : List A) {z : A} → Memᴰ z (y ∷ ys) → Memᴰ z (insert key y ys)
  unfolding insert
  insert-Mem y [] k = k
  insert-Mem y (x ∷ xs) k = elim (Bool-cases (leb (key y) (key x))) [
    | inl first ↦ rw first k
    | inr later ↦ rw later (swapped y x xs (insert key y xs) (insert-Mem y xs) k)
  ]

  sort-Mem : (ys : List A) {z : A} → Memᴰ z ys → Memᴰ z (sort key ys)
  unfolding sort
  sort-Mem [] k = elim k [ ]
  sort-Mem (y ∷ ys) (Memᴰ.head e) = insert-Mem y (sort key ys) (Memᴰ.head e)
  sort-Mem (y ∷ ys) (Memᴰ.tail k) = insert-Mem y (sort key ys) (Memᴰ.tail (sort-Mem ys k))

  length-insert : (y : A) (ys : List A) → length (insert key y ys) ≡ suc (length ys)
  unfolding insert
  length-insert y [] = refl
  length-insert y (x ∷ xs) = ground (arith, length-insert y xs)

  length-sort : (ys : List A) → length (sort key ys) ≡ length ys
  unfolding sort
  length-sort [] = refl
  length-sort (y ∷ ys) = length-insert y (sort key ys) ∙ ap suc (length-sort ys)

  -- The first of the sorted candidates: each candidate is among them, or they are as many as may be.
  pub answered_or_full :
      (limit : ℕ) (ys : List A) (z : A)
      → Memᴰ z ys
      → Memᴰ z (take limit (sort key (take (limit * 3) ys)))
        ⊎ (length (take limit (sort key (take (limit * 3) ys))) ≡ limit)
  answered_or_full limit ys z k = elim (Bool-cases (leb (length ys) limit)) [
    | inl few ↦
        let below = leb→le _ _ few in
        let all_taken : take (limit * 3) ys ≡ ys = take-all (limit * 3) ys (omega (arith, below)) in
        let sorted = sort key ys in
        let kept : take limit sorted ≡ sorted =
          take-all limit sorted (omega (arith, below, length-sort ys)) in
        inl (
          subst (λ t. Memᴰ z (take limit (sort key t))) (sym all_taken)
            (subst (Memᴰ z) (sym kept) (sort-Mem ys k)))
    | inr many ↦
        let first = take (limit * 3) ys in
        inr (
          length-take limit (sort key first)
          ∙ ap (min limit) (length-sort first ∙ length-take (limit * 3) ys)
          ∙ ground arith)
  ]
