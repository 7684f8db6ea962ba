-- ===== src/Mirror/InStep.antt =====
-- The documents of listings beside the rows that mirror them: what being in step means, and how a
-- write and its undoing act on it.
use real_estate_platform.Base.{
  ℕ, ◌+◌, ◌≤◌, ◌≡◌, refl, sym, ap, ◌∙◌, subst, Bool, true, false, not, String, List, [], ◌∷◌, ◌++◌,
  map, some, keep, any, find, length, length-keep-concat, ◌==◌, eq_iff, eq_refl, arith,
  if◌then◌else◌, All, Bool-cases, inl, inr, some-injective,
}
use real_estate_platform.Schema.{PropertyIndex}
use real_estate_platform.Listing.{Property}
use real_estate_platform.Table.{patch}
use real_estate_platform.Properties.{has_property_id}
use real_estate_platform.Mirror.{mirror_of, copy_mirror, is_mirror, has_mongo_id, replace_by}

abbrev pub mirrors : List Property → List PropertyIndex
mirrors ds = map mirror_of ds

abbrev pub UniqueIds : List Property → Type 0
UniqueIds ds = (i : String) → length (keep (has_property_id i) ds) ≤ 1

pub record Mirrored (rs : List PropertyIndex) (ds : List Property) : Type 0 where
  pub in_step : rs ≡ mirrors ds
  pub unique : UniqueIds ds

mirrors-concat :
    (ds : List Property) (d : Property) → mirrors (ds ++ d ∷ []) ≡ mirrors ds ++ mirror_of d ∷ []
mirrors-concat [] d = refl
mirrors-concat (e ∷ ds) d = ap (λ rs. mirror_of e ∷ rs) (mirrors-concat ds d)

one_more : (n : ℕ) (b : Bool) → n ≤ 1 → (b ≡ true → n ≡ 0) → n + (if b then 1 else 0) ≤ 1
one_more n b h k = ground arith

absent :
    (i : String) (ds : List Property)
    → any (has_property_id i) ds ≡ false
    → length (keep (has_property_id i) ds) ≡ 0
absent i [] h = refl
absent i (d ∷ ds) h = ground (arith, absent i ds)

pub Mirrored-create :
    (rs : List PropertyIndex) (ds : List Property) (d : Property)
    → any (has_property_id d.property_id) ds ≡ false
    → Mirrored rs ds
    → Mirrored (rs ++ mirror_of d ∷ []) (ds ++ d ∷ [])
Mirrored-create rs ds d fresh m = record {
  in_step = ap (λ qs. qs ++ mirror_of d ∷ []) m.in_step ∙ sym (mirrors-concat ds d);
  unique = λ i.
      subst (λ n. n ≤ 1) (sym (length-keep-concat (has_property_id i) ds d))
        (one_more _ (d.property_id == i) (m.unique i) (λ h.
          absent i ds (
            subst (λ j. any (has_property_id j) ds ≡ false) ((eq_iff d.property_id i).0 h) fresh)));
}

-- Removing the document that was just added leaves the others.
pub undone_create :
    (m : String) (ds : List Property) (d : Property)
    → any (has_mongo_id m) ds ≡ false
    → d.mongo_id ≡ m
    → keep (λ e. not (has_mongo_id m e)) (ds ++ d ∷ []) ≡ ds
undone_create m [] d h e = ground (arith, eq_refl m)
undone_create m (x ∷ ds) d h e = ground (arith, undone_create m ds d)

-- The one document with an identifier.
abbrev pub IsOnly : String → Property → List Property → Type 0
IsOnly i d ds = All (λ e. has_property_id i e ≡ true → e ≡ d) ds

IsOnly-of_absent :
    (i : String) (d : Property) (ds : List Property)
    → length (keep (has_property_id i) ds) ≡ 0
    → IsOnly i d ds
IsOnly-of_absent i d [] h = tt
IsOnly-of_absent i d (e ∷ ds) h = elim (Bool-cases (has_property_id i e)) [
  | inl same ↦ absurd (ground arith)
  | inr differ ↦ ((λ k. absurd (ground arith)), IsOnly-of_absent i d ds (rw differ at h))
]

pub IsOnly-of_found :
    (i : String) (d : Property) (ds : List Property)
    → length (keep (has_property_id i) ds) ≤ 1
    → find (has_property_id i) ds ≡ some d
    → IsOnly i d ds
IsOnly-of_found i d [] u f = tt
IsOnly-of_found i d (e ∷ ds) u f = elim (Bool-cases (has_property_id i e)) [
  | inl same ↦ ((λ k. some-injective (rw same at f)), IsOnly-of_absent i d ds (ground arith))
  | inr differ ↦
      ((λ k. absurd (ground arith)), IsOnly-of_found i d ds (rw differ at u) (rw differ at f))
]

-- What `$set` of the service leaves alone.
pub record KeepsIds (set : Property → Property) : Type 0 where
  pub property_id : (d : Property) → (set d).property_id ≡ d.property_id
  pub mongo_id : (d : Property) → (set d).mongo_id ≡ d.mongo_id

-- A change of one document, and of its row by the mirror of what it became.
mirror-patch :
    (i : String) (set : Property → Property) (d e : Property)
    → KeepsIds set
    → (has_property_id i e ≡ true → e ≡ d)
    → (if is_mirror i (mirror_of e)
        then copy_mirror (mirror_of (set d)) (mirror_of e)
        else mirror_of e)
      ≡ mirror_of (if has_property_id i e then set e else e)
unfolding mirror_of copy_mirror
mirror-patch i set d e k only = elim (Bool-cases (has_property_id i e)) [
  | inl same ↦ rw same (
      subst
        (λ x.
          ◌≡◌ {A = PropertyIndex}
            (record (mirror_of (set x)) { id = e.property_id; mongo_id = e.mongo_id })
            (mirror_of (set e)))
        (only same) (rw (k.property_id e, k.mongo_id e) refl))
  | inr differ ↦ rw differ refl
]

mirrors-patch :
    (i : String) (set : Property → Property) (d : Property) (ds : List Property)
    → KeepsIds set
    → IsOnly i d ds
    → patch (is_mirror i) (copy_mirror (mirror_of (set d))) (mirrors ds)
      ≡ mirrors (patch (has_property_id i) set ds)
mirrors-patch i set d [] k only = refl
mirrors-patch i set d (e ∷ ds) k only =
    ap (λ r. r ∷ patch (is_mirror i) (copy_mirror (mirror_of (set d))) (mirrors ds))
      (mirror-patch i set d e k only.0)
    ∙ ap (λ rs. mirror_of (if has_property_id i e then set e else e) ∷ rs)
        (mirrors-patch i set d ds k only.1)

unique-patch :
    (i j : String) (set : Property → Property) (ds : List Property)
    → KeepsIds set
    → length (keep (has_property_id j) (patch (has_property_id i) set ds))
      ≡ length (keep (has_property_id j) ds)
unique-patch i j set [] k = refl
unique-patch i j set (e ∷ ds) k = ground (arith, unique-patch i j set ds, k.property_id e)

pub Mirrored-update :
    (i : String) (set : Property → Property) (d : Property) (rs : List PropertyIndex)
    (ds : List Property)
    → KeepsIds set
    → find (has_property_id i) ds ≡ some d
    → Mirrored rs ds
    → Mirrored
        (patch (is_mirror i) (copy_mirror (mirror_of (set d))) rs)
        (patch (has_property_id i) set ds)
Mirrored-update i set d rs ds k f m = record {
  in_step =
      ap (patch (is_mirror i) (copy_mirror (mirror_of (set d)))) m.in_step
      ∙ mirrors-patch i set d ds k (IsOnly-of_found i d ds (m.unique i) f);
  unique = λ j. subst (λ n. n ≤ 1) (sym (unique-patch i j set ds k)) (m.unique j);
}

-- The document that was replaced is put back.
undone_one :
    (i : String) (set : Property → Property) (d e : Property)
    → KeepsIds set
    → (has_property_id i e ≡ true → e ≡ d)
    → (if has_property_id i (if has_property_id i e then set e else e)
        then replace_by d (if has_property_id i e then set e else e)
        else (if has_property_id i e then set e else e))
      ≡ e
undone_one i set d e k only = elim (Bool-cases (has_property_id i e)) [
  | inl same ↦
      rw (same, k.property_id e, same)
        (subst (λ x. ◌≡◌ {A = Property} (record x { mongo_id = (set e).mongo_id }) e) (only same)
          (rw (k.mongo_id e) refl))
  | inr differ ↦ rw (differ, differ) refl
]

pub undone_update :
    (i : String) (set : Property → Property) (d : Property) (ds : List Property)
    → KeepsIds set
    → IsOnly i d ds
    → patch (has_property_id i) (replace_by d) (patch (has_property_id i) set ds) ≡ ds
undone_update i set d [] k only = refl
undone_update i set d (e ∷ ds) k only =
    ap (λ x. x ∷ patch (has_property_id i) (replace_by d) (patch (has_property_id i) set ds))
      (undone_one i set d e k only.0)
    ∙ ap (λ es. e ∷ es) (undone_update i set d ds k only.1)
