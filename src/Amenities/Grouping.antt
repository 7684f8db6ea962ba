-- ===== src/Amenities/Grouping.antt =====
-- The groups of amenities, beside the categories and what lies in each.
use real_estate_platform.Base.{
  ◌≡◌, refl, sym, ap, ◌∙◌, true, false, Bool-cases, inl, inr, List, [], ◌∷◌, ◌++◌, map, keep,
  String, ◌==◌, eq_iff, includes, distinct, dedupe, distinct-dedupe, dedupe-concat, includes-dedupe,
  append-nil, append_assoc, keep-append, eq_refl, if◌then◌else◌, arith,
}
use mathlib.Core.List.{map-append}
use real_estate_platform.Schema.{Amenity}
use real_estate_platform.Amenities.{AmenityGroup, into_bucket, fill_buckets, grouped}

abbrev pub group_of : (String → List Amenity) → String → AmenityGroup
group_of f c = record { category = c; amenities = f c }

abbrev pub in_category : List Amenity → String → List Amenity
in_category amenities c = keep (λ a. a.category == c) amenities

-- Each category once, in the order in which they first come, with its amenities in their order.
abbrev pub by_category : List Amenity → List AmenityGroup
by_category amenities =
    map (group_of (in_category amenities)) (dedupe (map (λ a. a.category) amenities))

abbrev pushed : Amenity → (String → List Amenity) → String → List Amenity
pushed a f c = if a.category == c then f c ++ a ∷ [] else f c

map-elsewhere :
    (a : Amenity) (f : String → List Amenity) (cs : List String)
    → includes cs a.category ≡ false
    → map (group_of f) cs ≡ map (group_of (pushed a f)) cs
map-elsewhere a f [] h = refl
map-elsewhere a f (c ∷ cs) h =
    ground (arith, map-elsewhere a f cs, eq_iff c a.category, eq_iff a.category c)

into_bucket-map :
    (a : Amenity) (f : String → List Amenity) (cs : List String)
    → distinct cs ≡ true
    → into_bucket a (map (group_of f) cs)
      ≡ map (group_of (pushed a f)) cs
        ++ (if includes cs a.category then [] else group_of (λ c. a ∷ []) a.category ∷ [])
unfolding into_bucket
into_bucket-map a f [] d = refl
into_bucket-map a f (c ∷ cs) d = elim (Bool-cases (c == a.category)) [
  | inl here ↦ ground (
    arith,
    map-elsewhere a f cs,
    append-nil (map (group_of (pushed a f)) cs),
    eq_iff c a.category,
    eq_iff a.category c,
  )
  | inr elsewhere ↦ ground (arith, into_bucket-map a f cs, eq_iff c a.category, eq_iff a.category c)
]

-- The category of an amenity that is added.
in_category-concat :
    (xs : List Amenity) (a : Amenity) (c : String)
    → in_category (xs ++ a ∷ []) c ≡ pushed a (in_category xs) c
in_category-concat xs a c =
    ground (arith, keep-append (λ b. b.category == c) xs (a ∷ []), append-nil (in_category xs c))

map-same :
    (f g : String → List Amenity) (cs : List String)
    → ((c : String) → f c ≡ g c)
    → map (group_of f) cs ≡ map (group_of g) cs
map-same f g [] h = refl
map-same f g (c ∷ cs) h = rw (h c, map-same f g cs h) refl

none_in :
    (xs : List Amenity) (c : String)
    → includes (map (λ a. a.category) xs) c ≡ false
    → in_category xs c ≡ []
none_in [] c h = refl
none_in (x ∷ xs) c h = ground (arith, none_in xs c)

categories : List Amenity → List String
categories = map (λ a. a.category)

into_bucket-by_category :
    (a : Amenity) (xs : List Amenity) → into_bucket a (by_category xs) ≡ by_category (xs ++ a ∷ [])
unfolding categories
into_bucket-by_category a xs =
    let old = dedupe (categories xs) in
    let next = in_category (xs ++ a ∷ []) in
    let first = into_bucket-map a (in_category xs) old (distinct-dedupe (categories xs)) in
    let same =
      map-same (pushed a (in_category xs)) next old (λ c. sym (in_category-concat xs a c)) in
    let names =
      ap dedupe (map-append (λ b. b.category) xs (a ∷ []))
      ∙ dedupe-concat (categories xs) a.category in
    let alone = group_of (λ c. a ∷ []) a.category ∷ [] in
    let known = includes-dedupe (categories xs) a.category in
    first
    ∙ (elim (Bool-cases (includes (categories xs) a.category)) [
      | inl there ↦
          rw (known, there) (append-nil _ ∙ same ∙ ap (map (group_of next)) (sym (append-nil old)))
      | inr fresh ↦
          let own : next a.category ≡ a ∷ [] =
            in_category-concat xs a a.category
            ∙ rw (eq_refl a.category, none_in xs a.category fresh) refl in
          rw (known, fresh)
            (ap (λ t. t ++ alone) same
              ∙ ap
                  (λ t.
                    map (group_of next) old ++ record { category = a.category; amenities = t } ∷ [])
                  (sym own)
              ∙ sym (map-append (group_of next) old (a.category ∷ [])))
    ])
    ∙ ap (map (group_of next)) (sym names)

fill_buckets-by_category :
    (xs ys : List Amenity) → fill_buckets (by_category xs) ys ≡ by_category (xs ++ ys)
unfolding fill_buckets
fill_buckets-by_category xs [] = ap by_category (sym (append-nil xs))
fill_buckets-by_category xs (y ∷ ys) =
    ap (λ g. fill_buckets g ys) (into_bucket-by_category y xs)
    ∙ fill_buckets-by_category (xs ++ y ∷ []) ys
    ∙ ap by_category (append_assoc xs (y ∷ []) ys)

-- The loop over the amenities makes one group of each category, in the order in which the categories
-- first come, and each group holds the amenities of its category in their order.
pub grouped-by_category : (amenities : List Amenity) → grouped amenities ≡ by_category amenities
unfolding grouped dedupe
grouped-by_category amenities = fill_buckets-by_category [] amenities
