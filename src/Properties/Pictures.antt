-- ===== src/Properties/Pictures.antt =====
-- The primary picture of a listing.
use real_estate_platform.Base.{
  ℕ, ◌+◌, ◌≡◌, refl, sym, ap, Bool, ◌∙◌, true, false, List, [], ◌∷◌, Option, none, some, any, map,
  arith, if◌then◌else◌, Bool-cases, inl, inr,
}
use real_estate_platform.Listing.{PropertyImage}
use real_estate_platform.Properties.Media.{
  Web, MediaDto, PropertyImageDto, listed, is_true, to_image, to_images, primary, promote_first,
  with_primary, normalize_media,
}

-- The pictures of a request.
abbrev pub requested : Option MediaDto → List PropertyImageDto
requested none = []
requested (some media) = listed media.images

-- Which pictures are primary, from which of them the request marks: the marked ones, or the first
-- where none is marked.
abbrev pub chosen : List Bool → List Bool
chosen [] = []
chosen (m ∷ marks) = (if any (λ x. x) (m ∷ marks) then m else true) ∷ marks

module _ (web : Web) where
  to_images-marks :
      (index : ℕ) (images : List PropertyImageDto)
      → map primary (to_images web index images) ≡ map (λ i. is_true i.is_primary) images
  unfolding to_images to_image
  to_images-marks index [] = refl
  to_images-marks index (i ∷ images) =
      ap (λ t. is_true i.is_primary ∷ t) (to_images-marks (index + 1) images)

  to_images-urls :
      (index : ℕ) (images : List PropertyImageDto)
      → map (λ i. i.url) (to_images web index images) ≡ map (λ i. i.url) images
  unfolding to_images to_image
  to_images-urls index [] = refl
  to_images-urls index (i ∷ images) = ap (λ t. i.url ∷ t) (to_images-urls (index + 1) images)

any-marks : (images : List PropertyImage) → any primary images ≡ any (λ x. x) (map primary images)
any-marks [] = refl
any-marks (i ∷ images) = ground (arith, any-marks images)

marks_kept :
    (images : List PropertyImage)
    → any primary images ≡ true
    → map primary images ≡ chosen (map primary images)
marks_kept [] h = refl
marks_kept (i ∷ images) h =
    ap (λ b. (if b then i.is_primary else true) ∷ map primary images)
      (sym (sym (any-marks (i ∷ images)) ∙ h))

first_marked :
    (images : List PropertyImage)
    → any primary images ≡ false
    → map primary (promote_first images) ≡ chosen (map primary images)
first_marked [] h = refl
first_marked (i ∷ images) h =
    ap (λ b. (if b then i.is_primary else true) ∷ map primary images)
      (sym (sym (any-marks (i ∷ images)) ∙ h))

with_primary-marks :
    (images : List PropertyImage) → map primary (with_primary images) ≡ chosen (map primary images)
unfolding with_primary
with_primary-marks images = elim (Bool-cases (any primary images)) [
  | inl there ↦ rw there (marks_kept images there)
  | inr missing ↦ rw missing (first_marked images missing)
]

promote-urls :
    (images : List PropertyImage)
    → map (λ i. i.url) (promote_first images) ≡ map (λ i. i.url) images
promote-urls [] = refl
promote-urls (i ∷ images) = refl

with_primary-urls :
    (images : List PropertyImage) → map (λ i. i.url) (with_primary images) ≡ map (λ i. i.url) images
unfolding with_primary
with_primary-urls images = elim (Bool-cases (any primary images)) [
  | inl there ↦ rw there refl
  | inr missing ↦ rw missing (promote-urls images)
]

-- The pictures of a listing are those of the request, in order; those are primary that the request
-- marks, all of them, and where it marks none, the first is and no other.
pub normalize_media-primary :
    (web : Web) (media : Option MediaDto)
    → (map (λ i. i.url) (normalize_media web media).images ≡ map (λ i. i.url) (requested media))
      × (map (λ i. i.is_primary) (normalize_media web media).images
          ≡ chosen (map (λ i. is_true i.is_primary) (requested media)))
unfolding normalize_media
normalize_media-primary web none = (refl, refl)
normalize_media-primary web (some media) =
    let images = to_images web 0 (listed media.images) in
    (
      with_primary-urls images ∙ to_images-urls web 0 (listed media.images),
      with_primary-marks images ∙ ap chosen (to_images-marks web 0 (listed media.images)),
    )
