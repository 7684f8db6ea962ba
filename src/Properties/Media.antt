-- ===== src/Properties/Media.antt =====
-- apps/api-core/src/modules/properties/properties.service.ts: the pictures of a listing.
use Prim.Native.String.{◌++◌}
use real_estate_platform.Base.{
  ℕ, ◌+◌, Bool, true, false, Option, none, some, List, [], ◌∷◌, String, ◌==◌, any, map, or_else,
  if◌then◌else◌,
}
use real_estate_platform.Listing.{PropertyImage, PropertyMedia}
use real_estate_platform.Slug.{is_empty, take_chars}

-- What the platform gives: the host and the path of a text that is a URL, and the digest of a text.
pub record Web : Type 0 where
  pub parse_url : String → Option (String × String)
  pub sha1_hex : String → String

pub record PropertyImageDto : Type 0 where
  pub url : String
  pub key : Option String
  pub width : Option ℕ
  pub height : Option ℕ
  pub is_primary : Option Bool
  pub order : Option ℕ

pub record FloorPlanDto : Type 0 where
  pub url : String
  pub label : Option String

pub record MediaDto : Type 0 where
  pub images : Option (List PropertyImageDto)
  pub floor_plans : Option (List FloorPlanDto)
  pub video_url : Option String
  pub tour_url : Option String

-- `.replace(/^\/+/, '')`.
unfoldable pub trim_slashes : String → String
trim_slashes String.[] = ""
trim_slashes (String.◌∷◌ c s) = if String.◌∷◌ c "" == "/" then trim_slashes s else String.◌∷◌ c s

abbrev or_image : String → String
or_image path = if is_empty path then "image" else path

abbrev pub listed {ℓ} : {A : Type ℓ} → Option (List A) → List A
listed none = []
listed (some xs) = xs

-- A boolean that is left out is false.
abbrev pub is_true : Option Bool → Bool
is_true none = false
is_true (some b) = b

-- `images[0].isPrimary = true`.
abbrev pub promote_first : List PropertyImage → List PropertyImage
promote_first [] = []
promote_first (image ∷ images) = record image { is_primary = true } ∷ images

abbrev pub primary : PropertyImage → Bool
primary image = image.is_primary

unfoldable pub with_primary : List PropertyImage → List PropertyImage
with_primary images = if any primary images then images else promote_first images

module _ (web : Web) where
  unfoldable pub key_of_url : String → Option (String × String) → String
  unfolding trim_slashes take_chars
  key_of_url url none = "external/" ++ web.sha1_hex url
  key_of_url url (some (host, pathname)) =
      take_chars 400 ("external/" ++ (host ++ ("/" ++ or_image (trim_slashes pathname))))

  unfoldable pub derive_media_key : String → String
  unfolding key_of_url
  derive_media_key url = key_of_url url (web.parse_url url)

  unfoldable pub to_image : PropertyImageDto → ℕ → PropertyImage
  unfolding derive_media_key
  to_image image index = record {
    url = image.url;
    key = or_else image.key (derive_media_key image.url);
    width = or_else image.width 1600;
    height = or_else image.height 900;
    is_primary = is_true image.is_primary;
    order = or_else image.order index;
  }

  -- `.map((image, index) => …)`, from an index on.
  unfoldable pub to_images : ℕ → List PropertyImageDto → List PropertyImage
  unfolding to_image
  to_images index [] = []
  to_images index (image ∷ images) = to_image image index ∷ to_images (index + 1) images

  unfoldable pub normalize_media : Option MediaDto → PropertyMedia
  unfolding to_images with_primary
  normalize_media none = record { images = []; floor_plans = []; video_url = none; tour_url = none }
  normalize_media (some media) = record {
    images = with_primary (to_images 0 (listed media.images));
    floor_plans =
        map (λ plan. record { url = plan.url; label = or_else plan.label "" })
          (listed media.floor_plans);
    video_url = media.video_url;
    tour_url = media.tour_url;
  }
