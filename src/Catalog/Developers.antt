-- ===== src/Catalog/Developers.antt =====
-- apps/api-core/src/modules/developers/developers.service.ts.
use Prim.Native.String.{◌++◌}
use real_estate_platform.Base.{
  text_is, ℕ, Bool, true, false, not, ◌&&◌, Option, String, ◌==◌, ltb, or_else, is_some,
  if◌then◌else◌,
}
use real_estate_platform.Errors.{Thrown, not_found_error, developer_not_found}
use real_estate_platform.Exec.{Exec, query, or_throw, pure, ◌>>=◌, ◌>>◌}
use real_estate_platform.Schema.{Developer, Compound, PropertyIndex}
use real_estate_platform.Table.Checks.{require}
use real_estate_platform.Platform.{Platform, World}
use real_estate_platform.Slug.{Unicode, build_unique_slug}
use real_estate_platform.Identifier.{is_uuid}
use real_estate_platform.Catalog.{
  is_developer, first_given, given_or_kept, is_taken, new_slug, on_developers, invalidate,
}

pub record CreateDeveloperDto : Type 0 where
  pub name : String
  pub name_ar : String
  pub slug : Option String
  pub logo_url : Option String
  pub cover_url : Option String
  pub description_en : Option String
  pub description_ar : Option String
  pub founded_year : Option ℕ
  pub website : Option String
  pub phone : Option String
  pub is_featured : Option Bool
  pub is_active : Option Bool

-- `PartialType(CreateDeveloperDto)`: the two names may be left out too.
pub record UpdateDeveloperDto : Type 0 where
  pub name : Option String
  pub name_ar : Option String
  pub slug : Option String
  pub logo_url : Option String
  pub cover_url : Option String
  pub description_en : Option String
  pub description_ar : Option String
  pub founded_year : Option ℕ
  pub website : Option String
  pub phone : Option String
  pub is_featured : Option Bool
  pub is_active : Option Bool

pub record DeveloperDetail : Type 0 where
  pub developer : Developer
  pub compound_count : ℕ
  pub property_count : ℕ

abbrev pub developer_missing : String → Thrown
developer_missing id =
    not_found_error ("Developer \"" ++ (id ++ "\" was not found")) developer_not_found

abbrev pub has_slug : String → Developer → Bool
has_slug slug d = d.slug == slug

abbrev pub has_slug_elsewhere : String → String → Developer → Bool
has_slug_elsewhere id slug d = d.slug == slug && not (d.id == id)

abbrev pub built_by : String → Compound → Bool
built_by developer_id c = c.developer_id == developer_id

-- `{ developerId, isActive: true }`.
abbrev pub is_active_of : String → Compound → Bool
is_active_of developer_id c = c.developer_id == developer_id && c.is_active

abbrev pub is_listed_of : String → PropertyIndex → Bool
is_listed_of developer_id r = text_is r.developer_id developer_id && not (is_some r.deleted_at)

unfoldable pub new_developer : CreateDeveloperDto → String → String → Developer
new_developer dto id slug = record {
  id = id;
  slug = slug;
  name = dto.name;
  name_ar = dto.name_ar;
  logo_url = dto.logo_url;
  cover_url = dto.cover_url;
  description_en = dto.description_en;
  description_ar = dto.description_ar;
  founded_year = dto.founded_year;
  website = dto.website;
  phone = dto.phone;
  projects_count = 0;
  is_featured = or_else dto.is_featured false;
  is_active = or_else dto.is_active true;
}

unfoldable pub apply_developer : Option String → UpdateDeveloperDto → Developer → Developer
apply_developer slug dto d = record d {
  slug = or_else slug d.slug;
  name = or_else dto.name d.name;
  name_ar = or_else dto.name_ar d.name_ar;
  logo_url = given_or_kept dto.logo_url d.logo_url;
  cover_url = given_or_kept dto.cover_url d.cover_url;
  description_en = given_or_kept dto.description_en d.description_en;
  description_ar = given_or_kept dto.description_ar d.description_ar;
  founded_year = given_or_kept dto.founded_year d.founded_year;
  website = given_or_kept dto.website d.website;
  phone = given_or_kept dto.phone d.phone;
  is_featured = or_else dto.is_featured d.is_featured;
  is_active = or_else dto.is_active d.is_active;
}

abbrev pub set_projects_count : ℕ → Developer → Developer
set_projects_count n d = record d { projects_count = n }

module _ (p : Platform) where
  unfoldable pub ensure_exists : String → Exec (World p) (Unit {0})
  ensure_exists id =
      require p.developers (λ w. w.developers) (is_developer id) (developer_missing id)

  unfoldable pub find_one : String → Exec (World p) DeveloperDetail
  find_one id_or_slug = do
    found ← query (λ w.
        p.developers.find_first
          (if is_uuid id_or_slug then is_developer id_or_slug else has_slug id_or_slug)
          w.developers)
    developer ← or_throw found (developer_missing id_or_slug)
    compound_count ← query (λ w. p.compounds.count (is_active_of developer.id) w.compounds)
    property_count ←
        query (λ w. p.property_index.count (is_listed_of developer.id) w.property_index)
    pure (record {
      developer = developer;
      compound_count = compound_count;
      property_count = property_count;
    })

  unfoldable pub create : Unicode → CreateDeveloperDto → String → ℕ → ℕ → Exec (World p) Developer
  create u dto id fuel now = do
    slug ←
        build_unique_slug (is_taken p.developers (λ w. w.developers) has_slug) u
          (or_else dto.slug dto.name) "developer" now
    developer ← on_developers p (p.developers.create (new_developer dto id slug))
    invalidate p fuel now
    pure developer

  unfoldable pub update : Unicode → String → UpdateDeveloperDto → ℕ → ℕ → Exec (World p) Developer
  update u id dto fuel now = do
    ensure_exists id
    slug ←
        new_slug (is_taken p.developers (λ w. w.developers) (has_slug_elsewhere id)) u
          (first_given dto.slug dto.name) "developer" now
    developer ← on_developers p (p.developers.update (is_developer id) (apply_developer slug dto))
    invalidate p fuel now
    pure developer

  -- `if (compounds > 0) { … } else { … }`.
  unfoldable pub deactivate_or_delete : Bool → String → Exec (World p) Developer
  deactivate_or_delete true id =
      on_developers p (p.developers.update (is_developer id) (λ d. record d { is_active = false }))
  deactivate_or_delete false id = on_developers p (p.developers.delete (is_developer id))

  unfoldable pub remove : String → ℕ → ℕ → Exec (World p) String
  remove id fuel now = do
    ensure_exists id
    compounds ← query (λ w. p.compounds.count (built_by id) w.compounds)
    deactivate_or_delete (ltb 0 compounds) id
    invalidate p fuel now
    pure id

  unfoldable pub sync_projects_count : String → ℕ → ℕ → Exec (World p) ℕ
  sync_projects_count developer_id fuel now = do
    projects_count ← query (λ w. p.compounds.count (is_active_of developer_id) w.compounds)
    on_developers p
        (p.developers.update (is_developer developer_id) (set_projects_count projects_count))
    invalidate p fuel now
