-- ===== src/Pagination.antt =====
-- apps/api-core/src/common/utils/pagination.ts: pages and sort orders. A number of the input is given
-- as the integer that `Math.trunc` makes of it; one that is not finite is `none`.
pub mod Bounds
mod Tests
use Prim.Native.Char.{code}
use real_estate_platform.Base.{
  ℕ, suc, ◌+◌, ◌-◌, ◌*◌, ◌/◌, max, min, Bool, true, false, List, Option, none, some, String, ◌==◌,
  ◌=?◌, includes, trim, if◌then◌else◌, given, ◌||◌,
}
use real_estate_platform.Base.Int.{ℤ, pos, negsuc, pos_part}

abbrev pub default_page : ℕ
default_page = 1

abbrev pub default_page_size : ℕ
default_page_size = 20

abbrev pub max_page_size : ℕ
max_page_size = 100

pub record PaginationInput : Type 0 where
  pub page : Option ℤ
  pub limit : Option ℤ

pub record NormalizedPagination : Type 0 where
  pub page : ℕ
  pub limit : ℕ
  pub skip : ℕ

-- `Math.max(1, n)` of an integer.
abbrev pub at_least_one : ℤ → ℕ
at_least_one n = max 1 (pos_part n)

abbrev pub page_of : Option ℤ → ℕ
page_of none = default_page
page_of (some n) = at_least_one n

abbrev pub limit_of : Option ℤ → ℕ
limit_of none = min max_page_size (at_least_one (pos default_page_size))
limit_of (some n) = min max_page_size (at_least_one n)

unfoldable pub normalize_pagination : PaginationInput → NormalizedPagination
normalize_pagination input = record {
  page = page_of input.page;
  limit = limit_of input.limit;
  skip = (page_of input.page - 1) * limit_of input.limit;
}

pub record PaginationMeta : Type 0 where
  pub page : ℕ
  pub limit : ℕ
  pub total : ℕ
  pub total_pages : ℕ

-- `Math.ceil(total / limit)` of numbers.
unfoldable pub ceil_div : ℕ → ℕ → ℕ
ceil_div total limit = (total + (limit - 1)) / limit

unfoldable pub build_pagination_meta : ℤ → PaginationInput → PaginationMeta
build_pagination_meta total input = record {
  page = (normalize_pagination input).page;
  limit = (normalize_pagination input).limit;
  total = pos_part total;
  total_pages =
      if pos_part total =? 0
      then 0
      else ceil_div (pos_part total) (normalize_pagination input).limit;
}

pub data SortDirection : Type 0 where
  asc desc : SortDirection

pub record ParsedSort : Type 0 where
  pub field : String
  pub direction : SortDirection

-- `startsWith('-')` and `replace(/^[-+]/, '')`.
abbrev pub direction_of : String → SortDirection
direction_of String.[] = asc
direction_of (String.◌∷◌ c s) = if code c =? 45 then desc else asc

abbrev pub without_sign : String → String
without_sign String.[] = ""
without_sign (String.◌∷◌ c s) = if code c =? 45 || code c =? 43 then s else String.◌∷◌ c s

abbrev pub allowed_or : Bool → ParsedSort → ParsedSort → ParsedSort
allowed_or true sort fallback = sort
allowed_or false sort fallback = fallback

unfoldable pub parse_given : Option String → List String → ParsedSort → ParsedSort
parse_given none allowed fallback = fallback
parse_given (some text) allowed fallback =
    allowed_or (includes allowed (without_sign (trim text)))
      (record { field = without_sign (trim text); direction = direction_of (trim text) }) fallback

-- A text that is left out or empty is no order.
unfoldable pub parse_sort : Option String → List String → ParsedSort → ParsedSort
unfolding parse_given
parse_sort sort allowed fallback = parse_given (given sort) allowed fallback
