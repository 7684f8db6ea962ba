-- ===== src/Pagination/Tests.antt =====
-- Pages and sort orders of concrete inputs.
use real_estate_platform.Base.{◌≡◌, refl, some, [], ◌∷◌, trim}
use real_estate_platform.Base.Int.{pos, negsuc}
use real_estate_platform.Pagination.{
  PaginationInput, ParsedSort, desc, normalize_pagination, build_pagination_meta, ceil_div,
  parse_sort, parse_given,
}

-- Page -2, limit 500.
abbrev odd : PaginationInput
odd = record { page = some (negsuc 1); limit = some (pos 500) }

abbrev newest : ParsedSort
newest = record { field = "createdAt"; direction = desc }

by_name :
    parse_sort (some " -name") ("name" ∷ []) newest ≡ record { field = "name"; direction = desc }
unfolding parse_sort parse_given trim
by_name = refl

three_pages : (build_pagination_meta (pos 250) odd).total_pages ≡ 3
unfolding build_pagination_meta normalize_pagination ceil_div
three_pages = refl
