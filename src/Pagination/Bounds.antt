-- ===== src/Pagination/Bounds.antt =====
-- apps/api-core/src/common/utils/pagination.ts: bounds of pages, and the fields of sort orders.
use real_estate_platform.Base.{
  ℕ, zero, suc, ◌+◌, ◌-◌, ◌*◌, ◌/◌, ◌%◌, ◌≤◌, ◌<◌, ◌≡◌, refl, Bool, true, false, List, Option, none,
  some, String, ◌=?◌, includes, arith, if◌then◌else◌, trim, given, Bool-cases, inl, inr, ◌⊎◌,
}
use native.Mathlib.Nat.{div-add-mod', mod-lt}
use real_estate_platform.Base.Int.{ℤ, pos}
use real_estate_platform.Pagination.{
  PaginationInput, NormalizedPagination, ParsedSort, normalize_pagination, build_pagination_meta,
  ceil_div, page_of, limit_of, parse_sort, parse_given, allowed_or, without_sign,
}

page_of-bound : (o : Option ℤ) → 1 ≤ page_of o
page_of-bound none = omega arith
page_of-bound (some n) = ground arith

limit_of-bound : (o : Option ℤ) → (1 ≤ limit_of o) × (limit_of o ≤ 100)
limit_of-bound none = (omega arith, omega arith)
limit_of-bound (some n) = (ground arith, ground arith)

-- A page of a listing, as a caller may ask for it in any way.
pub record IsPage (n : NormalizedPagination) : Type 0 where
  pub first : 1 ≤ n.page
  pub some_rows : 1 ≤ n.limit
  pub few_rows : n.limit ≤ 100
  pub start : n.skip + n.limit ≡ n.page * n.limit

page_start : (p l : ℕ) → 1 ≤ p → (p - 1) * l + l ≡ p * l
page_start zero l h = absurd (omega arith)
page_start (suc q) l h = grind arith

-- Whatever page and limit a caller asks for, the page is a proper one: it starts at the first or a
-- later page, has between one and a hundred rows, and begins where the pages before it end.
normalize_pagination-IsPage : (input : PaginationInput) → IsPage (normalize_pagination input)
unfolding normalize_pagination
normalize_pagination-IsPage input = record {
  first = page_of-bound input.page;
  some_rows = (limit_of-bound input.limit).0;
  few_rows = (limit_of-bound input.limit).1;
  start = page_start (page_of input.page) (limit_of input.limit) (page_of-bound input.page);
}

enough : (c l r t : ℕ) → c * l + r ≡ t + (l - 1) → r < l → (t ≤ c * l) × (c * l < t + l)
enough c l r t e h = (omega arith, omega arith)

ceil_div-covers : (t l : ℕ) → 1 ≤ l → (t ≤ ceil_div t l * l) × (ceil_div t l * l < t + l)
unfolding ceil_div
ceil_div-covers t l h =
    enough ((t + (l - 1)) / l) l ((t + (l - 1)) % l) t (div-add-mod' (t + (l - 1)) l)
      (mod-lt (t + (l - 1)) h)

no_rows : (n : ℕ) → (n =? 0) ≡ true → n ≡ 0
no_rows n h = ground arith

pages_cover :
    (n l : ℕ)
    → 1 ≤ l
    → (n ≤ (if n =? 0 then 0 else ceil_div n l) * l)
      × ((if n =? 0 then 0 else ceil_div n l) * l < n + l)
pages_cover n l h = elim (Bool-cases (n =? 0)) [
  | inl empty ↦ let z = no_rows n empty in rw empty (omega arith, omega arith)
  | inr full ↦ rw full (ceil_div-covers n l h)
]

-- The pages that the metadata counts hold every row, and one page fewer would not.
build_pagination_meta-covers :
    (n : ℕ) (input : PaginationInput)
    → let m = build_pagination_meta (pos n) input in
      (n ≤ m.total_pages * m.limit) × (m.total_pages * m.limit < n + m.limit)
unfolding build_pagination_meta normalize_pagination
build_pagination_meta-covers n input =
    pages_cover n (limit_of input.limit) (limit_of-bound input.limit).0

-- A caller sorts by a field of the list or by the default, whatever the text.
parse_sort-allowed :
    (sort : Option String) (allowed : List String) (fallback : ParsedSort)
    → (parse_sort sort allowed fallback ≡ fallback)
      ⊎ (includes allowed (parse_sort sort allowed fallback).field ≡ true)
unfolding parse_sort parse_given
parse_sort-allowed sort allowed fallback = go (given sort)
  where
    chosen :
        (b : Bool) (s : ParsedSort)
        → includes allowed s.field ≡ b
        → (allowed_or b s fallback ≡ fallback)
          ⊎ (includes allowed (allowed_or b s fallback).field ≡ true)
    chosen true s h = inr h
    chosen false s h = inl refl

    go :
        (o : Option String)
        → (parse_given o allowed fallback ≡ fallback)
          ⊎ (includes allowed (parse_given o allowed fallback).field ≡ true)
    go none = inl refl
    go (some text) = chosen (includes allowed (without_sign (trim text))) _ refl
