-- ===== src/Pagination/Pages.antt =====
-- apps/commons/pagination.py: the page numbers count the items.
use projects_backend.Base.{ℕ, ◌+◌, ◌*◌, ◌≤◌, ◌<◌, ◌≡◌, sym, ap, ◌∙◌, ◌≢◌, none, some, arith}
use native.Mathlib.Nat.{mod-lt, div-add-mod', mul-div_cancel}
use projects_backend.Pagination.{get_current_page, get_next_page, PageInfo, get_total_page}

-- With a positive limit, the pages reported by `get_total_page` hold all the items, and one page
-- less would not hold them.
total_page_bounds :
    (p : PageInfo)
    → 0 < p.limit
    → (p.count ≤ get_total_page p * p.limit) × (get_total_page p * p.limit < p.count + p.limit)
unfolding get_total_page
total_page_bounds p h = grind (arith, mod-lt p.count h, div-add-mod' p.count p.limit)

-- What is left of the bounds after a comparison of page numbers.
lt_of_mul_lt : (a b n : ℕ) → a * n < b * n → a < b
lt_of_mul_lt a b n h = grind arith

-- `get_total_page` is the only number of pages that holds the items with no page to spare.
total_page_unique :
    (p : PageInfo) (k : ℕ)
    → 0 < p.limit
    → k * p.limit < p.count
    → p.count ≤ k * p.limit + p.limit
    → get_total_page p ≡ k + 1
total_page_unique p k h lo hi =
    let b = total_page_bounds p h in
    let up = lt_of_mul_lt (get_total_page p) (k + 2) p.limit (omega (arith, b.1)) in
    let down = lt_of_mul_lt k (get_total_page p) p.limit (omega (arith, b.0)) in
    omega (arith, up, down)

current_page_of :
    (p : PageInfo) (k : ℕ) → 0 < p.limit → p.offset ≡ k * p.limit → get_current_page p ≡ k + 1
unfolding get_current_page
current_page_of p k h e = rw (e, mul-div_cancel k h)

next_page_last : (p : PageInfo) → get_current_page p ≡ get_total_page p → get_next_page p ≡ none
unfolding get_next_page
next_page_last p e = ground arith

next_page_more :
    (p : PageInfo)
    → get_current_page p ≢ get_total_page p
    → get_next_page p ≡ some (get_current_page p + 1)
unfolding get_next_page
next_page_more p e = ground arith

-- On page `k` of a limit that is positive, where the page begins below the number of items: the next
-- page is none exactly when this page reaches the end, and else it is page `k + 2` (pages count from
-- one), which exists.
pub next_page_reaches :
    (p : PageInfo) (k : ℕ)
    → 0 < p.limit
    → p.offset ≡ k * p.limit
    → p.offset < p.count
    → (p.count ≤ p.offset + p.limit → get_next_page p ≡ none)
      × (p.offset + p.limit < p.count
          → (get_next_page p ≡ some (k + 2)) × (k + 2 ≤ get_total_page p))
next_page_reaches p k h e lt =
    let current = current_page_of p k h e in
    let total =
      λ (hi : p.count ≤ p.offset + p.limit). total_page_unique p k h (omega arith) (omega arith) in
    let beyond = λ (more : p.offset + p.limit < p.count).
      lt_of_mul_lt (k + 1) (get_total_page p) p.limit (omega (arith, (total_page_bounds p h).0)) in
    (
      λ hi. next_page_last p (current ∙ sym (total hi)),
      λ more. (
        next_page_more p (λ same. omega (arith, beyond more)) ∙ ap some (omega arith),
        omega (arith, beyond more),
      ),
    )
