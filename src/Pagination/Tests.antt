-- ===== src/Pagination/Tests.antt =====
-- Runs of the page numbers of apps/commons/pagination.py.
use projects_backend.Base.{◌≤◌, ◌<◌, ◌≡◌, refl, none, some, arith}
use projects_backend.Pagination.{
  PageInfo, get_current_page, get_total_page, get_next_page, get_previous_page, get_last,
}
use projects_backend.Pagination.Pages.{next_page_reaches}
use projects_backend.Base.Int.{negsuc}

abbrev second_page : PageInfo
second_page = record { count = 25; limit = 10; offset = 10 }

abbrev empty_page : PageInfo
empty_page = record { count = 0; limit = 10; offset = 0 }

second_page_links : (get_next_page second_page ≡ some 3) × (get_previous_page second_page ≡ some 1)
unfolding get_next_page get_previous_page get_current_page get_total_page
second_page_links = (refl, refl)

next_page_reaches_test :
    (25 ≤ 20 → get_next_page second_page ≡ none)
    × (20 < 25 → (get_next_page second_page ≡ some 3) × (3 ≤ get_total_page second_page))
next_page_reaches_test = next_page_reaches second_page 1 (omega arith) (omega arith) (omega arith)

-- the numbers of an empty result
empty_page_links :
    (get_total_page empty_page ≡ 0)
    × (get_next_page empty_page ≡ some 2)
    × (get_last empty_page ≡ negsuc 9)
unfolding get_next_page get_current_page get_total_page get_last
empty_page_links = (refl, refl, refl)
