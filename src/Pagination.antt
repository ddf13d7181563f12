-- ===== src/Pagination.antt =====
-- apps/commons/pagination.py: the page numbers that a limit/offset response reports.
pub mod Pages
mod Tests
use projects_backend.Base.{◌==◌, if◌then◌else◌, ℕ, ◌+◌, ◌-◌, ◌*◌, ◌/◌, ◌%◌, Option, none, some}
use projects_backend.Base.Int.{ℤ, sub_ℕ}

-- What django-rest-framework's `LimitOffsetPagination` leaves on the paginator: the total number of
-- items, and the limit and offset of the request. It answers no request whose limit is 0.
pub record PageInfo : Type 0 where
  pub count : ℕ
  pub limit : ℕ
  pub offset : ℕ

pub get_current_page : PageInfo → ℕ
get_current_page p = p.offset / p.limit + 1

-- `-(-count // limit)`: Python's floor division of a negative number makes this round up
pub get_total_page : PageInfo → ℕ
get_total_page p = if p.count % p.limit == 0 then p.count / p.limit else p.count / p.limit + 1

pub get_next_page : PageInfo → Option ℕ
get_next_page p =
    let current = get_current_page p in
    if current == get_total_page p then none else some (current + 1)

pub get_previous_page : PageInfo → Option ℕ
get_previous_page p =
    let current = get_current_page p in if current == 1 then none else some (current - 1)

-- the offset in the link to the last page
pub get_last : PageInfo → ℤ
get_last p = sub_ℕ (get_total_page p * p.limit) p.limit

-- the offset in the link to the first page
get_first : PageInfo → ℕ
get_first p = 0
