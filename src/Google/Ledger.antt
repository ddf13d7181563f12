-- ===== src/Google/Ledger.antt =====
-- services/google/models.py: `GoogleSyncErrors` and `update_or_create_error`, which is the same code in
-- `GoogleAccount` and `GoogleGroup`.
pub mod Counts
use projects_backend.Base.{
  ◌==◌, if◌then◌else◌, ℕ, zero, suc, ◌+◌, Bool, true, false, not, ◌&&◌, Option, none, some, List,
  [], ◌∷◌,
}

-- the account of a user, or the group of a people group
pub data Owner : Type 0 where
  account group : ℕ → Owner

pub data OnTask : Type 0 where
  create_user update_user suspend_user user_alias sync_groups : OnTask
  create_group update_group group_alias sync_members : OnTask

abbrev pub task_index : OnTask → ℕ
task_index create_user = 0
task_index update_user = 1
task_index suspend_user = 2
task_index user_alias = 3
task_index sync_groups = 4
task_index create_group = 5
task_index update_group = 6
task_index group_alias = 7
task_index sync_members = 8

abbrev pub same_task : OnTask → OnTask → Bool
same_task a b = task_index a == task_index b

abbrev pub same_owner : Owner → Owner → Bool
same_owner (account i) (account j) = i == j
same_owner (group i) (group j) = i == j
same_owner _ _ = false

pub record ErrorRow : Type 0 where
  pub owner : Owner
  pub on_task : OnTask
  pub error : ℕ
  pub retries_count : ℕ
  pub solved : Bool

-- the rows of the lookup in `update_or_create_error`
abbrev pub is_open : Owner → OnTask → ErrorRow → Bool
is_open o t r = not r.solved && same_owner o r.owner && same_task t r.on_task

abbrev pub open_count : Owner → OnTask → List ErrorRow → ℕ
open_count o t [] = 0
open_count o t (r ∷ rs) = (if is_open o t r then 1 else 0) + open_count o t rs

-- `error is None`
abbrev is_none : Option ℕ → Bool
is_none none = true
is_none (some e) = false

abbrev error_or : ℕ → Option ℕ → ℕ
error_or old none = old
error_or old (some e) = e

-- the row that is created, with the default error ""
abbrev pub new_row : Owner → OnTask → Option ℕ → ErrorRow
new_row o t e = record {
  owner = o;
  on_task = t;
  error = error_or 0 e;
  retries_count = 0;
  solved = is_none e;
}

-- the row that is updated, and its `retries_count += 1`
abbrev settle : Option ℕ → ErrorRow → ErrorRow
settle e r = record r {
  error = error_or r.error e;
  retries_count = r.retries_count + 1;
  solved = is_none e;
}

abbrev pub settle_first : Owner → OnTask → Option ℕ → List ErrorRow → List ErrorRow
settle_first o t e [] = []
settle_first o t e (r ∷ rs) =
    let rest = settle_first o t e rs in if is_open o t r then settle e r ∷ rs else r ∷ rest

abbrev pub solve_all : Owner → OnTask → List ErrorRow → List ErrorRow
solve_all o t [] = []
solve_all o t (r ∷ rs) =
    (if is_open o t r then record r { solved = true } else r) ∷ solve_all o t rs

-- `errors.exclude(id=errors.first().id).update(solved=True)`; the rows are kept newest first, as
-- `Meta.ordering` has them
abbrev pub solve_others : Owner → OnTask → List ErrorRow → List ErrorRow
solve_others o t [] = []
solve_others o t (r ∷ rs) =
    let rest = solve_others o t rs in if is_open o t r then r ∷ solve_all o t rs else r ∷ rest

-- How a call ends; after `MultipleObjectsReturned` the test of `created` finds no value.
pub data Ending : Type 0 where
  returned unbound_created out_of_calls : Ending

abbrev pub after_multiple : Ending → Ending
after_multiple returned = unbound_created
after_multiple unbound_created = unbound_created
after_multiple out_of_calls = out_of_calls

-- The first argument bounds the calls of the function by itself.
unfoldable pub update_or_create_error :
    ℕ → Owner → OnTask → Option ℕ → List ErrorRow → Ending × List ErrorRow
update_or_create_error zero o t e rows = (out_of_calls, rows)
update_or_create_error (suc calls) o t e rows =
    let again = update_or_create_error calls o t e (solve_others o t rows) in
    if open_count o t rows == 0
    then (returned, new_row o t e ∷ rows)
    else (if open_count o t rows == 1
        then (returned, settle_first o t e rows)
        else (after_multiple again.0, again.1))
