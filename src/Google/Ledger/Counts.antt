-- ===== src/Google/Ledger/Counts.antt =====
-- services/google/models.py: the unsolved rows of `GoogleSyncErrors`.
use projects_backend.Base.{
  ltb, ◌==◌, if◌then◌else◌, ==_iff, Bool-cases, ℕ, zero, suc, ◌≤◌, ◌<◌, ◌≡◌, refl, sym, ap, subst,
  ◌∙◌, inl, inr, true, false, ◌&&◌, Option, none, some, List, [], ◌∷◌, arith,
}
use projects_backend.Google.Ledger.{after_multiple}
use projects_backend.Google.Ledger.{
  new_row, solve_all, solve_others, update_or_create_error, returned, unbound_created,
}
use projects_backend.Google.Ledger.{
  Owner, OnTask, task_index, same_task, same_owner, ErrorRow, is_open, open_count, settle_first,
  account, group,
}

-- how many unsolved rows an outcome stands for
abbrev pub failures : Option ℕ → ℕ
failures none = 0
failures (some e) = 1

same_task_refl : (t : OnTask) → same_task t t ≡ true
same_task_refl t = (==_iff (task_index t) (task_index t)).1 refl

same_owner_refl : (o : Owner) → same_owner o o ≡ true
same_owner_refl (account i) = (==_iff i i).1 refl
same_owner_refl (group i) = (==_iff i i).1 refl

same_owner_eq : (o o' : Owner) → same_owner o o' ≡ true → o ≡ o'
same_owner_eq (account i) (account j) h = ap account ((==_iff i j).0 h)
same_owner_eq (group i) (group j) h = ap group ((==_iff i j).0 h)
same_owner_eq (account i) (group j) h = cc
same_owner_eq (group i) (account j) h = cc

-- Two pairs of an owner and a task differ.
abbrev pub Differ : Owner → OnTask → Owner → OnTask → Type 0
Differ o t o' t' = (same_owner o o' && same_task t t') ≡ false

open_other :
    (o o' : Owner) (t t' : OnTask) (r : ErrorRow)
    → Differ o t o' t'
    → is_open o t r ≡ true
    → (same_owner o' r.owner && same_task t' r.on_task) ≡ false
open_other o o' t t' r d h = elim (Bool-cases (same_owner o' r.owner && same_task t' r.on_task)) [
  | inr e ↦ e
  | inl both ↦
      let e : o ≡ r.owner = same_owner_eq o r.owner (ground arith) in
      let e' : o' ≡ r.owner = same_owner_eq o' r.owner (ground arith) in
      let owners : same_owner o o' ≡ true =
        subst (λ z. same_owner o z ≡ true) (e ∙ sym e') (same_owner_refl o) in
      let tasks : same_task t t' ≡ true = ground arith in absurd (ground arith)
]

settle_first-count :
    (o : Owner) (t : OnTask) (e : Option ℕ) (rows : List ErrorRow)
    → open_count o t rows ≡ 1
    → open_count o t (settle_first o t e rows) ≡ failures e
settle_first-count o t e [] h = absurd (omega arith)
settle_first-count o t none (r ∷ rs) h = ground (arith, settle_first-count o t none rs)
settle_first-count o t (some e) (r ∷ rs) h = ground (arith, settle_first-count o t (some e) rs)

solve_all-count :
    (o : Owner) (t : OnTask) (rows : List ErrorRow) → open_count o t (solve_all o t rows) ≡ 0
solve_all-count o t [] = refl
solve_all-count o t (r ∷ rs) = ground (arith, solve_all-count o t rs)

solve_others-count :
    (o : Owner) (t : OnTask) (rows : List ErrorRow)
    → 0 < open_count o t rows
    → open_count o t (solve_others o t rows) ≡ 1
solve_others-count o t [] h = absurd (omega arith)
solve_others-count o t (r ∷ rs) h =
    ground (arith, solve_all-count o t rs, solve_others-count o t rs)

module _ (o o' : Owner) (t t' : OnTask) (d : Differ o t o' t') where
  settle_first-others :
      (e : Option ℕ) (rows : List ErrorRow)
      → open_count o' t' (settle_first o t e rows) ≡ open_count o' t' rows
  settle_first-others e [] = refl
  settle_first-others e (r ∷ rs) = elim (Bool-cases (is_open o t r)) [
    | inl open_row ↦ rw open_row (ground (arith, open_other o o' t t' r d open_row))
    | inr other ↦ rw other (ground (arith, settle_first-others e rs))
  ]

  solve_all-others :
      (rows : List ErrorRow) → open_count o' t' (solve_all o t rows) ≡ open_count o' t' rows
  solve_all-others [] = refl
  solve_all-others (r ∷ rs) = elim (Bool-cases (is_open o t r)) [
    | inl open_row ↦
        rw open_row (ground (arith, open_other o o' t t' r d open_row, solve_all-others rs))
    | inr other ↦ rw other (ground (arith, solve_all-others rs))
  ]

  solve_others-others :
      (rows : List ErrorRow) → open_count o' t' (solve_others o t rows) ≡ open_count o' t' rows
  solve_others-others [] = refl
  solve_others-others (r ∷ rs) = elim (Bool-cases (is_open o t r)) [
    | inl open_row ↦ rw open_row (ground (arith, solve_all-others rs))
    | inr other ↦ rw other (ground (arith, solve_others-others rs))
  ]

  new_row-others :
      (e : Option ℕ) (rows : List ErrorRow)
      → open_count o' t' (new_row o t e ∷ rows) ≡ open_count o' t' rows
  new_row-others e rows =
      let key : is_open o t (new_row o t (some 0)) ≡ true =
        ground (arith, same_owner_refl o, same_task_refl t) in
      let other = open_other o o' t t' (new_row o t (some 0)) d key in ground (arith, other)

  one_call-others :
      (calls : ℕ) (e : Option ℕ) (rows : List ErrorRow)
      → open_count o' t' (update_or_create_error calls o t e rows).1 ≡ open_count o' t' rows
  unfolding update_or_create_error
  one_call-others zero e rows = refl
  one_call-others (suc calls) e rows = elim (Bool-cases (open_count o t rows == 0)) [
    | inl zero_rows ↦ rw zero_rows (new_row-others e rows)
    | inr some_rows ↦ elim (Bool-cases (open_count o t rows == 1)) [
      | inl one ↦ rw (some_rows, one) (settle_first-others e rows)
      | inr more ↦
          rw (some_rows, more)
            (one_call-others calls e (solve_others o t rows) ∙ solve_others-others rows)
    ]
  ]

new_row-count :
    (o : Owner) (t : OnTask) (e : Option ℕ) (rows : List ErrorRow)
    → open_count o t rows ≡ 0
    → open_count o t (new_row o t e ∷ rows) ≡ failures e
new_row-count o t none rows h = ground arith
new_row-count o t (some e) rows h = ground (arith, same_owner_refl o, same_task_refl t)

-- With at most one unsolved row one call is enough.
record_single :
    (calls : ℕ) (o : Owner) (t : OnTask) (e : Option ℕ) (rows : List ErrorRow)
    → open_count o t rows ≤ 1
    → ((update_or_create_error (suc calls) o t e rows).0 ≡ returned)
      × (open_count o t (update_or_create_error (suc calls) o t e rows).1 ≡ failures e)
unfolding update_or_create_error
record_single calls o t e rows h = elim (Bool-cases (open_count o t rows == 0)) [
  | inl zero_rows ↦ rw zero_rows (refl, new_row-count o t e rows (ground arith))
  | inr some_rows ↦
      let one : (open_count o t rows == 1) ≡ true = ground arith in
      rw (some_rows, one) (refl, settle_first-count o t e rows (ground arith))
]

record_multiple :
    (calls : ℕ) (o : Owner) (t : OnTask) (e : Option ℕ) (rows : List ErrorRow)
    → 1 < open_count o t rows
    → ((update_or_create_error (suc (suc calls)) o t e rows).0 ≡ unbound_created)
      × (open_count o t (update_or_create_error (suc (suc calls)) o t e rows).1 ≡ failures e)
unfolding update_or_create_error
record_multiple calls o t e rows h =
    let some_rows : (open_count o t rows == 0) ≡ false = ground arith in
    let more : (open_count o t rows == 1) ≡ false = ground arith in
    let left = solve_others-count o t rows (omega arith) in
    let again = record_single calls o t e (solve_others o t rows) (omega (arith, left)) in
    rw (some_rows, more) (ap after_multiple again.0, again.1)

-- `update_or_create_error`, when it may call itself once: afterwards exactly the outcome is open, an
-- error as one unsolved row and a success as none, and the unsolved rows of any other owner or task
-- are as many as before. It returns where at most one row was unsolved; where there were more it does
-- the same to the rows and then raises `UnboundLocalError` (the test of `created`).
pub record_outcome :
    (calls : ℕ) (o : Owner) (t : OnTask) (e : Option ℕ) (rows : List ErrorRow)
    → 2 ≤ calls
    → (open_count o t (update_or_create_error calls o t e rows).1 ≡ failures e)
      × ((o' : Owner) (t' : OnTask)
          → Differ o t o' t'
          → open_count o' t' (update_or_create_error calls o t e rows).1 ≡ open_count o' t' rows)
      × ((update_or_create_error calls o t e rows).0
          ≡ (if ltb 1 (open_count o t rows) then unbound_created else returned))
record_outcome zero o t e rows h = absurd (omega arith)
record_outcome (suc zero) o t e rows h = absurd (omega arith)
record_outcome (suc (suc calls)) o t e rows h = elim (Bool-cases (ltb 1 (open_count o t rows))) [
  | inl more ↦
      let (ending, left) = record_multiple calls o t e rows (ground arith) in
      (left, λ o' t' d. one_call-others o o' t t' d (suc (suc calls)) e rows, rw more ending)
  | inr few ↦
      let (ending, left) = record_single (suc calls) o t e rows (ground arith) in
      (left, λ o' t' d. one_call-others o o' t t' d (suc (suc calls)) e rows, rw few ending)
]
