-- ===== src/Deploys/Order.antt =====
-- apps/deploys/models.py: `deploy` always has its processes, and runs them in the order of priority.
use projects_backend.Base.{
  ltb, leb, if◌then◌else◌, Bool-cases, is_some, mem, filter, ℕ, ◌+◌, ◌≤◌, ◌≡◌, refl, sym, ◌∙◌, inl,
  inr, Bool, true, not, ◌&&◌, Option, none, some, List, [], ◌∷◌, map, arith,
}
use projects_backend.Deploys.{
  DeployTask, Process, Environment, find_task, kept_tasks, upsert_all, names, recreate_processes,
  status, stored, is_failure, same_version, is_rested, is_to_run, cons_if, get_processes_to_run,
  insert_process, sort_by_priority, run_all, deploy,
}
use projects_backend.Deploys.Recreate.{mem-find_task}

-- Each row has a task.
abbrev HasTasks : List DeployTask → List Process → Type 0
HasTasks ts [] = Unit {0}
HasTasks ts (p ∷ ps) = (is_some (find_task p.task_name ts) ≡ true) × HasTasks ts ps

filter-HasTasks :
    (ts : List DeployTask) (ps : List Process)
    → HasTasks ts (filter (λ p. mem p.task_name (names ts)) ps)
filter-HasTasks ts [] = tt
filter-HasTasks ts (p ∷ ps) = elim (Bool-cases (mem p.task_name (names ts))) [
  | inl e ↦ rw e (sym (mem-find_task p.task_name ts) ∙ e, filter-HasTasks ts ps)
  | inr e ↦ rw e (filter-HasTasks ts ps)
]

recreate-HasTasks :
    (ts : List DeployTask) (ps : List Process) → HasTasks ts (recreate_processes ts ps)
unfolding recreate_processes
recreate-HasTasks ts ps = filter-HasTasks ts (upsert_all ts ps)

pub is_rested_total :
    (env : Environment) (t : Option DeployTask) (last : Option ℕ)
    → is_some t ≡ true
    → (b : Bool) × (is_rested env t last ≡ some b)
is_rested_total env t none h = (true, refl)
is_rested_total env none (some last) h = cc
is_rested_total env (some t) (some last) h = (ltb (last + t.sleep_time) env.now, refl)

is_to_run_total :
    (env : Environment) (ts : List DeployTask) (p : Process)
    → is_some (find_task p.task_name ts) ≡ true
    → (b : Bool) × (is_to_run env ts p ≡ some b)
is_to_run_total env ts p h = elim (Bool-cases (is_failure (status env p))) [
  | inl e ↦ (true, rw e)
  | inr e ↦
      let (b, rested) = is_rested_total env (find_task p.task_name ts) p.last_run h in
      (b && not (same_version p.last_run_version env.version), rw (e, rested))
]

get_processes_to_run_total :
    (env : Environment) (ts : List DeployTask) (ps : List Process)
    → HasTasks ts ps
    → (todo : List Process) × (get_processes_to_run env ts ps ≡ some todo)
unfolding get_processes_to_run
get_processes_to_run_total env ts [] h = ([], refl)
get_processes_to_run_total env ts (p ∷ ps) (first, h) =
    let (b, e) = is_to_run_total env ts p first in
    let (rest, more) = get_processes_to_run_total env ts ps h in (cons_if b p rest, rw (e, more))

abbrev pub IsSorted : List Process → Type 0
IsSorted [] = Unit {0}
IsSorted (p ∷ []) = Unit {0}
IsSorted (p ∷ q ∷ ps) = (p.priority ≤ q.priority) × IsSorted (q ∷ ps)

-- how many of the rows pass a test
abbrev pub count_rows : (Process → Bool) → List Process → ℕ
count_rows f [] = 0
count_rows f (p ∷ ps) = (if f p then 1 else 0) + count_rows f ps

insert-IsSorted : (p : Process) (ps : List Process) → IsSorted ps → IsSorted (insert_process p ps)
insert-IsSorted p [] s = tt
insert-IsSorted p (q ∷ []) s = ground arith
insert-IsSorted p (q ∷ r ∷ ps) (le, s) = elim (Bool-cases (leb p.priority q.priority)) [
  | inl e ↦ rw e (ground arith, (le, s))
  | inr e ↦ rw e (elim (Bool-cases (leb p.priority r.priority)) [
    | inl f ↦ rw f (ground arith, (ground arith, s))
    | inr f ↦ let rest = insert-IsSorted p (r ∷ ps) s in rw f (le, (rw f at rest))
  ])
]

insert-count :
    (f : Process → Bool) (p : Process) (ps : List Process)
    → count_rows f (insert_process p ps) ≡ count_rows f (p ∷ ps)
insert-count f p [] = refl
insert-count f p (q ∷ ps) = elim (Bool-cases (leb p.priority q.priority)) [
  | inl e ↦ rw e
  | inr e ↦ rw e (omega (arith, insert-count f p ps))
]

sort-IsSorted : (ps : List Process) → IsSorted (sort_by_priority ps)
sort-IsSorted [] = tt
sort-IsSorted (p ∷ ps) = insert-IsSorted p (sort_by_priority ps) (sort-IsSorted ps)

sort-count :
    (f : Process → Bool) (ps : List Process) → count_rows f (sort_by_priority ps) ≡ count_rows f ps
sort-count f [] = refl
sort-count f (p ∷ ps) = insert-count f p (sort_by_priority ps) ∙ omega (arith, sort-count f ps)

-- `deploy` finds a task for each of its rows, so that it never raises `KeyError`. What it runs are the
-- very rows that `get_processes_to_run` selects from the recreated ones, with their priorities and each
-- as often as it is selected, in the order of the priorities; the rows afterwards are what running
-- them in this order leaves.
pub deploy-IsSorted :
    (env : Environment) (all_tasks : List DeployTask) (ps : List Process)
    → (ran : List Process) × (deploy env all_tasks ps
        ≡ some (
          map (λ p. p.task_name) ran,
          run_all env
              (kept_tasks env all_tasks)
              ran
              (map (stored env) (recreate_processes (kept_tasks env all_tasks) ps)),
        ))
      × IsSorted ran
      × ((todo : List Process) × (get_processes_to_run env
              (kept_tasks env all_tasks)
              (recreate_processes (kept_tasks env all_tasks) ps)
            ≡ some todo)
          × ((f : Process → Bool) → count_rows f ran ≡ count_rows f todo))
unfolding deploy
deploy-IsSorted env all_tasks ps =
    let tasks = kept_tasks env all_tasks in
    let rows = recreate_processes tasks ps in
    let (todo, e) = get_processes_to_run_total env tasks rows (recreate-HasTasks tasks ps) in
    (sort_by_priority todo, rw e, sort-IsSorted todo, (todo, e, λ f. sort-count f todo))
