-- ===== src/Deploys.antt =====
-- apps/deploys/models.py: `PostDeployProcess`, the tasks that run after a deployment. Outside are the
-- tasks themselves and Celery: `runs` gives how a task ends, and `celery_status` the status of a task
-- that Celery has.
pub mod Recreate
pub mod Rows
pub mod Order
pub mod Again
mod Tests
use projects_backend.Base.{
  ltb, leb, ◌==◌, if◌then◌else◌, mem, filter, ◌>>=?◌, ℕ, ◌+◌, Bool, true, false, not, ◌&&◌, ◌||◌,
  Option, none, some, List, [], ◌∷◌, map,
}

-- `PostDeployProcessStatus`, and what else Celery may answer
pub data ProcessStatus : Type 0 where
  success failure pending nothing started : ProcessStatus

-- a subclass of `PostDeployTask`
pub record DeployTask : Type 0 where
  pub task_name : ℕ
  pub priority : ℕ
  pub run_in_tests : Bool
  pub run_in_celery : Bool
  pub sleep_time : ℕ

-- a row; the empty texts are `none`, and times are in minutes
pub record Process : Type 0 where
  pub task_name : ℕ
  pub priority : ℕ
  pub task_id : Option ℕ
  pub last_run_version : Option ℕ
  pub last_run : Option ℕ
  pub stored_status : ProcessStatus

-- how a task ends: with nothing to wait for, with the identifier of a Celery task, or by raising
pub data TaskEnd : Type 0 where
  done raised : TaskEnd
  queued : ℕ → TaskEnd

pub record Environment : Type 0 where
  pub is_local : Bool
  pub version : ℕ
  pub now : ℕ
  pub runs : (in_celery : Bool) → (task_name : ℕ) → TaskEnd
  pub celery_status : ℕ → ProcessStatus

abbrev pub find_task : ℕ → List DeployTask → Option DeployTask
find_task n [] = none
find_task n (t ∷ ts) = let later = find_task n ts in if t.task_name == n then some t else later

-- `recreate_processes`: the tasks that are left in `_tasks`
abbrev pub kept_tasks : Environment → List DeployTask → List DeployTask
kept_tasks env tasks = if env.is_local then filter (λ t. t.run_in_tests) tasks else tasks

abbrev pub new_process : DeployTask → Process
new_process t = record {
  task_name = t.task_name;
  priority = t.priority;
  task_id = none;
  last_run_version = none;
  last_run = none;
  stored_status = nothing;
}

-- `bulk_create` with `update_conflicts`: the row of a task gets its priority, and a row is inserted
-- where there was none
abbrev pub upsert : DeployTask → List Process → List Process
upsert t [] = new_process t ∷ []
upsert t (p ∷ ps) =
    let rest = upsert t ps in
    if p.task_name == t.task_name then record p { priority = t.priority } ∷ ps else p ∷ rest

abbrev pub upsert_all : List DeployTask → List Process → List Process
upsert_all [] ps = ps
upsert_all (t ∷ ts) ps = upsert_all ts (upsert t ps)

abbrev pub names : List DeployTask → List ℕ
names = map (λ t. t.task_name)

unfoldable pub recreate_processes : List DeployTask → List Process → List Process
recreate_processes tasks ps = filter (λ p. mem p.task_name (names tasks)) (upsert_all tasks ps)

-- The property `status`. It also stores what Celery has answered, as `stored` has it.
abbrev pub status : Environment → Process → ProcessStatus
status env p = elim p.stored_status [
  | nothing ↦ elim p.task_id [ none ↦ nothing | some i ↦ env.celery_status i ]
  | other ↦ other
]

abbrev pub is_final : ProcessStatus → Bool
is_final success = true
is_final failure = true
is_final _ = false

abbrev pub stored : Environment → Process → Process
stored env p = if is_final (status env p) then record p { stored_status = status env p } else p

abbrev pub is_failure : ProcessStatus → Bool
is_failure failure = true
is_failure _ = false

abbrev pub same_version : Option ℕ → ℕ → Bool
same_version none v = false
same_version (some w) v = w == v

-- `not process.last_run or process.last_run < now - sleep_time`; `none` is the `KeyError` of a row
-- without a task
abbrev pub is_rested : Environment → Option DeployTask → Option ℕ → Option Bool
is_rested env t none = some true
is_rested env none (some last) = none
is_rested env (some t) (some last) = some (ltb (last + t.sleep_time) env.now)

abbrev pub is_to_run : Environment → List DeployTask → Process → Option Bool
is_to_run env tasks p =
    if is_failure (status env p)
    then some true
    else (is_rested env (find_task p.task_name tasks) p.last_run >>=? λ rested.
        some (rested && not (same_version p.last_run_version env.version)))

abbrev pub cons_if : Bool → Process → List Process → List Process
cons_if true p ps = p ∷ ps
cons_if false p ps = ps

unfoldable pub get_processes_to_run :
    Environment → List DeployTask → List Process → Option (List Process)
get_processes_to_run env tasks [] = some []
get_processes_to_run env tasks (p ∷ ps) = is_to_run env tasks p >>=? λ b.
    get_processes_to_run env tasks ps >>=? λ rest. some (cons_if b p rest)

-- `sorted(processes, key=priority)`, which is stable
abbrev pub insert_process : Process → List Process → List Process
insert_process p [] = p ∷ []
insert_process p (q ∷ qs) =
    let rest = insert_process p qs in if leb p.priority q.priority then p ∷ q ∷ qs else q ∷ rest

abbrev pub sort_by_priority : List Process → List Process
sort_by_priority [] = []
sort_by_priority (p ∷ ps) = insert_process p (sort_by_priority ps)

abbrev pub ended : TaskEnd → Process → Process
ended done p = record p { stored_status = success }
ended raised p = record p { stored_status = failure }
ended (queued i) p = record p { task_id = some i }

-- `self._tasks[self.task_name]` in the `try`: a row without a task fails
abbrev pub task_end : Environment → Option DeployTask → TaskEnd
task_end env none = raised
task_end env (some t) = env.runs (not (env.is_local || not t.run_in_celery)) t.task_name

-- `run_task`
unfoldable pub run_task : Environment → List DeployTask → Process → Process
run_task env tasks p =
    let q =
      ended (task_end env (find_task p.task_name tasks))
        (record p { stored_status = nothing; last_run = some env.now }) in
    record q { last_run_version = some env.version }

abbrev pub write : (Process → Process) → ℕ → List Process → List Process
write f n = map (λ p. if p.task_name == n then f p else p)

-- the loop of `deploy`, which reads each row anew
abbrev pub run_all : Environment → List DeployTask → List Process → List Process → List Process
run_all env tasks [] ps = ps
run_all env tasks (p ∷ todo) ps = run_all env tasks todo (write (run_task env tasks) p.task_name ps)

-- `deploy`, on a migrated database: the tasks that ran, in order, and the rows
unfoldable pub deploy :
    Environment → List DeployTask → List Process → Option (List ℕ × List Process)
deploy env all_tasks ps =
    let tasks = kept_tasks env all_tasks in
    let rows = recreate_processes tasks ps in
    get_processes_to_run env tasks rows >>=? λ todo. some (
      map (λ p. p.task_name) (sort_by_priority todo),
      run_all env tasks (sort_by_priority todo) (map (stored env) rows),
    )
