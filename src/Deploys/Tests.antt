-- ===== src/Deploys/Tests.antt =====
-- Two tasks, one of which has run before.
use projects_backend.Base.{
  if◌then◌else◌, ◌≡◌, refl, Bool, true, false, none, some, List, [], ◌∷◌, map,
}
use projects_backend.Deploys.{stored, run_all}
use projects_backend.Deploys.{
  DeployTask, Process, Environment, find_task, kept_tasks, recreate_processes, status, is_failure,
  is_to_run, get_processes_to_run, run_task, deploy, success, nothing, done, queued,
}
use projects_backend.Deploys.Recreate.{find_process, expected, recreate_processes_exact}
use projects_backend.Deploys.Order.{IsSorted, count_rows, deploy-IsSorted}
use projects_backend.Deploys.Again.{deploy_runs_once}

abbrev migrate : DeployTask
migrate = record {
  task_name = 1;
  priority = 1;
  run_in_tests = true;
  run_in_celery = false;
  sleep_time = 0;
}

abbrev rebuild_index : DeployTask
rebuild_index = record {
  task_name = 2;
  priority = 6;
  run_in_tests = false;
  run_in_celery = true;
  sleep_time = 30;
}

abbrev tasks : List DeployTask
tasks = rebuild_index ∷ migrate ∷ []

-- the index was rebuilt for version 3, by the Celery task 50; a task of old is in the table
abbrev rows : List Process
rows =
    record {
      task_name = 9;
      priority = 3;
      task_id = none;
      last_run_version = none;
      last_run = none;
      stored_status = nothing;
    }
    ∷ record {
      task_name = 2;
      priority = 4;
      task_id = some 50;
      last_run_version = some 3;
      last_run = some 100;
      stored_status = nothing;
    }
    ∷ []

-- version 4, forty minutes later
abbrev env : Environment
env = record {
  is_local = false;
  version = 4;
  now = 140;
  runs = λ in_celery t. if in_celery then queued 51 else done;
  celery_status = λ i. success;
}

abbrev after : List Process
after =
    record {
      task_name = 2;
      priority = 6;
      task_id = some 51;
      last_run_version = some 4;
      last_run = some 140;
      stored_status = nothing;
    }
    ∷ record {
      task_name = 1;
      priority = 1;
      task_id = none;
      last_run_version = some 4;
      last_run = some 140;
      stored_status = success;
    }
    ∷ []

deploys : deploy env tasks rows ≡ some (1 ∷ 2 ∷ [], after)
unfolding deploy recreate_processes get_processes_to_run run_task
deploys = refl

recreate_processes_exact_example :
    find_process 2 (recreate_processes tasks rows)
    ≡ expected (find_task 2 tasks) (find_process 2 rows)
recreate_processes_exact_example = recreate_processes_exact tasks rows 2 (refl, (refl, tt))

deploy-IsSorted_example :
    (ran : List Process) × (deploy env tasks rows
      ≡ some (
        map (λ p. p.task_name) ran,
        run_all env
            (kept_tasks env tasks)
            ran
            (map (stored env) (recreate_processes (kept_tasks env tasks) rows)),
      ))
    × IsSorted ran
    × ((todo : List Process) × (get_processes_to_run env
            (kept_tasks env tasks)
            (recreate_processes (kept_tasks env tasks) rows)
          ≡ some todo)
        × ((f : Process → Bool) → count_rows f ran ≡ count_rows f todo))
deploy-IsSorted_example = deploy-IsSorted env tasks rows

deploy_runs_once_example :
    (p : Process) × (find_process 2 after ≡ some p)
    × (p.last_run_version ≡ some env.version)
    × (is_to_run (record env { now = 1000 }) tasks p
        ≡ some (is_failure (status (record env { now = 1000 }) p)))
deploy_runs_once_example =
    deploy_runs_once env (record env { now = 1000 }) tasks tasks rows after (1 ∷ 2 ∷ []) 2 deploys
      refl refl refl
