-- ===== src/Deploys/Again.antt =====
-- apps/deploys/models.py: what a deployment has run, another of the same version runs only after a
-- failure.
use projects_backend.Base.{
  ◌==◌, ==_iff, Bool-cases, is_some, some-injective, none-ne-some, mem, ◌>>=?◌, ℕ, ◌≡◌, refl, sym,
  ap, subst, ◌∙◌, inl, inr, true, Option, none, some, List, [], ◌∷◌, map, arith,
}
use projects_backend.Deploys.Rows.{
  process_names, found-write, found-map, found_name, mem-sort, mem-cons_if, find_name,
}
use projects_backend.Deploys.{kept_tasks, recreate_processes, same_version}
use projects_backend.Deploys.{
  DeployTask, Process, TaskEnd, Environment, find_task, status, is_final, stored, is_failure,
  is_to_run, cons_if, get_processes_to_run, sort_by_priority, ended, task_end, run_task, write,
  run_all, deploy, nothing, done, raised, queued,
}
use projects_backend.Deploys.Recreate.{find_process}
use projects_backend.Deploys.Order.{is_rested_total}

ended_name : (e : TaskEnd) (p : Process) → (ended e p).task_name ≡ p.task_name
ended_name done p = refl
ended_name raised p = refl
ended_name (queued i) p = refl

module _ (env : Environment) (tasks : List DeployTask) where
  run_task_name : (p : Process) → (run_task env tasks p).task_name ≡ p.task_name
  unfolding run_task
  run_task_name p =
      ended_name (task_end env (find_task p.task_name tasks))
        (record p { stored_status = nothing; last_run = some env.now })

  run_task_version : (p : Process) → (run_task env tasks p).last_run_version ≡ some env.version
  unfolding run_task
  run_task_version p = refl

  stored_name : (p : Process) → (stored env p).task_name ≡ p.task_name
  stored_name p = elim (Bool-cases (is_final (status env p))) [ inl e ↦ rw e | inr e ↦ rw e ]

  -- The row of a name has run at the version.
  abbrev HasRun : ℕ → List Process → Type 0
  HasRun n ps =
      (p : Process) × (find_process n ps ≡ some p) × (p.last_run_version ≡ some env.version)

  HasRun-write :
      (n m : ℕ) (ps : List Process) → HasRun n ps → HasRun n (write (run_task env tasks) m ps)
  HasRun-write n m ps (p, found, ran) =
      let there = found-write (run_task env tasks) run_task_name n m ps p found in
      elim (Bool-cases (m == n)) [
        | inl e ↦ (run_task env tasks p, there ∙ rw e, run_task_version p)
        | inr e ↦ (p, there ∙ rw e, ran)
      ]

  HasRun-run_all :
      (n : ℕ) (todo ps : List Process) → HasRun n ps → HasRun n (run_all env tasks todo ps)
  HasRun-run_all n [] ps h = h
  HasRun-run_all n (q ∷ todo) ps h =
      HasRun-run_all n todo (write (run_task env tasks) q.task_name ps)
        (HasRun-write n q.task_name ps h)

  ran-HasRun :
      (n : ℕ) (todo ps : List Process) (p : Process)
      → mem n (process_names todo) ≡ true
      → find_process n ps ≡ some p
      → HasRun n (run_all env tasks todo ps)
  ran-HasRun n [] ps p m found = cc
  ran-HasRun n (q ∷ todo) ps p m found =
      let there = found-write (run_task env tasks) run_task_name n q.task_name ps p found in
      elim (Bool-cases (q.task_name == n)) [
        | inl e ↦
            HasRun-run_all n todo (write (run_task env tasks) q.task_name ps)
              (run_task env tasks p, there ∙ rw e, run_task_version p)
        | inr e ↦
            ran-HasRun n todo (write (run_task env tasks) q.task_name ps) p (ground arith)
              (there ∙ rw e)
      ]

bind_some :
    {A B : Type 0} (m : Option A) (f : A → Option B) (b : B)
    → (m >>=? f) ≡ some b
    → (a : A) × (m ≡ some a) × (f a ≡ some b)
bind_some none f b h = absurd (none-ne-some b h)
bind_some (some a) f b h = (a, refl, h)

selected_mem :
    (env : Environment) (tasks : List DeployTask) (n : ℕ) (ps todo : List Process)
    → get_processes_to_run env tasks ps ≡ some todo
    → mem n (process_names todo) ≡ true
    → mem n (process_names ps) ≡ true
unfolding get_processes_to_run
selected_mem env tasks n [] todo h m =
    let none_left = some-injective [] todo h in
    let bad : mem n (process_names []) ≡ true =
      subst (λ z. mem n (process_names z) ≡ true) (sym none_left) m in
    cc
selected_mem env tasks n (p ∷ ps) todo h m =
    let (b, e1, h1) = bind_some (is_to_run env tasks p) _ todo h in
    let (rest, e2, h2) = bind_some (get_processes_to_run env tasks ps) _ todo h1 in
    let same = some-injective (cons_if b p rest) todo h2 in
    elim (mem-cons_if n b p rest (subst (λ z. mem n (process_names z) ≡ true) (sym same) m)) [
      | inl e ↦ rw e
      | inr later ↦ let r = selected_mem env tasks n ps rest e2 later in ground arith
    ]

same_version_refl : (o : Option ℕ) (v w : ℕ) → o ≡ some v → w ≡ v → same_version o w ≡ true
same_version_refl none v w h e = absurd (none-ne-some v h)
same_version_refl (some u) v w h e = (==_iff u w).1 (some-injective u v h ∙ sym e)

-- A row that has run at the version of a deployment is selected only after a failure.
selected_again :
    (env : Environment) (tasks : List DeployTask) (p : Process) (v : ℕ)
    → p.last_run_version ≡ some v
    → env.version ≡ v
    → is_some (find_task p.task_name tasks) ≡ true
    → is_to_run env tasks p ≡ some (is_failure (status env p))
selected_again env tasks p v ran e t = elim (Bool-cases (is_failure (status env p))) [
  | inl failed ↦ rw failed
  | inr fine ↦
      let (b, rested) = is_rested_total env (find_task p.task_name tasks) p.last_run t in
      let current = same_version_refl p.last_run_version v env.version ran e in
      rw (fine, rested, current) (ground arith)
]

-- A process that a deployment has run has the version of that deployment, and a deployment of the same
-- version, with a task of its name, selects it exactly if its status is then a failure, however much
-- later it is.
pub deploy_runs_once :
    (env again : Environment) (all_tasks tasks : List DeployTask) (ps rows : List Process)
    (ran : List ℕ) (n : ℕ)
    → deploy env all_tasks ps ≡ some (ran, rows)
    → mem n ran ≡ true
    → again.version ≡ env.version
    → is_some (find_task n tasks) ≡ true
    → (p : Process) × (find_process n rows ≡ some p)
      × (p.last_run_version ≡ some env.version)
      × (is_to_run again tasks p ≡ some (is_failure (status again p)))
unfolding deploy
deploy_runs_once env again all_tasks tasks ps rows ran n h m v t =
    let kept = kept_tasks env all_tasks in
    let before = recreate_processes kept ps in
    let (todo, e, h1) = bind_some (get_processes_to_run env kept before) _ (ran, rows) h in
    let both = some-injective _ (ran, rows) h1 in
    let names_ran : process_names (sort_by_priority todo) ≡ ran = ap (λ z. z.0) both in
    let rows_left : run_all env kept (sort_by_priority todo) (map (stored env) before) ≡ rows =
      ap (λ z. z.1) both in
    let in_todo : mem n (process_names (sort_by_priority todo)) ≡ true =
      subst (λ z. mem n z ≡ true) (sym names_ran) m in
    let there = selected_mem env kept n before todo e (sym (mem-sort n todo) ∙ in_todo) in
    let (p0, found) = found_name n before there in
    let found' = found-map (stored env) (stored_name env kept) n before p0 found in
    let (p, at, version) =
      ran-HasRun env kept n (sort_by_priority todo) (map (stored env) before) (stored env p0)
        in_todo found' in
    let at' : find_process n rows ≡ some p = subst (λ z. find_process n z ≡ some p) rows_left at in
    let task : is_some (find_task p.task_name tasks) ≡ true =
      subst (λ z. is_some (find_task z tasks) ≡ true) (sym (find_name n rows p at')) t in
    (p, at', version, selected_again again tasks p env.version version v task)
