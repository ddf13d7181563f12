-- ===== src/Deploys/Recreate.antt =====
-- apps/deploys/models.py: the rows after `recreate_processes`.
use projects_backend.Base.{
  ◌==◌, if◌then◌else◌, ==_iff, Bool-cases, Option-cases, is_some, mem, filter, ℕ, ◌≡◌, refl, ap,
  subst, ◌∙◌, inl, inr, true, false, Option, none, some, List, [], ◌∷◌, arith,
}
use projects_backend.Deploys.{
  DeployTask, Process, find_task, new_process, upsert, upsert_all, names, recreate_processes,
}

abbrev pub find_process : ℕ → List Process → Option Process
find_process n [] = none
find_process n (p ∷ ps) =
    let later = find_process n ps in if p.task_name == n then some p else later

-- what becomes of the row of a task, if it has one
abbrev refreshed : DeployTask → Option Process → Process
refreshed t none = new_process t
refreshed t (some p) = record p { priority = t.priority }

-- No two tasks have the same name.
abbrev IsDistinct : List DeployTask → Type 0
IsDistinct [] = Unit {0}
IsDistinct (t ∷ ts) = (mem t.task_name (names ts) ≡ false) × IsDistinct ts

find-upsert :
    (n : ℕ) (t : DeployTask) (ps : List Process)
    → find_process n (upsert t ps)
      ≡ (if t.task_name == n then some (refreshed t (find_process n ps)) else find_process n ps)
find-upsert n t [] = ground arith
find-upsert n t (p ∷ ps) = elim (Bool-cases (p.task_name == t.task_name)) [
  | inl e ↦ elim (Bool-cases (t.task_name == n)) [
    | inl k ↦ let found : (p.task_name == n) ≡ true = ground arith in rw (e, k) (rw found)
    | inr k ↦ let other : (p.task_name == n) ≡ false = ground arith in rw (e, k) (rw other)
  ]
  | inr e ↦ elim (Bool-cases (t.task_name == n)) [
    | inl k ↦
        let other : (p.task_name == n) ≡ false = ground arith in
        rw (e, k) (rw other (find-upsert n t ps ∙ rw k))
    | inr k ↦
        rw (e, k)
          (elim (Bool-cases (p.task_name == n)) [
            | inl f ↦ rw f
            | inr f ↦ rw f (find-upsert n t ps ∙ rw k)
          ])
  ]
]

find_task-mem : (n : ℕ) (ts : List DeployTask) → mem n (names ts) ≡ false → find_task n ts ≡ none
find_task-mem n [] h = refl
find_task-mem n (t ∷ ts) h = ground (arith, find_task-mem n ts)

pub mem-find_task : (n : ℕ) (ts : List DeployTask) → mem n (names ts) ≡ is_some (find_task n ts)
mem-find_task n [] = refl
mem-find_task n (t ∷ ts) = ground (arith, mem-find_task n ts)

-- the row of a name when some tasks have been inserted or refreshed
abbrev with_task : Option DeployTask → Option Process → Option Process
with_task none o = o
with_task (some t) o = some (refreshed t o)

find-upsert_all :
    (n : ℕ) (ts : List DeployTask) (ps : List Process)
    → IsDistinct ts
    → find_process n (upsert_all ts ps) ≡ with_task (find_task n ts) (find_process n ps)
find-upsert_all n [] ps d = refl
find-upsert_all n (t ∷ ts) ps (first, d) =
    find-upsert_all n ts (upsert t ps) d
    ∙ ap (with_task (find_task n ts)) (find-upsert n t ps)
    ∙ elim (Bool-cases (t.task_name == n)) [
      | inl e ↦
          let gone : mem n (names ts) ≡ false =
            subst (λ z. mem z (names ts) ≡ false) ((==_iff t.task_name n).0 e) first in
          rw (e, find_task-mem n ts gone)
      | inr e ↦ rw e
    ]

find-filter :
    (n : ℕ) (ns : List ℕ) (ps : List Process)
    → find_process n (filter (λ p. mem p.task_name ns) ps)
      ≡ (if mem n ns then find_process n ps else none)
find-filter n ns [] = ground arith
find-filter n ns (p ∷ ps) = elim (Bool-cases (p.task_name == n)) [
  | inl e ↦
      let same : mem p.task_name ns ≡ mem n ns = ap (λ z. mem z ns) ((==_iff p.task_name n).0 e) in
      elim (Bool-cases (mem n ns)) [
        | inl m ↦ rw (same, m) (rw e)
        | inr m ↦ rw (same, m) (find-filter n ns ps ∙ rw m)
      ]
  | inr e ↦ elim (Bool-cases (mem p.task_name ns)) [
    | inl m ↦ rw m (rw e (find-filter n ns ps))
    | inr m ↦ rw (m, e) (find-filter n ns ps)
  ]
]

-- what a row of a name is after `recreate_processes`
abbrev pub expected : Option DeployTask → Option Process → Option Process
expected none o = none
expected (some t) o = some (refreshed t o)

-- When the tasks have distinct names, the row of a name after `recreate_processes` is: for the name of
-- a task, the row that was there with the priority of the task, or a new one; for any other name,
-- none.
pub recreate_processes_exact :
    (ts : List DeployTask) (ps : List Process) (n : ℕ)
    → IsDistinct ts
    → find_process n (recreate_processes ts ps) ≡ expected (find_task n ts) (find_process n ps)
unfolding recreate_processes
recreate_processes_exact ts ps n d =
    find-filter n (names ts) (upsert_all ts ps)
    ∙ ap (λ z. if z then find_process n (upsert_all ts ps) else none) (mem-find_task n ts)
    ∙ ap (λ z. if is_some (find_task n ts) then z else none) (find-upsert_all n ts ps d)
    ∙ elim (Option-cases (find_task n ts)) [ inl e ↦ rw e | inr (t, e) ↦ rw e ]
