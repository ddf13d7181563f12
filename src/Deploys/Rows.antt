-- ===== src/Deploys/Rows.antt =====
-- apps/deploys/models.py: finding a row by its name, when rows are changed, sorted and selected.
use projects_backend.Base.{
  leb, ◌==◌, if◌then◌else◌, ==_iff, Bool-cases, some-injective, none-ne-some, mem, ℕ, ◌≡◌, refl,
  sym, ap, ◌∙◌, ◌⊎◌, inl, inr, Bool, true, false, some, List, [], ◌∷◌, map, arith,
}
use projects_backend.Deploys.{Process, cons_if, insert_process, sort_by_priority, write}
use projects_backend.Deploys.Recreate.{find_process}

abbrev pub process_names : List Process → List ℕ
process_names = map (λ p. p.task_name)

module _ (f : Process → Process) (keeps : (p : Process) → (f p).task_name ≡ p.task_name) where
  pub found-write :
      (n m : ℕ) (ps : List Process) (p : Process)
      → find_process n ps ≡ some p
      → find_process n (write f m ps) ≡ some (if m == n then f p else p)
  found-write n m [] p h = absurd (none-ne-some p h)
  found-write n m (q ∷ ps) p h = elim (Bool-cases (q.task_name == n)) [
    | inl e ↦
        let same : q ≡ p = some-injective q p (rw e at h) in
        elim (Bool-cases (m == n)) [
          | inl k ↦
              let hit : (q.task_name == m) ≡ true = ground arith in
              let named : ((f q).task_name == n) ≡ true = ap (λ z. z == n) (keeps q) ∙ e in
              rw (hit, k) (rw named (ap (λ z. some (f z)) same))
          | inr k ↦
              let miss : (q.task_name == m) ≡ false = ground arith in
              rw (miss, k) (rw e (ap some same))
        ]
    | inr e ↦
        let rest = found-write n m ps p (rw e at h) in
        elim (Bool-cases (q.task_name == m)) [
          | inl k ↦
              let named : ((f q).task_name == n) ≡ false = ap (λ z. z == n) (keeps q) ∙ e in
              rw k (rw named rest)
          | inr k ↦ rw k (rw e rest)
        ]
  ]

  pub found-map :
      (n : ℕ) (ps : List Process) (p : Process)
      → find_process n ps ≡ some p
      → find_process n (map f ps) ≡ some (f p)
  found-map n [] p h = absurd (none-ne-some p h)
  found-map n (q ∷ ps) p h = elim (Bool-cases (q.task_name == n)) [
    | inl e ↦
        let same : q ≡ p = some-injective q p (rw e at h) in
        let named : ((f q).task_name == n) ≡ true = ap (λ z. z == n) (keeps q) ∙ e in
        rw named (ap (λ z. some (f z)) same)
    | inr e ↦
        let named : ((f q).task_name == n) ≡ false = ap (λ z. z == n) (keeps q) ∙ e in
        rw named (found-map n ps p (rw e at h))
  ]

-- The name of a row finds a row.
pub found_name :
    (n : ℕ) (ps : List Process)
    → mem n (process_names ps) ≡ true
    → (p : Process) × (find_process n ps ≡ some p)
found_name n [] h = cc
found_name n (q ∷ ps) h = elim (Bool-cases (q.task_name == n)) [
  | inl e ↦ (q, rw e)
  | inr e ↦ let (p, found) = found_name n ps (ground arith) in (p, rw e found)
]

mem-insert :
    (n : ℕ) (p : Process) (ps : List Process)
    → mem n (process_names (insert_process p ps)) ≡ mem n (process_names (p ∷ ps))
mem-insert n p [] = refl
mem-insert n p (q ∷ ps) = elim (Bool-cases (leb p.priority q.priority)) [
  | inl e ↦ rw e
  | inr e ↦ rw e (ground (arith, mem-insert n p ps))
]

pub mem-sort :
    (n : ℕ) (ps : List Process)
    → mem n (process_names (sort_by_priority ps)) ≡ mem n (process_names ps)
mem-sort n [] = refl
mem-sort n (p ∷ ps) = mem-insert n p (sort_by_priority ps) ∙ ground (arith, mem-sort n ps)

pub mem-cons_if :
    (n : ℕ) (b : Bool) (p : Process) (ps : List Process)
    → mem n (process_names (cons_if b p ps)) ≡ true
    → ((n == p.task_name) ≡ true) ⊎ (mem n (process_names ps) ≡ true)
mem-cons_if n true p ps h = elim (Bool-cases (n == p.task_name)) [
  | inl e ↦ inl e
  | inr e ↦ inr (ground arith)
]
mem-cons_if n false p ps h = inr h

pub find_name :
    (n : ℕ) (ps : List Process) (p : Process) → find_process n ps ≡ some p → p.task_name ≡ n
find_name n [] p h = absurd (none-ne-some p h)
find_name n (q ∷ ps) p h = elim (Bool-cases (q.task_name == n)) [
  | inl e ↦
      let same : q ≡ p = some-injective q p (rw e at h) in
      sym (ap (λ z. z.task_name) same) ∙ (==_iff q.task_name n).0 e
  | inr e ↦ find_name n ps p (rw e at h)
]
