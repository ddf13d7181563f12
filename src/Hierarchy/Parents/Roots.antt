-- ===== src/Hierarchy/Parents/Roots.antt =====
-- The searches for a parent and for a root keep a hierarchy of people groups or of project categories a
-- forest.
use projects_backend.Base.{
  Bool-cases, Option-cases, is_some, ℕ, zero, suc, ◌≤◌, ◌<◌, ◌≡◌, refl, ◌∙◌, inl, inr, Bool, true,
  false, Option, none, some, List, [], ◌∷◌, arith,
}
use projects_backend.Hierarchy.Parents.{is_root_row, climbs, walk, default_parent}
use projects_backend.Hierarchy.{ends_in}
use projects_backend.Hierarchy.Loops.{meets_total}
use projects_backend.Hierarchy.Rows.{
  Node, Table, find_row, find_root, parent_of, update_or_create_root,
}
use projects_backend.Hierarchy.Rows.Laws.{IsForest, find_row-append, new_row-IsForest}

-- Every row that the table holds by an identifier has that identifier.
id-find_row : (n : ℕ) (rows : List Node) (r : Node) → find_row n rows ≡ some r → r.id ≡ n
unfolding find_row
id-find_row n [] r h = cc
id-find_row n (x ∷ xs) r h = ground (arith, id-find_row n xs r)

climbs_total :
    (up : ℕ → Option ℕ) (k fuel : ℕ) (at : Option ℕ)
    → ends_in up k at ≡ true
    → k < fuel
    → climbs up fuel at ≡ some false
unfolding climbs ends_in
climbs_total up k zero at ends enough = elim enough [ ]
climbs_total up zero (suc fuel) none ends enough = refl
climbs_total up zero (suc fuel) (some p) ends enough = cc
climbs_total up (suc k) (suc fuel) none ends enough = refl
climbs_total up (suc k) (suc fuel) (some p) ends enough =
    climbs_total up k fuel (up p) ends (omega arith)

pub walk_total :
    (rows : List Node) (instance_row : Option Node) (k fuel : ℕ) (at : Option ℕ)
    → ends_in (parent_of rows) k at ≡ true
    → k < fuel
    → (b : Bool) × (walk rows instance_row fuel at ≡ some b)
walk_total rows none k fuel at ends enough =
    (false, climbs_total (parent_of rows) k fuel at ends enough)
walk_total rows (some i) k fuel at ends enough =
    meets_total (parent_of rows) i.id k fuel at ends enough

root_is_row :
    (code : ℕ) (rows : List Node) (r : Node)
    → find_root code rows ≡ some r
    → is_some (find_row r.id rows) ≡ true
unfolding find_root find_row
root_is_row code [] r h = cc
root_is_row code (x ∷ xs) r h = ground (arith, root_is_row code xs r)

-- The table after the search for a root is a forest still, and the root is one of its identifiers.
update_or_create_root-IsForest :
    (code : ℕ) (t : Table)
    → IsForest t
    → IsForest (update_or_create_root code t).1
      × ((update_or_create_root code t).0 < (update_or_create_root code t).1.next_id)
      × (t.next_id ≤ (update_or_create_root code t).1.next_id)
unfolding update_or_create_root
update_or_create_root-IsForest code t f = elim (Option-cases (find_root code t.rows)) [
  | inl absent ↦ rw absent (
    new_row-IsForest t
        (record { id = t.next_id; organization = code; is_root = true; parent = none }) f refl
        (λ p e. cc),
    omega arith,
    omega arith,
  )
  | inr (r, there) ↦ rw there (f, f.fresh r.id (root_is_row code t.rows r there), omega arith)
]

-- The search for a root keeps the rows that are there.
pub update_or_create_root_keeps :
    (code n : ℕ) (t : Table) (r : Node)
    → find_row n t.rows ≡ some r
    → find_row n (update_or_create_root code t).1.rows ≡ some r
unfolding update_or_create_root
update_or_create_root_keeps code n t r h = elim (Option-cases (find_root code t.rows)) [
  | inl absent ↦ rw absent (find_row-append n t.rows _ ∙ rw h)
  | inr (root, there) ↦ rw there h
]

-- A given parent is an identifier of the table.
abbrev pub IsKnown : Option ℕ → Table → Type 0
IsKnown v t = (p : ℕ) → v ≡ some p → p < t.next_id

pub default_parent-IsForest :
    (code : ℕ) (instance_row : Option Node) (v : Option ℕ) (t : Table)
    → IsForest t
    → IsKnown v t
    → IsForest (default_parent code instance_row v t).1
      × IsKnown (default_parent code instance_row v t).0 (default_parent code instance_row v t).1
      × (t.next_id ≤ (default_parent code instance_row v t).1.next_id)
unfolding default_parent
default_parent-IsForest code instance_row (some v) t f known = (f, known, omega arith)
default_parent-IsForest code instance_row none t f known =
    let (forest, below, grows) = update_or_create_root-IsForest code t f in
    elim (Bool-cases (is_root_row instance_row)) [
      | inl root ↦ rw root (f, known, omega arith)
      | inr other ↦ rw other (forest, (λ p e. ground arith), grows)
    ]
