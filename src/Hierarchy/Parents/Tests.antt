-- ===== src/Hierarchy/Parents/Tests.antt =====
-- Runs of the parent checks on a root and two groups below it.
use projects_backend.Base.{
  ◌==◌, if◌then◌else◌, Result, ok, err, ℕ, ◌<◌, ◌≡◌, refl, true, false, Option, none, some, [],
  arith,
}
use projects_backend.Hierarchy.Parents.{
  other_organization, group_errors, category_errors, root_group_parent, group_hierarchy_loop,
  validate_group_parent, validate_parent, check_parent, default_parent, save_parent,
}
use projects_backend.Hierarchy.{meets, relink, ends_in, IsAcyclic}
use projects_backend.Hierarchy.Loops.{accepted_parent-IsAcyclic, refused_parent_loops}
use projects_backend.Hierarchy.Rows.{
  Node, Table, find_row, find_root, parent_of, new_row, update_or_create_root,
}
use projects_backend.Hierarchy.Rows.Laws.{IsForest, new_row-IsForest}
use projects_backend.Hierarchy.Parents.Validation.{validate_parent_total, validated_parent-IsForest}

abbrev empty : Table
empty = record { rows = []; next_id = 0 }

empty-IsForest : IsForest empty
unfolding find_row parent_of ends_in
empty-IsForest = record { fresh = λ n h. cc; closed = λ n p h. cc; acyclic = λ n. (1, refl) }

abbrev root : Node
root = record { id = 0; organization = 5; is_root = true; parent = none }

abbrev upper : Node
upper = record { id = 1; organization = 5; is_root = false; parent = some 0 }

abbrev lower : Node
lower = record { id = 2; organization = 5; is_root = false; parent = some 1 }

abbrev groups : Table
groups = new_row lower (new_row upper (new_row root empty))

groups-IsForest : IsForest groups
groups-IsForest =
    new_row-IsForest _ lower
      (new_row-IsForest _ upper (new_row-IsForest _ root empty-IsForest refl (λ p e. cc)) refl
        (λ p e. ground arith))
      refl (λ p e. ground arith)

-- the upper group cannot go under the lower one
loop_refused :
    (validate_group_parent 9 0 (some upper) (some 2) groups).0 ≡ some (err group_hierarchy_loop)
unfolding validate_group_parent validate_parent check_parent default_parent meets find_row parent_of
loop_refused = refl

-- the lower group can go under the root, which is where no parent puts it
to_root : validate_group_parent 9 0 (some lower) none groups ≡ (some (ok (some 0)), groups)
unfolding validate_group_parent validate_parent check_parent default_parent meets find_row parent_of
    update_or_create_root find_root
to_root = refl

root_refused :
    (validate_group_parent 9 0 (some root) (some 2) groups).0 ≡ some (err root_group_parent)
unfolding validate_group_parent validate_parent check_parent default_parent
root_refused = refl

validate_parent_total_example :
    (k : ℕ) × ((fuel : ℕ)
      → k < fuel
      → (r : Result _ (Option ℕ)) × ((validate_parent category_errors fuel 0
            (some upper)
            (some 2)
            groups).0
          ≡ some r))
validate_parent_total_example =
    validate_parent_total category_errors 0 (some upper) (some 2) groups groups-IsForest
      (λ p e. ground arith)

validated_parent-IsForest_example :
    IsForest (save_parent 5 (some lower) (some 0) groups)
    × (other_organization 5 groups.rows (some 0) ≡ false)
    × (false ≡ false)
    × (false ≡ false)
unfolding validate_parent check_parent default_parent meets find_row parent_of update_or_create_root
    find_root
validated_parent-IsForest_example =
    validated_parent-IsForest group_errors 9 0 (some lower) none (some 0) groups groups
      groups-IsForest refl (λ p e. cc) refl

abbrev links : ℕ → Option ℕ
links n = if n == 2 then some 1 else if n == 1 then some 0 else none

links-IsAcyclic : IsAcyclic links
unfolding ends_in
links-IsAcyclic n = (3, ground arith)

accepted_parent-IsAcyclic_test : IsAcyclic (relink links 2 (some 0))
unfolding meets
accepted_parent-IsAcyclic_test = accepted_parent-IsAcyclic links 2 (some 0) 4 links-IsAcyclic refl

refused_parent_loops_test : ¬ IsAcyclic (relink links 0 (some 2))
unfolding meets
refused_parent_loops_test = refused_parent_loops links 0 (some 2) 4 refl
