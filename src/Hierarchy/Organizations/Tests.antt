-- ===== src/Hierarchy/Organizations/Tests.antt =====
-- Runs of the hierarchy searches on three organizations and of the check of a parent code.
use projects_backend.Base.{
  ◌==◌, mem, err, ℕ, ◌<◌, ◌≡◌, refl, ◌↔◌, true, false, none, some, List, [], ◌∷◌, arith,
}
use projects_backend.Hierarchy.{meets, ends_in, IsAcyclic}
use projects_backend.Hierarchy.Rows.{Node, find_row, parent_of}
use projects_backend.Hierarchy.Organizations.{
  hierarchy_loop, children_of, parents_of, get_below_hierarchy_codes, get_above_hierarchy_codes,
  get_below_categories_hierarchy_ids, validate_parent_code, organization_hierarchy_loop,
}
use projects_backend.Hierarchy.Organizations.Reach.{descends, below_hierarchy_exact}

abbrev rows : List Node
rows =
    record { id = 0; organization = 0; is_root = false; parent = none }
    ∷ record { id = 1; organization = 1; is_root = false; parent = some 0 }
    ∷ record { id = 2; organization = 2; is_root = false; parent = some 1 }
    ∷ []

below_top : get_below_hierarchy_codes rows 5 (0 ∷ []) ≡ some (0 ∷ 1 ∷ 2 ∷ [])
unfolding get_below_hierarchy_codes hierarchy_loop children_of parent_of find_row
below_top = refl

-- organization 1 is not shown on its parent's dashboard
above_bottom : get_above_hierarchy_codes rows (λ x. x == 2) 5 (2 ∷ []) ≡ some (2 ∷ 1 ∷ [])
unfolding get_above_hierarchy_codes hierarchy_loop parents_of parent_of find_row
above_bottom = refl

parent_loop : validate_parent_code 9 (some 0) (some 2) rows ≡ some (err organization_hierarchy_loop)
unfolding validate_parent_code meets parent_of find_row
parent_loop = refl

rows-IsAcyclic : IsAcyclic (parent_of rows)
unfolding ends_in parent_of find_row
rows-IsAcyclic n = (3, ground arith)

below_hierarchy_exact_example :
    (k : ℕ) × ((fuel : ℕ)
      → k < fuel
      → (out : List ℕ) × (get_below_hierarchy_codes rows fuel (1 ∷ []) ≡ some out)
        × (get_below_categories_hierarchy_ids rows fuel (1 ∷ []) ≡ some out)
        × ((x : ℕ) → (mem x out ≡ true) ↔ ((d : ℕ) × (descends rows d x (1 ∷ []) ≡ true))))
below_hierarchy_exact_example = below_hierarchy_exact rows rows-IsAcyclic (1 ∷ [])
