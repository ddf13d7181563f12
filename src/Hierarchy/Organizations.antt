-- ===== src/Hierarchy/Organizations.antt =====
-- apps/organizations/utils.py: the identifiers above and below in a hierarchy, and
-- `validate_parent_code` of apps/organizations/serializers.py.
-- The rows are those of Hierarchy/Rows; an organization is named by its code.
pub mod Levels
pub mod Reach
mod Tests
use projects_backend.Base.{
  if◌then◌else◌, mem, filter, Result, ok, err, ℕ, zero, suc, Bool, true, false, ◌&&◌, Option, none,
  some, List, [], ◌∷◌, ◌++◌,
}
use projects_backend.Hierarchy.{meets}
use projects_backend.Hierarchy.Rows.{Node, parent_of}

abbrev pub ids_of : List Node → List ℕ
ids_of [] = []
ids_of (r ∷ rs) = r.id ∷ ids_of rs

-- whether a parent link leads into some identifiers: `parent__id__in=ids`
abbrev pub parent_in : List ℕ → Option ℕ → Bool
parent_in ids none = false
parent_in ids (some p) = mem p ids

-- `filter(parent__id__in=ids)`
pub children_of : List Node → List ℕ → List ℕ
children_of rows ids = filter (λ x. parent_in ids (parent_of rows x)) (ids_of rows)

abbrev add_link : Option ℕ → List ℕ → List ℕ
add_link none ps = ps
add_link (some p) ps = p ∷ ps

-- `filter(children__in=...)`, for the rows in `ids` that are visible on their parent's dashboard: the
-- join has a row for each such child, so a parent may come several times
pub parents_of : List Node → (ℕ → Bool) → List ℕ → List ℕ
parents_of [] visible ids = []
parents_of (r ∷ rs) visible ids =
    let rest = parents_of rs visible ids in
    if mem r.id ids && visible r.id then add_link r.parent rest else rest

-- `while len(ids) > 0: hierarchy_ids += ids; ids = ...`; `none` when the fuel runs out
pub hierarchy_loop : (List ℕ → List ℕ) → ℕ → List ℕ → Option (List ℕ)
hierarchy_loop next zero ids = none
hierarchy_loop next (suc fuel) [] = some []
hierarchy_loop next (suc fuel) (x ∷ xs) =
    let later = hierarchy_loop next fuel (next (x ∷ xs)) in
    elim later [ none ↦ none | some rest ↦ some ((x ∷ xs) ++ rest) ]

pub get_below_hierarchy_codes : List Node → ℕ → List ℕ → Option (List ℕ)
get_below_hierarchy_codes rows = hierarchy_loop (children_of rows)

-- `visible` is the column `is_logo_visible_on_parent_dashboard`
pub get_above_hierarchy_codes : List Node → (ℕ → Bool) → ℕ → List ℕ → Option (List ℕ)
get_above_hierarchy_codes rows visible = hierarchy_loop (parents_of rows visible)

pub get_below_categories_hierarchy_ids : List Node → ℕ → List ℕ → Option (List ℕ)
get_below_categories_hierarchy_ids rows = hierarchy_loop (children_of rows)

get_above_categories_hierarchy_ids : List Node → ℕ → List ℕ → Option (List ℕ)
get_above_categories_hierarchy_ids rows = hierarchy_loop (parents_of rows (λ x. true))

pub data OrganizationError : Type 0 where
  organization_hierarchy_loop : OrganizationError

abbrev loop_or_parent : Option ℕ → Option Bool → Option (Result OrganizationError (Option ℕ))
loop_or_parent v none = none
loop_or_parent v (some true) = some (err organization_hierarchy_loop)
loop_or_parent v (some false) = some (ok v)

-- A new organization takes any parent; `instance_row` is the code of one that is there.
pub validate_parent_code :
    ℕ → Option ℕ → Option ℕ → List Node → Option (Result OrganizationError (Option ℕ))
validate_parent_code fuel none v rows = some (ok v)
validate_parent_code fuel (some i) v rows = loop_or_parent v (meets (parent_of rows) i fuel v)
