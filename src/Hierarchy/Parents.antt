-- ===== src/Hierarchy/Parents.antt =====
-- `validate_parent` and the write that follows it, of `PeopleGroupSerializer`
-- (apps/accounts/serializers.py) and of `ProjectCategorySerializer` (apps/organizations/serializers.py).
-- The two methods are the same text over two models, but for the names of the exceptions.
mod Roots
pub mod Validation
mod Tests
use projects_backend.Base.{
  ◌==◌, if◌then◌else◌, is_some, Result, ok, err, ℕ, zero, suc, Bool, true, false, not, ◌&&◌, Option,
  none, some, List,
}
use projects_backend.Hierarchy.{meets}
use projects_backend.Hierarchy.Rows.{
  Node, Table, find_row, parent_of, new_row, update_or_create_root, set_parent,
}

-- apps/accounts/exceptions.py
pub data GroupError : Type 0 where
  root_group_parent non_root_group_parent parent_group_organization group_hierarchy_loop :
      GroupError

-- apps/organizations/exceptions.py
pub data CategoryError : Type 0 where
  root_category_parent non_root_category_parent : CategoryError
  parent_category_organization category_hierarchy_loop : CategoryError

pub record ParentErrors (E : Type 0) : Type 0 where
  pub root_parent : E
  pub non_root_parent : E
  pub parent_organization : E
  pub hierarchy_loop : E

abbrev pub group_errors : ParentErrors GroupError
group_errors = record {
  root_parent = root_group_parent;
  non_root_parent = non_root_group_parent;
  parent_organization = parent_group_organization;
  hierarchy_loop = group_hierarchy_loop;
}

abbrev pub category_errors : ParentErrors CategoryError
category_errors = record {
  root_parent = root_category_parent;
  non_root_parent = non_root_category_parent;
  parent_organization = parent_category_organization;
  hierarchy_loop = category_hierarchy_loop;
}

-- `self.instance.organization.code`, or the code that the request gives for a new row
abbrev pub organization_code : ℕ → Option Node → ℕ
organization_code initial none = initial
organization_code initial (some i) = i.organization

abbrev pub is_root_row : Option Node → Bool
is_root_row none = false
is_root_row (some i) = i.is_root

abbrev pub is_non_root_row : Option Node → Bool
is_non_root_row none = false
is_non_root_row (some i) = not i.is_root

-- the organization of the given parent is another one
abbrev pub other_organization : ℕ → List Node → Option ℕ → Bool
other_organization code rows none = false
other_organization code rows (some v) = elim (find_row v rows) [
  | none ↦ true
  | some r ↦ not (r.organization == code)
]

-- The walk for a row that is not there yet: no parent is equal to it.
pub climbs : (ℕ → Option ℕ) → ℕ → Option ℕ → Option Bool
climbs up zero at = none
climbs up (suc fuel) none = some false
climbs up (suc fuel) (some p) = climbs up fuel (up p)

abbrev pub walk : List Node → Option Node → ℕ → Option ℕ → Option Bool
walk rows none fuel at = climbs (parent_of rows) fuel at
walk rows (some i) fuel at = meets (parent_of rows) i.id fuel at

-- A row that is not a root and is given no parent goes under the root of its organization, which is
-- created where there is none.
pub default_parent : ℕ → Option Node → Option ℕ → Table → Option ℕ × Table
default_parent code instance (some v) t = (some v, t)
default_parent code instance none t =
    if is_root_row instance
    then (none, t)
    else let (root, t') = update_or_create_root code t in (some root, t')

module _ {E : Type 0} (errors : ParentErrors E) where
  abbrev pub loop_answer : Option ℕ → Option Bool → Option (Result E (Option ℕ))
  loop_answer v none = none
  loop_answer v (some true) = some (err errors.hierarchy_loop)
  loop_answer v (some false) = some (ok v)

  pub check_parent : ℕ → ℕ → Option Node → Option ℕ → List Node → Option (Result E (Option ℕ))
  check_parent fuel code instance v rows =
      if is_some v && is_root_row instance
      then some (err errors.root_parent)
      else if not (is_some v) && is_non_root_row instance
      then some (err errors.non_root_parent)
      else if other_organization code rows v
      then some (err errors.parent_organization)
      else loop_answer v (walk rows instance fuel v)

  -- The validated parent, or the exception, and the table, to which a root may have been added;
  -- `none` when the fuel runs out in the walk.
  pub validate_parent :
      ℕ → ℕ → Option Node → Option ℕ → Table → Option (Result E (Option ℕ)) × Table
  validate_parent fuel initial instance value t =
      let code = organization_code initial instance in
      let (v, t') = default_parent code instance value t in
      (check_parent fuel code instance v t'.rows, t')

-- The write of a validated row: a new one, or the new parent of an old one.
abbrev pub save_parent : ℕ → Option Node → Option ℕ → Table → Table
save_parent code none v t =
    new_row (record { id = t.next_id; organization = code; is_root = false; parent = v }) t
save_parent code (some i) v t = record t { rows = set_parent i.id v t.rows }

pub validate_group_parent :
    ℕ → ℕ → Option Node → Option ℕ → Table → Option (Result GroupError (Option ℕ)) × Table
validate_group_parent = validate_parent group_errors

validate_category_parent :
    ℕ → ℕ → Option Node → Option ℕ → Table → Option (Result CategoryError (Option ℕ)) × Table
validate_category_parent = validate_parent category_errors
