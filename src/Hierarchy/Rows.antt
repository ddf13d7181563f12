-- ===== src/Hierarchy/Rows.antt =====
-- The table of a model with a parent link, of apps/accounts/models.py (`PeopleGroup`) or of
-- apps/organizations/models.py (`ProjectCategory`): the columns that the parent checks read.
pub mod Laws
use projects_backend.Base.{
  ◌==◌, if◌then◌else◌, ℕ, suc, Bool, true, ◌&&◌, Option, none, some, List, [], ◌∷◌, ◌++◌,
}

-- `organization` is the code of the row's organization.
pub record Node : Type 0 where
  pub id : ℕ
  pub organization : ℕ
  pub is_root : Bool
  pub parent : Option ℕ

-- The rows, and the identifier that the database gives to the next new row.
pub record Table : Type 0 where
  pub rows : List Node
  pub next_id : ℕ

unfoldable pub find_row : ℕ → List Node → Option Node
find_row n [] = none
find_row n (r ∷ rs) = if r.id == n then some r else find_row n rs

abbrev pub parent_link : Option Node → Option ℕ
parent_link none = none
parent_link (some r) = r.parent

-- `parent.parent`
unfoldable pub parent_of : List Node → ℕ → Option ℕ
parent_of rows n = parent_link (find_row n rows)

-- `filter(organization=organization, is_root=True)`, of which a constraint allows one row
unfoldable pub find_root : ℕ → List Node → Option Node
find_root code [] = none
find_root code (r ∷ rs) =
    let rest = find_root code rs in if r.organization == code && r.is_root then some r else rest

abbrev pub new_row : Node → Table → Table
new_row r t = record { rows = t.rows ++ r ∷ []; next_id = suc t.next_id }

abbrev root_node : ℕ → ℕ → Node
root_node code n = record { id = n; organization = code; is_root = true; parent = none }

abbrev root_or_new : ℕ → Option Node → Table → ℕ × Table
root_or_new code (some r) t = (r.id, t)
root_or_new code none t = (t.next_id, new_row (root_node code t.next_id) t)

-- `update_or_create_root`; the name that it updates is no column of the model
unfoldable pub update_or_create_root : ℕ → Table → ℕ × Table
update_or_create_root code t = root_or_new code (find_root code t.rows) t

-- `instance.parent = value; instance.save()`
unfoldable pub set_parent : ℕ → Option ℕ → List Node → List Node
set_parent i v [] = []
set_parent i v (r ∷ rs) = (if r.id == i then record r { parent = v } else r) ∷ set_parent i v rs
