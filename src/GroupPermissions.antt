-- ===== src/GroupPermissions.antt =====
-- Permissions of an instance's groups: `HasPermissionsSetup` of apps/commons/mixins.py.
-- A row of guardian's table gives a group a permission on an object. `assign_perm` and `remove_perm`
-- of guardian, which add the row if it is not there and delete it, are documented so.
pub mod Setup
pub mod Batch
mod Tests
use projects_backend.Base.{
  ◌==◌, if◌then◌else◌, mem, any, filter, ℕ, Bool, not, ◌&&◌, List, [], ◌∷◌, ◌++◌,
}

-- `GroupObjectPermission`
pub record PermissionRow : Type 0 where
  pub group : ℕ
  pub permission : ℕ
  pub object : ℕ

-- `GroupData` of the groups of one model: the role and the object of a group
pub record GroupData : Type 0 where
  pub group : ℕ
  pub role : ℕ
  pub object : ℕ

abbrev pub is_row : ℕ → ℕ → ℕ → PermissionRow → Bool
is_row g p o r = r.group == g && r.permission == p && r.object == o

abbrev pub has_row : ℕ → ℕ → ℕ → List PermissionRow → Bool
has_row g p o rows = any (is_row g p o) rows

pub assign_perm : ℕ → ℕ → ℕ → List PermissionRow → List PermissionRow
assign_perm p g o rows =
    if has_row g p o rows
    then rows
    else rows ++ (record { group = g; permission = p; object = o }) ∷ []

pub remove_perm : ℕ → ℕ → ℕ → List PermissionRow → List PermissionRow
remove_perm p g o rows = filter (λ r. not (is_row g p o r)) rows

pub assign_each : List ℕ → ℕ → ℕ → List PermissionRow → List PermissionRow
assign_each [] g o rows = rows
assign_each (p ∷ ps) g o rows = assign_each ps g o (assign_perm p g o rows)

pub remove_each : List ℕ → ℕ → ℕ → List PermissionRow → List PermissionRow
remove_each [] g o rows = rows
remove_each (p ∷ ps) g o rows = remove_each ps g o (remove_perm p g o rows)

-- `Permission.objects.filter(groupobjectpermission__group=group)`
abbrev pub current_permissions : ℕ → List PermissionRow → List ℕ
current_permissions g [] = []
current_permissions g (r ∷ rows) =
    let rest = current_permissions g rows in if r.group == g then r.permission ∷ rest else rest

abbrev pub difference : List ℕ → List ℕ → List ℕ
difference ps qs = filter (λ p. not (mem p qs)) ps

-- `setup_group_object_permissions`
pub setup_group_object_permissions : ℕ → ℕ → List ℕ → List PermissionRow → List PermissionRow
setup_group_object_permissions g o permissions rows =
    let current = current_permissions g rows in
    remove_each (difference current permissions) g o
      (assign_each (difference permissions current) g o rows)

-- `group__data__role=role`
abbrev pub in_role : ℕ → ℕ → List GroupData → Bool
in_role role g datas = any (λ (d : GroupData). d.group == g && d.role == role) datas

-- `.exclude(permission__in=permissions).delete()` of the rows of the groups of a role
pub delete_others : ℕ → List ℕ → List GroupData → List PermissionRow → List PermissionRow
delete_others role permissions datas rows =
    filter (λ r. not (in_role role r.group datas && not (mem r.permission permissions))) rows

-- `bulk_create(..., ignore_conflicts=True)` for the groups of a role
pub create_rows : ℕ → List ℕ → List GroupData → List PermissionRow → List PermissionRow
create_rows role permissions [] rows = rows
create_rows role permissions (d ∷ datas) rows =
    create_rows role permissions datas
      (if d.role == role then assign_each permissions d.group d.object rows else rows)

-- The last loop of `batch_reassign_permissions`, over the roles with their permissions. The groups
-- and their data are made before.
pub batch_reassign_permissions :
    List (ℕ × List ℕ) → List GroupData → List PermissionRow → List PermissionRow
batch_reassign_permissions [] datas rows = rows
batch_reassign_permissions ((role, permissions) ∷ rest) datas rows =
    batch_reassign_permissions rest datas
      (create_rows role permissions datas (delete_others role permissions datas rows))
