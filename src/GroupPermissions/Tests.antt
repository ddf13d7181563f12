-- ===== src/GroupPermissions/Tests.antt =====
-- Group permissions at concrete tables.
use projects_backend.Base.{◌≡◌, refl, false, List, [], ◌∷◌, arith}
use projects_backend.GroupPermissions.{
  PermissionRow, GroupData, has_row, setup_group_object_permissions, batch_reassign_permissions,
}
use projects_backend.GroupPermissions.Setup.{setup_group_object_permissions_exact}
use projects_backend.GroupPermissions.Batch.{HasData, batch_equals_setup}

abbrev rows : List PermissionRow
rows =
    record { group = 1; permission = 50; object = 9 }
    ∷ record { group = 2; permission = 50; object = 9 }
    ∷ []

abbrev datas : List GroupData
datas = record { group = 1; role = 4; object = 9 } ∷ record { group = 2; role = 5; object = 9 } ∷ []

data-1 : HasData 1 4 9 datas
data-1 = record { roles = λ r. ground arith; places = λ r o. ground arith }

setup_group_object_permissions_exact_test :
    has_row 1 50 9 (setup_group_object_permissions 1 9 (51 ∷ []) rows) ≡ false
setup_group_object_permissions_exact_test =
    setup_group_object_permissions_exact 1 9 (51 ∷ []) rows refl 1 50 9

batch_equals_setup_example :
    has_row 1 51 9 (batch_reassign_permissions ((5, 60 ∷ []) ∷ (4, 51 ∷ []) ∷ []) datas rows)
    ≡ has_row 1 51 9 (setup_group_object_permissions 1 9 (51 ∷ []) rows)
batch_equals_setup_example =
    batch_equals_setup 1 4 9 51 (51 ∷ []) ((5, 60 ∷ []) ∷ []) [] datas rows data-1 refl refl
