-- ===== src/Permissions/Tests.antt =====
-- Permission checks at concrete requests.
use projects_backend.Base.{ok, ◌≡◌, refl, ◌↔◌, Bool, true, false, none, some, [], ◌∷◌}
use projects_backend.Permissions.{
  delete, destroy, PermissionName, bare, within, User, Request, has_project_permission, read_only,
}
use projects_backend.Permissions.Locks.{
  Project, has_permission, has_object_permission, lock_bars_changes, IsFree,
}
use projects_backend.Permissions.Visitors.{
  allows, allows_object, alternatives, anonymous_only_reads, object_check_ignores_app,
}

abbrev visitor : User
visitor = record { id = 0; is_authenticated = false; has_perm = λ name target. true }

abbrev is_bare : PermissionName → Bool
is_bare (bare c) = true
is_bare (within a c) = false

abbrev by_codename : User
by_codename = record { id = 9; is_authenticated = true; has_perm = λ name target. is_bare name }

abbrev by_any_name : User
by_any_name = record { id = 9; is_authenticated = true; has_perm = λ name target. true }

abbrev removal : User → Request
removal u = record { method = delete; action = destroy; user = u }

abbrev locked : Project
locked = record { id = 3; is_locked = true; organizations = 5 ∷ [] }

anonymous_only_reads_test :
    (allows
        (read_only ∷ alternatives (λ u. true) 4 none (5 ∷ []) (5 ∷ []) (some 3) (some 3))
        (removal visitor)
      ≡ false)
    × (allows_object
          (read_only ∷ alternatives (λ u. true) 4 none (5 ∷ []) (5 ∷ []) (some 3) (some 3))
          (removal visitor)
        ≡ false)
anonymous_only_reads_test =
    anonymous_only_reads (λ u. true) 4 none (5 ∷ []) (5 ∷ []) (some 3) (some 3) (removal visitor)
      refl

object_check_ignores_app_test :
    (has_project_permission 4 (some 1) (some 3) none).has_object_permission (removal by_codename)
    ≡ (has_project_permission 4 (some 2) (some 3) none).has_object_permission (removal by_any_name)
object_check_ignores_app_test =
    object_check_ignores_app 4 (some 1) (some 2) (some 3) none (removal by_codename)
      (removal by_any_name) refl (λ p. refl)

lock_bars_changes_example :
    (((has_permission (some locked) (removal by_codename) ≡ ok true)
        × (has_object_permission (some locked) (removal by_codename) ≡ ok true))
      ↔ IsFree locked (removal by_codename))
    × (has_permission none (removal by_codename) ≡ ok true)
    × (has_object_permission none (removal by_codename) ≡ ok true)
lock_bars_changes_example = lock_bars_changes locked (removal by_codename)
