-- ===== src/Permissions/Visitors.antt =====
-- What the permission classes let anonymous visitors do, and what `HasProjectPermission` asks.
use projects_backend.Base.{
  any, ℕ, ◌≡◌, refl, Bool, false, ◌&&◌, Option, none, some, List, [], ◌∷◌, arith,
}
use projects_backend.Permissions.{
  Request, Permission, bare, may_on_project, project, first_of, is_safe, read_only, is_owner,
  has_base_permission, has_organization_permission, has_people_group_permission,
  has_project_permission,
}

-- Whether one of the alternatives of a view, `A | B | ...`, lets a request through.
abbrev pub allows : List Permission → Request → Bool
allows ps r = any (λ (p : Permission). p.has_permission r) ps

abbrev pub allows_object : List Permission → Request → Bool
allows_object ps r = any (λ (p : Permission). p.has_permission r && p.has_object_permission r) ps

-- The alternatives that the viewsets combine with `ReadOnly`.
abbrev pub alternatives :
    (ℕ → Bool) → ℕ → Option ℕ → List ℕ → List ℕ → Option ℕ → Option ℕ → List Permission
alternatives owned_by codename app related related_obj shown shown_obj =
    is_owner owned_by
    ∷ has_base_permission codename app
    ∷ has_organization_permission codename app related related_obj
    ∷ has_people_group_permission codename app related related_obj
    ∷ has_project_permission codename app shown shown_obj
    ∷ []

-- An anonymous request gets through `ReadOnly | IsOwner | HasBasePermission |
-- HasOrganizationPermission | HasPeopleGroupPermission | HasProjectPermission`, whatever the
-- permissions say, exactly when its method is a safe one, with an object or without.
pub anonymous_only_reads :
    (owned_by : ℕ → Bool) (codename : ℕ) (app : Option ℕ) (related related_obj : List ℕ)
    (shown shown_obj : Option ℕ) (r : Request)
    → r.user.is_authenticated ≡ false
    → (allows (read_only ∷ alternatives owned_by codename app related related_obj shown shown_obj) r
        ≡ is_safe r.method)
      × (allows_object
            (read_only ∷ alternatives owned_by codename app related related_obj shown shown_obj)
            r
          ≡ is_safe r.method)
anonymous_only_reads owned_by codename app related related_obj shown shown_obj r anonymous =
    (ground arith, ground arith)

-- The check with an object depends on the permission without its app alone: two users who are
-- authenticated and agree on `codename` get the same answer, whatever they hold as `app.codename`.
pub object_check_ignores_app :
    (codename : ℕ) (app app' related related_obj : Option ℕ) (r r' : Request)
    → r.user.is_authenticated ≡ r'.user.is_authenticated
    → ((p : ℕ)
        → r.user.has_perm (bare codename) (project p)
          ≡ r'.user.has_perm (bare codename) (project p))
    → (has_project_permission codename app related related_obj).has_object_permission r
      ≡ (has_project_permission codename app' related related_obj).has_object_permission r'
object_check_ignores_app codename app app' related related_obj r r' auth same =
    same_answer (first_of related_obj related)
  where
    same_answer :
        (o : Option ℕ)
        → (r.user.is_authenticated && may_on_project (bare codename) o r.user)
          ≡ (r'.user.is_authenticated && may_on_project (bare codename) o r'.user)
    same_answer none = rw auth refl
    same_answer (some p) = rw (auth, same p) refl
