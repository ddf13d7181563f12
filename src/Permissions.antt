-- ===== src/Permissions.antt =====
-- Permission classes: apps/commons/permissions.py, apps/accounts/permissions.py,
-- apps/organizations/permissions.py and apps/projects/permissions.py.
-- `has_perm`, which asks Django's and guardian's backends, is outside: the field `has_perm` of `User`
-- is its answer. The objects that a view relates to (`get_related_project` and the like) are
-- arguments.
pub mod Locks
pub mod Visitors
mod Tests
use projects_backend.Base.{
  ◌==◌, if◌then◌else◌, any, ℕ, Bool, true, false, ◌&&◌, ◌||◌, Option, none, some, List,
}

-- the HTTP methods; the safe ones are GET, HEAD and OPTIONS
pub data Method : Type 0 where
  get head options post put patch delete : Method

-- `view.action`
pub data Action : Type 0 where
  list retrieve create update partial_update destroy add_member remove_member : Action
  other : ℕ → Action

-- `codename` or `app.codename`
pub data PermissionName : Type 0 where
  bare : ℕ → PermissionName
  within : (app codename : ℕ) → PermissionName

-- what a permission is asked for on, if on anything
pub data Target : Type 0 where
  nothing : Target
  project organization people_group : ℕ → Target

pub record User : Type 0 where
  pub id : ℕ
  pub is_authenticated : Bool
  pub has_perm : PermissionName → Target → Bool

pub record Request : Type 0 where
  pub method : Method
  pub action : Action
  pub user : User

abbrev pub is_safe : Method → Bool
is_safe get = true
is_safe head = true
is_safe options = true
is_safe post = false
is_safe put = false
is_safe patch = false
is_safe delete = false

abbrev pub is_create : Action → Bool
is_create create = true
is_create _ = false

abbrev is_create_or_list : Action → Bool
is_create_or_list create = true
is_create_or_list list = true
is_create_or_list _ = false

-- `map_action_to_permission`, for the four permissions of a model
pub data ModelPermission : Type 0 where
  view add change delete : ModelPermission

map_action_to_permission : Action → Option ModelPermission
map_action_to_permission list = some view
map_action_to_permission retrieve = some view
map_action_to_permission create = some add
map_action_to_permission update = some change
map_action_to_permission partial_update = some change
map_action_to_permission destroy = some delete
map_action_to_permission add_member = none
map_action_to_permission remove_member = none
map_action_to_permission (other n) = none

-- A permission class: its check of the request, and the one with an object.
pub record Permission : Type 0 where
  pub has_permission : Request → Bool
  pub has_object_permission : Request → Bool

-- a class whose check with an object is its check without
abbrev of_request : (Request → Bool) → Permission
of_request check = record { has_permission = check; has_object_permission = check }

-- `ReadOnly`
abbrev pub read_only : Permission
read_only = of_request (λ r. is_safe r.method)

-- `CreateOnly`
abbrev create_only : Permission
create_only = of_request (λ r. is_create r.action)

-- `IsAuthenticatedOrCreateOnly`
abbrev is_authenticated_or_create_only : Permission
is_authenticated_or_create_only = of_request (λ r. is_create r.action || r.user.is_authenticated)

-- `IsOwner`, for an object of which `owned_by` is `is_owned_by`
abbrev pub is_owner : (ℕ → Bool) → Permission
is_owner owned_by = record {
  has_permission = λ r. if is_create_or_list r.action then false else r.user.is_authenticated;
  has_object_permission = λ r. r.user.is_authenticated && owned_by r.user.id;
}

-- `WillBeOwner`: the user of `user_id` or `id` in the URL, or of `user` in the body
abbrev pub first_of : Option ℕ → Option ℕ → Option ℕ
first_of none second = second
first_of (some i) second = some i

abbrev is_user : Option ℕ → ℕ → Bool
is_user none i = false
is_user (some j) i = i == j

abbrev will_be_owner : Option ℕ → Option ℕ → Option ℕ → Permission
will_be_owner user_id url_id body_user =
    of_request
      (λ r. is_create r.action && is_user (first_of user_id (first_of url_id body_user)) r.user.id)

-- `f"{app}.{codename}"` if there is an app
abbrev permission_name : Option ℕ → ℕ → PermissionName
permission_name none codename = bare codename
permission_name (some app) codename = within app codename

-- `HasBasePermission`
abbrev pub has_base_permission : ℕ → Option ℕ → Permission
has_base_permission codename app =
    of_request
      (λ r. r.user.is_authenticated && r.user.has_perm (permission_name app codename) nothing)

-- `HasOrganizationPermission`, for the related organizations of the request and of the object
abbrev pub has_organization_permission : ℕ → Option ℕ → List ℕ → List ℕ → Permission
has_organization_permission codename app related related_obj = record {
  has_permission = λ r.
      r.user.is_authenticated
      && any (λ o. r.user.has_perm (permission_name app codename) (organization o)) related;
  has_object_permission = λ r.
      r.user.is_authenticated
      && any (λ o. r.user.has_perm (permission_name app codename) (organization o)) related_obj;
}

-- `HasPeopleGroupPermission`, for the related people groups of the request and of the object
abbrev pub has_people_group_permission : ℕ → Option ℕ → List ℕ → List ℕ → Permission
has_people_group_permission codename app related related_obj = record {
  has_permission = λ r.
      r.user.is_authenticated
      && any (λ g. r.user.has_perm (permission_name app codename) (people_group g)) related;
  has_object_permission = λ r.
      r.user.is_authenticated
      && any (λ g. r.user.has_perm (permission_name app codename) (people_group g)) related_obj;
}

abbrev pub may_on_project : PermissionName → Option ℕ → User → Bool
may_on_project name none u = false
may_on_project name (some p) u = u.has_perm name (project p)

-- `HasProjectPermission`, for the related project of the request and of the object, the second tried
-- first. With an object the answer for `f"{app}.{codename}"` is computed and thrown away.
abbrev pub has_project_permission : ℕ → Option ℕ → Option ℕ → Option ℕ → Permission
has_project_permission codename app related related_obj = record {
  has_permission =
      λ r. r.user.is_authenticated && may_on_project (permission_name app codename) related r.user;
  has_object_permission = λ r.
      r.user.is_authenticated
      && may_on_project (bare codename) (first_of related_obj related) r.user;
}
