-- ===== src/Visibility.antt =====
-- What a visitor sees: the querysets of `ProjectUser` and `AnonymousUser` in apps/accounts/models.py.
-- `get_objects_for_user`, which reads the permissions that a user holds, is outside: what it returns
-- for each permission is a field of `Viewer`. A queryset is a filter of a table of rows.
pub mod Compare
pub mod Grants
mod Tests
use projects_backend.Base.{◌==◌, mem, any, filter, ℕ, Bool, true, false, ◌&&◌, ◌||◌, List, [], ◌∷◌}

-- `PublicationStatus` of projects and people groups, `PrivacyChoices` of profiles
pub data PublicationStatus : Type 0 where
  public org hidden : PublicationStatus

abbrev pub is_public : PublicationStatus → Bool
is_public public = true
is_public _ = false

abbrev is_org : PublicationStatus → Bool
is_org org = true
is_org _ = false

pub record Project : Type 0 where
  pub id : ℕ
  pub publication_status : PublicationStatus
  pub organizations : List ℕ

-- `News`, `Instruction` and `Event`: who they are for
pub record Announced : Type 0 where
  pub id : ℕ
  pub organization : ℕ
  pub people_groups : List ℕ
  pub visible_by_all : Bool

-- `organizations` are those whose groups the user is in.
pub record Profile : Type 0 where
  pub id : ℕ
  pub publication_status : PublicationStatus
  pub organizations : List ℕ

pub record PeopleGroup : Type 0 where
  pub id : ℕ
  pub publication_status : PublicationStatus
  pub organization : ℕ

-- the permissions on organizations that the querysets ask for
pub data OrgPermission : Type 0 where
  view_org_project view_project view_news view_instruction view_event : OrgPermission
  view_org_projectuser view_projectuser view_org_peoplegroup view_peoplegroup : OrgPermission

-- `ProjectUser`: `orgs_with` are the organizations on which it holds a permission, `project_rights`
-- and `group_rights` the projects and people groups that it may view, `people_groups` those that it
-- is in, and `organizations` its related organizations.
pub record Viewer : Type 0 where
  pub id : ℕ
  pub is_superuser : Bool
  pub orgs_with : OrgPermission → List ℕ
  pub project_rights : List ℕ
  pub group_rights : List ℕ
  pub people_groups : List ℕ
  pub organizations : List ℕ

-- a to-many `field__in`
abbrev pub meets_list : List ℕ → List ℕ → Bool
meets_list xs ys = any (λ x. mem x ys) xs

-- `people_groups__isnull=True`
abbrev is_null : List ℕ → Bool
is_null [] = true
is_null (x ∷ xs) = false

module _ (v : Viewer) where
  -- the filter of `ProjectUser.get_project_queryset`
  abbrev pub user_sees_project : Project → Bool
  user_sees_project p =
      v.is_superuser
      || is_public p.publication_status
      || (is_org p.publication_status && meets_list p.organizations (v.orgs_with view_org_project))
      || meets_list p.organizations (v.orgs_with view_project)
      || mem p.id v.project_rights

  -- the filter that `get_news_queryset`, `get_instruction_queryset` and `get_event_queryset` share
  abbrev pub user_sees_announced : OrgPermission → Announced → Bool
  user_sees_announced permission a =
      v.is_superuser
      || a.visible_by_all
      || meets_list a.people_groups v.people_groups
      || (mem a.organization v.organizations && is_null a.people_groups)
      || mem a.organization (v.orgs_with permission)

  -- the filter of `ProjectUser.get_user_queryset`
  abbrev pub user_sees_user : Profile → Bool
  user_sees_user u =
      v.is_superuser
      || u.id == v.id
      || is_public u.publication_status
      || (is_org u.publication_status
          && meets_list u.organizations (v.orgs_with view_org_projectuser))
      || meets_list u.organizations (v.orgs_with view_projectuser)

  -- the filter of `ProjectUser.get_people_group_queryset`
  abbrev pub user_sees_people_group : PeopleGroup → Bool
  user_sees_people_group g =
      v.is_superuser
      || is_public g.publication_status
      || mem g.id v.group_rights
      || (is_org g.publication_status && mem g.organization (v.orgs_with view_org_peoplegroup))
      || mem g.organization (v.orgs_with view_peoplegroup)

-- `AnonymousUser` or `ProjectUser`
pub data Visitor : Type 0 where
  anonymous : Visitor
  user : Viewer → Visitor

abbrev pub sees_project : Visitor → Project → Bool
sees_project anonymous p = is_public p.publication_status
sees_project (user v) p = user_sees_project v p

abbrev pub sees_announced : OrgPermission → Visitor → Announced → Bool
sees_announced permission anonymous a = a.visible_by_all
sees_announced permission (user v) a = user_sees_announced v permission a

abbrev pub sees_user : Visitor → Profile → Bool
sees_user anonymous u = is_public u.publication_status
sees_user (user v) u = user_sees_user v u

abbrev pub sees_people_group : Visitor → PeopleGroup → Bool
sees_people_group anonymous g = is_public g.publication_status
sees_people_group (user v) g = user_sees_people_group v g

pub get_project_queryset : Visitor → List Project → List Project
get_project_queryset v = filter (sees_project v)

pub get_news_queryset : Visitor → List Announced → List Announced
get_news_queryset v = filter (sees_announced view_news v)

pub get_instruction_queryset : Visitor → List Announced → List Announced
get_instruction_queryset v = filter (sees_announced view_instruction v)

pub get_event_queryset : Visitor → List Announced → List Announced
get_event_queryset v = filter (sees_announced view_event v)

pub get_user_queryset : Visitor → List Profile → List Profile
get_user_queryset v = filter (sees_user v)

pub get_people_group_queryset : Visitor → List PeopleGroup → List PeopleGroup
get_people_group_queryset v = filter (sees_people_group v)
