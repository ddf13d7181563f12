-- ===== src/Visibility/Grants.antt =====
-- Granting rights to a user never hides anything from it.
use projects_backend.Base.{Bool-cases, mem, ℕ, ◌≡◌, refl, inl, inr, true, List, [], ◌∷◌, arith}
use projects_backend.Visibility.{
  Project, Announced, Profile, PeopleGroup, OrgPermission, view_org_project, view_project,
  view_org_projectuser, view_projectuser, view_org_peoplegroup, view_peoplegroup, Viewer, user,
  sees_project, sees_announced, sees_user, sees_people_group, meets_list,
}

abbrev IsWithin : List ℕ → List ℕ → Type 0
IsWithin xs ys = (x : ℕ) → mem x xs ≡ true → mem x ys ≡ true

-- `w` is the same user as `v` with some more rights.
pub record HasMoreRights (v w : Viewer) : Type 0 where
  pub same_id : v.id ≡ w.id
  pub super : v.is_superuser ≡ true → w.is_superuser ≡ true
  pub orgs_with :
      (permission : OrgPermission) → IsWithin (v.orgs_with permission) (w.orgs_with permission)
  pub project_rights : IsWithin v.project_rights w.project_rights
  pub group_rights : IsWithin v.group_rights w.group_rights
  pub people_groups : IsWithin v.people_groups w.people_groups
  pub organizations : IsWithin v.organizations w.organizations

meets_list-grow :
    (xs ys zs : List ℕ) → IsWithin ys zs → meets_list xs ys ≡ true → meets_list xs zs ≡ true
meets_list-grow [] ys zs more h = h
meets_list-grow (x ∷ xs) ys zs more h = elim (Bool-cases (mem x ys)) [
  | inl e ↦ rw (more x e) refl
  | inr e ↦ let rest = meets_list-grow xs ys zs more (ground arith) in ground arith
]

-- Every project, announcement, profile and people group that a user sees, it still sees with more
-- rights.
pub grants_only_reveal :
    (v w : Viewer)
    → HasMoreRights v w
    → ((p : Project) → sees_project (user v) p ≡ true → sees_project (user w) p ≡ true)
      × ((permission : OrgPermission) (a : Announced)
          → sees_announced permission (user v) a ≡ true
          → sees_announced permission (user w) a ≡ true)
      × ((u : Profile) → sees_user (user v) u ≡ true → sees_user (user w) u ≡ true)
      × ((g : PeopleGroup)
          → sees_people_group (user v) g ≡ true
          → sees_people_group (user w) g ≡ true)
grants_only_reveal v w more = (
  λ p h.
      let org_wide =
        meets_list-grow p.organizations (v.orgs_with view_org_project)
          (w.orgs_with view_org_project) (more.orgs_with view_org_project) in
      let all_wide =
        meets_list-grow p.organizations (v.orgs_with view_project) (w.orgs_with view_project)
          (more.orgs_with view_project) in
      let own = more.project_rights p.id in let super = more.super in ground arith,
  λ permission a h.
      let groups =
        meets_list-grow a.people_groups v.people_groups w.people_groups more.people_groups in
      let members = more.organizations a.organization in
      let all_wide = more.orgs_with permission a.organization in
      let super = more.super in ground arith,
  λ u h.
      let org_wide =
        meets_list-grow u.organizations (v.orgs_with view_org_projectuser)
          (w.orgs_with view_org_projectuser) (more.orgs_with view_org_projectuser) in
      let all_wide =
        meets_list-grow u.organizations (v.orgs_with view_projectuser)
          (w.orgs_with view_projectuser) (more.orgs_with view_projectuser) in
      let super = more.super in let same = more.same_id in ground arith,
  λ g h.
      let own = more.group_rights g.id in
      let org_wide = more.orgs_with view_org_peoplegroup g.organization in
      let all_wide = more.orgs_with view_peoplegroup g.organization in
      let super = more.super in ground arith,
)
