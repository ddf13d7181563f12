-- ===== src/Teams/Tests.antt =====
-- The team serializers at concrete teams.
use projects_backend.Base.{
  ◌==◌, if◌then◌else◌, mem, all, ℕ, ◌≡◌, refl, Bool, true, not, [], ◌∷◌, arith,
}
use projects_backend.Teams.Mirror.{
  organization_roles, is_returned, IsMirrored, organization_members-IsMirrored,
}
use projects_backend.Teams.{
  add_each_member, add_member_roles, no_keycloak_account, GroupRole, leaders, managers,
  OrganizationRole, admins, facilitators, Groups, OrganizationTeam, get_all_members,
  add_group_members, remove_group_members, add_organization_members, remove_organization_members,
}
use projects_backend.Base.Roster.{Roster}
use projects_backend.Projects.Team.{Team, Role, member_groups, public, set_role_groups_members}
use projects_backend.Projects.Team.Sync.{set_role_groups_members-IsSynced}
use projects_backend.Teams.Exclusive.{IsOneRole, group_members-IsOneRole}
use projects_backend.Teams.Sync.{AllSynced, group_members_keep_sync}

-- people group 8 has the leader 1; it is a member group of the project
abbrev rosters : ℕ → Roster GroupRole
rosters g leaders = if g == 8 then 1 ∷ [] else []
rosters g managers = []
rosters g _ = []

abbrev groups_of : Roster Role
groups_of member_groups = 8 ∷ []
groups_of _ = []

abbrev project : Team
project = set_role_groups_members (get_all_members rosters) (record {
  users = λ r. [];
  people_groups = groups_of;
  publication_status = public;
  only_reviewer_can_publish = [];
})

abbrev world : Groups
world = record { rosters = rosters; projects = project ∷ [] }

-- user 2 becomes a manager
abbrev request : Roster GroupRole
request managers = 2 ∷ []
request _ = []

rosters-IsOneRole : (g : ℕ) → IsOneRole (rosters g)
rosters-IsOneRole g = record { one_role = only_leaders }
  where
    only_leaders :
        (u : ℕ) (r s : GroupRole) → mem u (rosters g r) ≡ true → mem u (rosters g s) ≡ true → r ≡ s
    only_leaders u leaders leaders hr hs = refl
    only_leaders u leaders managers hr hs = cc
    only_leaders u leaders _ hr hs = cc
    only_leaders u managers s hr hs = cc
    only_leaders u _ s hr hs = cc

world-AllSynced : AllSynced (get_all_members world.rosters) world.projects
world-AllSynced = ((set_role_groups_members-IsSynced (get_all_members rosters) _).0, tt)

group_members-IsOneRole_test :
    ((g : ℕ) → IsOneRole ((add_group_members 8 request world).rosters g))
    × ((g : ℕ) → IsOneRole ((remove_group_members 8 (1 ∷ []) world).rosters g))
group_members-IsOneRole_test = group_members-IsOneRole 8 request (1 ∷ []) world rosters-IsOneRole

group_members_keep_sync_example :
    AllSynced
      (get_all_members (add_group_members 8 request world).rosters)
      (add_group_members 8 request world).projects
    × AllSynced
        (get_all_members (remove_group_members 8 (1 ∷ []) world).rosters)
        (remove_group_members 8 (1 ∷ []) world).projects
group_members_keep_sync_example = group_members_keep_sync 8 request (1 ∷ []) world world-AllSynced

abbrev roster : Roster OrganizationRole
roster admins = 1 ∷ []
roster _ = []

abbrev organization : OrganizationTeam
organization = record { roster = roster; keycloak = 1 ∷ [] }

-- the admin becomes a facilitator, and 2 an admin
abbrev changes : Roster OrganizationRole
changes admins = 2 ∷ []
changes facilitators = 1 ∷ []
changes _ = []

-- every user but 2 has an account
abbrev has_account : ℕ → Bool
has_account u = not (u == 2)

organization-IsMirrored : IsMirrored has_account organization
organization-IsMirrored = record {
  one_role = record { one_role = only_admins };
  mirrored = λ u a. ground arith;
}
  where
    only_admins :
        (u : ℕ) (r s : OrganizationRole) → mem u (roster r) ≡ true → mem u (roster s) ≡ true → r ≡ s
    only_admins u admins admins hr hs = refl
    only_admins u admins facilitators hr hs = cc
    only_admins u admins _ hr hs = cc
    only_admins u facilitators s hr hs = cc
    only_admins u _ s hr hs = cc

organization_members-IsMirrored_example :
    IsMirrored has_account (add_organization_members has_account changes organization).1
    × IsMirrored has_account (remove_organization_members has_account (1 ∷ []) organization).1
    × (is_returned (add_organization_members has_account changes organization).0
        ≡ all (λ r. all has_account (changes r)) organization_roles)
    × (is_returned (remove_organization_members has_account (1 ∷ []) organization).0
        ≡ all has_account (1 ∷ []))
organization_members-IsMirrored_example =
    organization_members-IsMirrored has_account changes (1 ∷ []) organization
      organization-IsMirrored

-- the call ends at 2, who is not added to the group in Keycloak
stranded_test :
    ((add_organization_members has_account changes organization).0 ≡ no_keycloak_account)
    × ((add_organization_members has_account changes organization).1.keycloak ≡ 1 ∷ [])
unfolding add_organization_members add_member_roles add_each_member
stranded_test = (refl, refl)
