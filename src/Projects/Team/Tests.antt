-- ===== src/Projects/Team/Tests.antt =====
-- Runs of the team serializers of apps/projects/serializers.py on a small team.
use projects_backend.Base.{
  ◌==◌, if◌then◌else◌, mem, ok, err, ℕ, ◌≡◌, refl, ap, ◌≢◌, true, false, none, some, List, [], ◌∷◌,
  arith,
}
use projects_backend.Projects.Team.{
  remove_last_project_owner, optional_groups, validate_users, validate_optional,
  set_role_groups_members, remove_users, private, add_members, role_index, remove_people_groups,
  remove_members, add_user, add_people_group, Role, owners, reviewers, members, owner_groups,
  member_groups, Team, public, role_names,
}
use projects_backend.Projects.Team.Sync.{
  in_some, IsSynced, set_role_groups_members-IsSynced, remove_members-IsSynced,
  add_people_group_rows,
}
use projects_backend.Projects.Team.Exclusive.{is_direct, IsExclusive, add_members-IsExclusive}
use projects_backend.Base.Roster.{Roster}
use projects_backend.Projects.Team.Ownership.{remove_members_keeps_owner}

-- people group 100 has the members 7 and 8
abbrev all_members : ℕ → List ℕ
all_members g = if g == 100 then 7 ∷ 8 ∷ [] else []

abbrev team_users : Roster Role
team_users owners = 1 ∷ 2 ∷ []
team_users members = 3 ∷ []
team_users owner_groups = 7 ∷ 8 ∷ []
team_users _ = []

abbrev team_groups : Roster Role
team_groups owner_groups = 100 ∷ []
team_groups _ = []

abbrev team : Team
team = record {
  users = team_users;
  people_groups = team_groups;
  publication_status = public;
  only_reviewer_can_publish = true ∷ [];
}

abbrev team_removed : Team
team_removed = remove_people_groups all_members [] (remove_users (1 ∷ 3 ∷ []) team)

-- user 9 is nobody in the team, and is left out of the removal
remove_two : remove_members all_members (some (1 ∷ 9 ∷ 3 ∷ [])) none team ≡ ok team_removed
unfolding remove_members validate_optional validate_users optional_groups remove_users
    remove_people_groups
remove_two = refl

-- naming both owners is refused
remove_owners :
    remove_members all_members (some (2 ∷ 1 ∷ [])) none team ≡ err remove_last_project_owner
unfolding remove_members validate_optional validate_users
remove_owners = refl

-- the first reviewer makes the project private
first_reviewer : (add_user 3 reviewers team).1.publication_status ≡ private
unfolding add_user
first_reviewer = refl

remove_members_keeps_owner_example : (o : ℕ) × (mem o (team_removed.users owners) ≡ true)
remove_members_keeps_owner_example =
    remove_members_keeps_owner all_members (some (1 ∷ 9 ∷ 3 ∷ [])) none team team_removed 1 refl
      remove_two

abbrev team_request : Roster Role
team_request owners = 3 ∷ []
team_request reviewers = 1 ∷ 4 ∷ []
team_request _ = []

direct_roles :
    (u : ℕ) (r s : Role)
    → is_direct r ≡ true
    → is_direct s ≡ true
    → mem u (team_users r) ≡ true
    → mem u (team_users s) ≡ true
    → r ≡ s
direct_roles u owners owners dr ds hr hs = refl
direct_roles u members members dr ds hr hs = refl
direct_roles u reviewers s dr ds hr hs = cc
direct_roles u owners members dr ds hr hs = ground arith
direct_roles u members owners dr ds hr hs = ground arith
direct_roles u r reviewers dr ds hr hs = cc
direct_roles u r s dr ds hr hs = cc

team-IsExclusive : IsExclusive team
team-IsExclusive = record { one_role = direct_roles }

add_members-IsExclusive_example : IsExclusive (add_members all_members team_request team).1
add_members-IsExclusive_example =
    add_members-IsExclusive all_members team_request team team-IsExclusive

set_role_groups_members-IsSynced_example :
    IsSynced all_members (set_role_groups_members all_members team)
    × ((set_role_groups_members all_members team).people_groups ≡ team_groups)
    × ((r : Role)
        → is_direct r ≡ true
        → (set_role_groups_members all_members team).users r ≡ team_users r)
set_role_groups_members-IsSynced_example = set_role_groups_members-IsSynced all_members team

remove_members-IsSynced_test : IsSynced all_members team_removed
remove_members-IsSynced_test =
    remove_members-IsSynced all_members (some (1 ∷ 9 ∷ 3 ∷ [])) none team team_removed remove_two

-- the people group is moved from `owner_groups` to `member_groups`
abbrev moved : Team
moved = (add_people_group all_members 100 member_groups team).1

not_owner_groups : owner_groups ≢ member_groups
not_owner_groups e = cc (ap role_index e)

add_people_group_rows_test :
    (mem 100 (moved.people_groups owner_groups) ≡ false)
    × (mem 100 (moved.people_groups member_groups) ≡ true)
    × ((u : ℕ)
        → mem u (moved.users member_groups)
          ≡ in_some all_members u (moved.people_groups member_groups))
    × (moved.users owner_groups ≡ 7 ∷ 8 ∷ [])
add_people_group_rows_test =
    add_people_group_rows all_members 100 member_groups team owner_groups not_owner_groups
