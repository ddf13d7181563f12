-- ===== src/Teams.antt =====
-- The teams of people groups and of organizations: the serializers of apps/accounts/serializers.py and
-- apps/organizations/serializers.py that add and remove members, with `get_all_members` and
-- `set_role_groups_members` of `PeopleGroup` in apps/accounts/models.py.
-- Keycloak, which has a group for each organization, is a list of its members.
pub mod Exclusive
pub mod Mirror
pub mod Sync
mod Tests
use projects_backend.Base.{
  ◌==◌, if◌then◌else◌, ==_iff, mem, filter, ℕ, ◌≡◌, refl, sym, ap, ◌∙◌, ◌↔◌, Bool, true, not, List,
  [], ◌∷◌, ◌++◌, map,
}
use projects_backend.Base.Roster.{RoleNames, Roster, union, insert, assign, withdraw}
use projects_backend.Projects.Team.{Team, Role, user_roles, group_roles, set_role_group_members}

-- `GroupData.people_group_roles`
pub data GroupRole : Type 0 where
  leaders managers members : GroupRole

-- `GroupData.organization_roles`
pub data OrganizationRole : Type 0 where
  admins facilitators users viewers : OrganizationRole

abbrev group_role_index : GroupRole → ℕ
group_role_index leaders = 0
group_role_index managers = 1
group_role_index members = 2

abbrev group_role_of : ℕ → GroupRole
group_role_of i = if i == 0 then leaders else if i == 1 then managers else members

group_role_of-index : (r : GroupRole) → group_role_of (group_role_index r) ≡ r
group_role_of-index leaders = refl
group_role_of-index managers = refl
group_role_of-index members = refl

abbrev pub same_group_role : GroupRole → GroupRole → Bool
same_group_role r s = group_role_index r == group_role_index s

pub same_group_role_iff : (r s : GroupRole) → (same_group_role r s ≡ true) ↔ (r ≡ s)
same_group_role_iff r s = (
  λ h.
      sym (group_role_of-index r)
      ∙ ap group_role_of ((==_iff (group_role_index r) (group_role_index s)).0 h)
      ∙ group_role_of-index s,
  λ e. (==_iff (group_role_index r) (group_role_index s)).1 (ap group_role_index e),
)

instance abbrev pub group_role_names : RoleNames GroupRole
group_role_names = record { same = same_group_role; same_iff = same_group_role_iff }

abbrev organization_role_index : OrganizationRole → ℕ
organization_role_index admins = 0
organization_role_index facilitators = 1
organization_role_index users = 2
organization_role_index viewers = 3

abbrev organization_role_of : ℕ → OrganizationRole
organization_role_of i =
    if i == 0 then admins else if i == 1 then facilitators else if i == 2 then users else viewers

organization_role_of-index :
    (r : OrganizationRole) → organization_role_of (organization_role_index r) ≡ r
organization_role_of-index admins = refl
organization_role_of-index facilitators = refl
organization_role_of-index users = refl
organization_role_of-index viewers = refl

abbrev pub same_organization_role : OrganizationRole → OrganizationRole → Bool
same_organization_role r s = organization_role_index r == organization_role_index s

pub same_organization_role_iff :
    (r s : OrganizationRole) → (same_organization_role r s ≡ true) ↔ (r ≡ s)
same_organization_role_iff r s = (
  λ h.
      sym (organization_role_of-index r)
      ∙ ap organization_role_of
          ((==_iff (organization_role_index r) (organization_role_index s)).0 h)
      ∙ organization_role_of-index s,
  λ e.
      (==_iff (organization_role_index r) (organization_role_index s)).1
        (ap organization_role_index e),
)

instance abbrev pub organization_role_names : RoleNames OrganizationRole
organization_role_names = record {
  same = same_organization_role;
  same_iff = same_organization_role_iff;
}

module _ {R : Type 0} ⦃n : RoleNames R⦄ where
  -- the users of one field of the request, each taken out of every group and put into one
  pub assign_each : R → List ℕ → Roster R → Roster R
  assign_each r [] rows = rows
  assign_each r (u ∷ us) rows = assign_each r us (assign u r rows)

  -- the fields of the request, `validated_data.get(role, [])`, in turn
  pub assign_roles : List R → Roster R → Roster R → Roster R
  assign_roles [] request rows = rows
  assign_roles (r ∷ rs) request rows = assign_roles rs request (assign_each r (request r) rows)

pub withdraw_each : {R : Type 0} → List ℕ → Roster R → Roster R
withdraw_each [] rows = rows
withdraw_each (u ∷ us) rows = withdraw_each us (withdraw u rows)

-- The people groups by identifier, and the projects that they may be in.
pub record Groups : Type 0 where
  pub rosters : ℕ → Roster GroupRole
  pub projects : List Team

-- `get_all_members`
pub get_all_members : (ℕ → Roster GroupRole) → ℕ → List ℕ
get_all_members rosters pg =
    union (union (rosters pg managers) (rosters pg members)) (rosters pg leaders)

-- `project.set_role_group_member(group)` for the groups of a project that the people group is in
pub sync_roles : (ℕ → List ℕ) → ℕ → List Role → Team → Team
sync_roles all_members pg [] t = t
sync_roles all_members pg (r ∷ rs) t =
    sync_roles all_members pg rs
      (if mem pg (t.people_groups r) then set_role_group_members all_members r t else t)

-- `PeopleGroup.set_role_groups_members`
pub sync_projects : ℕ → Groups → Groups
sync_projects pg w = record w {
  projects = map (sync_roles (get_all_members w.rosters) pg (user_roles ++ group_roles)) w.projects;
}

abbrev pub set_roster : ℕ → Roster GroupRole → Groups → Groups
set_roster pg rows w = record w { rosters = λ g. if g == pg then rows else w.rosters g }

-- `PeopleGroupAddTeamMembersSerializer.create`
pub add_group_members : ℕ → Roster GroupRole → Groups → Groups
add_group_members pg request w =
    sync_projects pg
      (set_roster pg (assign_roles (leaders ∷ managers ∷ members ∷ []) request (w.rosters pg)) w)

-- `PeopleGroupRemoveTeamMembersSerializer.create`
pub remove_group_members : ℕ → List ℕ → Groups → Groups
remove_group_members pg us w = sync_projects pg (set_roster pg (withdraw_each us (w.rosters pg)) w)

-- An organization's groups and its group in Keycloak.
pub record OrganizationTeam : Type 0 where
  pub roster : Roster OrganizationRole
  pub keycloak : List ℕ

-- A call returns, or raises the exception of a user without a Keycloak account. No transaction takes
-- back what was written by then.
pub data TeamEnding : Type 0 where
  returned no_keycloak_account : TeamEnding

abbrev pub then_team :
    TeamEnding × OrganizationTeam
    → (OrganizationTeam → TeamEnding × OrganizationTeam)
    → TeamEnding × OrganizationTeam
then_team (returned, t) next = next t
then_team (no_keycloak_account, t) next = (no_keycloak_account, t)

-- `accounts` tells which users have a `keycloak_account`.
module _ (accounts : ℕ → Bool) where
  -- `user.add_to_keycloak_group(organization)`
  abbrev add_to_keycloak_group : ℕ → OrganizationTeam → TeamEnding × OrganizationTeam
  add_to_keycloak_group u t =
      if accounts u
      then (returned, record t { keycloak = insert u t.keycloak })
      else (no_keycloak_account, t)

  -- `user.remove_from_keycloak_group(organization)`
  abbrev remove_from_keycloak_group : ℕ → OrganizationTeam → TeamEnding × OrganizationTeam
  remove_from_keycloak_group u t =
      if accounts u
      then (returned, record t { keycloak = filter (λ x. not (x == u)) t.keycloak })
      else (no_keycloak_account, t)

  abbrev pub add_organization_member :
      OrganizationRole → ℕ → OrganizationTeam → TeamEnding × OrganizationTeam
  add_organization_member r u t =
      add_to_keycloak_group u (record t { roster = assign u r t.roster })

  pub add_each_member : OrganizationRole → List ℕ → OrganizationTeam → TeamEnding × OrganizationTeam
  add_each_member r [] t = (returned, t)
  add_each_member r (u ∷ us) t = then_team (add_organization_member r u t) (add_each_member r us)

  pub add_member_roles :
      List OrganizationRole
      → Roster OrganizationRole
      → OrganizationTeam
      → TeamEnding × OrganizationTeam
  add_member_roles [] request t = (returned, t)
  add_member_roles (r ∷ rs) request t =
      then_team (add_each_member r (request r) t) (add_member_roles rs request)

  -- `OrganizationAddTeamMembersSerializer.create`
  pub add_organization_members :
      Roster OrganizationRole → OrganizationTeam → TeamEnding × OrganizationTeam
  add_organization_members = add_member_roles (admins ∷ facilitators ∷ users ∷ viewers ∷ [])

  abbrev pub remove_organization_member : ℕ → OrganizationTeam → TeamEnding × OrganizationTeam
  remove_organization_member u t =
      remove_from_keycloak_group u (record t { roster = withdraw u t.roster })

  -- `OrganizationRemoveTeamMembersSerializer.create`
  pub remove_organization_members : List ℕ → OrganizationTeam → TeamEnding × OrganizationTeam
  remove_organization_members [] t = (returned, t)
  remove_organization_members (u ∷ us) t =
      then_team (remove_organization_member u t) (remove_organization_members us)
