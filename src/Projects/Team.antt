-- ===== src/Projects/Team.antt =====
-- The team of a project: its six permission groups (apps/projects/models.py) and the two serializers
-- that add and remove their members (apps/projects/serializers.py).
-- A user's rows are `users`, a people group's rows are `people_groups`. The six groups are those that
-- `Project.setup_permissions` links to the project.
pub mod Ownership
pub mod Exclusive
pub mod Sync
mod Tests
use projects_backend.Base.{
  ◌==◌, if◌then◌else◌, ==_iff, mem, any, all, filter, Result, ◌>>=◌, ◌>>◌, ok, err, ℕ, ◌≡◌, refl,
  sym, ap, ◌∙◌, ◌↔◌, Bool, true, false, not, ◌&&◌, Option, none, some, List, [], ◌∷◌, ◌++◌,
}
use projects_backend.Base.Roster.{RoleNames, Roster, withdraw, assign, union}

-- `GroupData.project_roles()`
pub data Role : Type 0 where
  owners reviewers members owner_groups reviewer_groups member_groups : Role

-- the position of a role, by which two roles are compared
abbrev pub role_index : Role → ℕ
role_index owners = 0
role_index reviewers = 1
role_index members = 2
role_index owner_groups = 3
role_index reviewer_groups = 4
role_index member_groups = 5

abbrev pub same_role : Role → Role → Bool
same_role r s = role_index r == role_index s

role_of_index : ℕ → Role
role_of_index i =
    if i == 0
    then owners
    else if i == 1
    then reviewers
    else if i == 2
    then members
    else if i == 3
    then owner_groups
    else if i == 4
    then reviewer_groups
    else member_groups

role_of_index-role_index : (r : Role) → role_of_index (role_index r) ≡ r
unfolding role_of_index
role_of_index-role_index owners = refl
role_of_index-role_index reviewers = refl
role_of_index-role_index members = refl
role_of_index-role_index owner_groups = refl
role_of_index-role_index reviewer_groups = refl
role_of_index-role_index member_groups = refl

pub same_role_iff : (r s : Role) → (same_role r s ≡ true) ↔ (r ≡ s)
same_role_iff r s = (
  λ h.
      sym (role_of_index-role_index r)
      ∙ ap role_of_index ((==_iff (role_index r) (role_index s)).0 h)
      ∙ role_of_index-role_index s,
  λ e. (==_iff (role_index r) (role_index s)).1 (ap role_index e),
)

instance abbrev pub role_names : RoleNames Role
role_names = record { same = same_role; same_iff = same_role_iff }

abbrev pub user_roles : List Role
user_roles = owners ∷ reviewers ∷ members ∷ []

abbrev pub group_roles : List Role
group_roles = owner_groups ∷ reviewer_groups ∷ member_groups ∷ []

-- `Project.PublicationStatus`
pub data PublicationStatus : Type 0 where
  public private org : PublicationStatus

pub data TeamError : Type 0 where
  remove_last_project_owner : TeamError

-- `only_reviewer_can_publish` lists that flag for each category of the project.
pub record Team : Type 0 where
  pub users : Roster Role
  pub people_groups : Roster Role
  pub publication_status : PublicationStatus
  pub only_reviewer_can_publish : List Bool

-- `project.groups.filter(...).exists()` for one of the two rosters
abbrev pub holds_role : ℕ → Roster Role → Bool
holds_role u rows = any (λ r. mem u (rows r)) (user_roles ++ group_roles)

-- The dictionary that an added user or people group is reported by.
pub record Added : Type 0 where
  pub is_people_group : Bool
  pub id : ℕ
  pub created : Bool
  pub role : Role

abbrev is_empty : List ℕ → Bool
is_empty [] = true
is_empty (x ∷ xs) = false

abbrev any_true : List Bool → Bool
any_true = any (λ b. b)

-- The first reviewer of a project that only reviewers may publish takes it out of publication.
abbrev pub demote : Role → Team → Team
demote g t =
    if same_role g reviewers && is_empty (t.users reviewers) && any_true t.only_reviewer_can_publish
    then record t { publication_status = private }
    else t

pub add_user : ℕ → Role → Team → Added × Team
add_user u g t =
    let created = not (holds_role u t.users) in
    let t' = demote g t in
    (
      record { is_people_group = false; id = u; created = created; role = g },
      record t' { users = assign u g t'.users },
    )

pub add_users : Role → List ℕ → Team → List Added × Team
add_users g [] t = ([], t)
add_users g (u ∷ us) t =
    let (added, t') = add_user u g t in let (rest, t'') = add_users g us t' in (added ∷ rest, t'')

pub add_roles :
    (Role → List ℕ → Team → List Added × Team) → List Role → Roster Role → Team → List Added × Team
add_roles add [] request t = ([], t)
add_roles add (g ∷ gs) request t =
    let (added, t') = add g (request g) t in
    let (rest, t'') = add_roles add gs request t' in (added ++ rest, t'')

pub remove_each : List ℕ → Roster Role → Roster Role
remove_each [] rows = rows
remove_each (u ∷ us) rows = remove_each us (withdraw u rows)

pub validate_users : Team → List ℕ → Result TeamError (List ℕ)
validate_users t users =
    if all (λ o. mem o users) (t.users owners)
    then err remove_last_project_owner
    else ok (filter (λ x. holds_role x t.users) users)

validate_people_groups : Team → List ℕ → List ℕ
validate_people_groups t groups = filter (λ x. holds_role x t.people_groups) groups

pub remove_users : List ℕ → Team → Team
remove_users us t = record t { users = remove_each us t.users }

-- A field that the request leaves out is not validated, and lists nobody.
pub validate_optional : Team → Option (List ℕ) → Result TeamError (List ℕ)
validate_optional t none = ok []
validate_optional t (some users) = validate_users t users

pub optional_groups : Team → Option (List ℕ) → List ℕ
optional_groups t none = []
optional_groups t (some groups) = validate_people_groups t groups

-- `all_members` is `PeopleGroup.get_all_members`.
module _ (all_members : ℕ → List ℕ) where
  pub members_of_all : List ℕ → List ℕ → List ℕ
  members_of_all acc [] = acc
  members_of_all acc (g ∷ gs) = members_of_all (union acc (all_members g)) gs

  pub set_role_group_members : Role → Team → Team
  set_role_group_members g t = record t {
    users = λ r. if same_role r g then members_of_all [] (t.people_groups g) else t.users r;
  }

  pub set_role_groups_members : Team → Team
  set_role_groups_members t =
      set_role_group_members reviewer_groups
        (set_role_group_members owner_groups (set_role_group_members member_groups t))

  pub add_people_group : ℕ → Role → Team → Added × Team
  add_people_group pg g t =
      let created = not (holds_role pg t.people_groups) in
      (
        record { is_people_group = true; id = pg; created = created; role = g },
        set_role_group_members g (record t { people_groups = assign pg g t.people_groups }),
      )

  pub add_people_groups : Role → List ℕ → Team → List Added × Team
  add_people_groups g [] t = ([], t)
  add_people_groups g (pg ∷ pgs) t =
      let (added, t') = add_people_group pg g t in
      let (rest, t'') = add_people_groups g pgs t' in (added ∷ rest, t'')

  -- `ProjectAddTeamMembersSerializer.create`; a role that the request leaves out lists nobody
  pub add_members : Roster Role → Team → List Added × Team
  add_members request t =
      let (users_added, t') = add_roles add_users user_roles request t in
      let (groups_added, t'') = add_roles add_people_groups group_roles request t' in
      (users_added ++ groups_added, t'')

  pub remove_people_groups : List ℕ → Team → Team
  remove_people_groups pgs t =
      set_role_groups_members (record t { people_groups = remove_each pgs t.people_groups })

  -- `is_valid(raise_exception=True)` and then `save()`
  pub remove_members : Option (List ℕ) → Option (List ℕ) → Team → Result TeamError Team
  remove_members users groups t = do
    us ← validate_optional t users
    ok (remove_people_groups (optional_groups t groups) (remove_users us t))
