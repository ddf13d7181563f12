-- ===== src/Teams/Sync.antt =====
-- A people group whose members change keeps the projects that it is in up to date:
-- `PeopleGroup.set_role_groups_members` of apps/accounts/models.py.
use projects_backend.Base.{
  ◌==◌, if◌then◌else◌, Bool-cases, mem, any, ℕ, ◌≡◌, refl, sym, ap, subst, ◌∙◌, inl, inr, true,
  false, ◌&&◌, List, [], ◌∷◌, ◌++◌, map, arith,
}
use projects_backend.Base.Roster.{Roster}
use projects_backend.Projects.Team.{
  Team, Role, owners, reviewers, user_roles, group_roles, same_role, same_role_iff,
  set_role_group_members,
}
use projects_backend.Projects.Team.Sync.{
  IsSynced, in_some, groups-set_role_group_members, users-set_role_group_members,
}
use projects_backend.Teams.{
  GroupRole, Groups, get_all_members, sync_roles, sync_projects, set_roster, add_group_members,
  remove_group_members,
}

-- Some people groups without the one that changed have the members that they had.
in_some_kept :
    (before after : ℕ → List ℕ) (pg u : ℕ) (gs : List ℕ)
    → ((g : ℕ) → (g == pg) ≡ false → after g ≡ before g)
    → mem pg gs ≡ false
    → in_some after u gs ≡ in_some before u gs
in_some_kept before after pg u [] same h = refl
in_some_kept before after pg u (g ∷ gs) same h =
    let apart : (g == pg) ≡ false = ground arith in
    rw (same g apart, in_some_kept before after pg u gs same (ground arith)) refl

module _ (after : ℕ → List ℕ) (pg : ℕ) where
  -- Syncing some roles leaves the people groups alone and sets the users of those of the roles that
  -- the people group has.
  sync_roles_groups :
      (rs : List Role) (t : Team) → (sync_roles after pg rs t).people_groups ≡ t.people_groups
  unfolding sync_roles
  sync_roles_groups [] t = refl
  sync_roles_groups (r ∷ rs) t = elim (Bool-cases (mem pg (t.people_groups r))) [
    | inl e ↦
        rw (sync_roles, e)
          (sync_roles_groups rs (set_role_group_members after r t)
            ∙ groups-set_role_group_members after r t)
    | inr e ↦ rw (sync_roles, e) (sync_roles_groups rs t)
  ]

  -- the role at the head of the list, when the people group has it and when it has not
  step_in :
      (rs : List Role) (t : Team) (g r : Role) (u : ℕ)
      → mem pg (t.people_groups r) ≡ true
      → (if any (same_role g) rs && mem pg (t.people_groups g)
          then in_some after u (t.people_groups g)
          else if same_role g r
          then in_some after u (t.people_groups r)
          else mem u (t.users g))
        ≡ (if any (same_role g) (r ∷ rs) && mem pg (t.people_groups g)
            then in_some after u (t.people_groups g)
            else mem u (t.users g))
  step_in rs t g r u e = elim (Bool-cases (same_role g r)) [
    | inl same ↦
        subst
          (λ s.
            (if any (same_role g) rs && mem pg (t.people_groups g)
              then in_some after u (t.people_groups g)
              else if same_role g s
              then in_some after u (t.people_groups s)
              else mem u (t.users g))
            ≡ (if any (same_role g) (s ∷ rs) && mem pg (t.people_groups g)
                then in_some after u (t.people_groups g)
                else mem u (t.users g)))
          ((same_role_iff g r).0 same)
          (let itself : same_role g g ≡ true = (same_role_iff g g).1 refl in
            let in_g : mem pg (t.people_groups g) ≡ true =
              subst (λ s. mem pg (t.people_groups s) ≡ true) (sym ((same_role_iff g r).0 same)) e in
            rw (itself, in_g) (ground arith))
    | inr other ↦ rw other refl
  ]

  step_out :
      (rs : List Role) (t : Team) (g r : Role) (u : ℕ)
      → mem pg (t.people_groups r) ≡ false
      → (if any (same_role g) rs && mem pg (t.people_groups g)
          then in_some after u (t.people_groups g)
          else mem u (t.users g))
        ≡ (if any (same_role g) (r ∷ rs) && mem pg (t.people_groups g)
            then in_some after u (t.people_groups g)
            else mem u (t.users g))
  step_out rs t g r u e = elim (Bool-cases (same_role g r)) [
    | inl same ↦
        let in_g : mem pg (t.people_groups g) ≡ false =
          subst (λ s. mem pg (t.people_groups s) ≡ false) (sym ((same_role_iff g r).0 same)) e in
        rw in_g (ground arith)
    | inr other ↦ rw other refl
  ]

  sync_roles_users :
      (rs : List Role) (t : Team) (g : Role) (u : ℕ)
      → mem u ((sync_roles after pg rs t).users g) ≡ (
          if any (same_role g) rs && mem pg (t.people_groups g)
          then in_some after u (t.people_groups g)
          else mem u (t.users g))
  unfolding sync_roles
  sync_roles_users [] t g u = refl
  sync_roles_users (r ∷ rs) t g u = elim (Bool-cases (mem pg (t.people_groups r))) [
    | inl e ↦
        rw (sync_roles, e)
          (sync_roles_users rs (set_role_group_members after r t) g u
            ∙ rw
                (
                  groups-set_role_group_members after r t,
                  users-set_role_group_members after r g t u,
                )
                (step_in rs t g r u e))
    | inr e ↦ rw (sync_roles, e) (sync_roles_users rs t g u ∙ step_out rs t g r u e)
  ]

listed : (g : Role) → any (same_role g) (user_roles ++ group_roles) ≡ true
listed owners = refl
listed reviewers = refl
listed _ = refl

sync-IsSynced :
    (before after : ℕ → List ℕ) (pg : ℕ) (t : Team)
    → ((g : ℕ) → (g == pg) ≡ false → after g ≡ before g)
    → IsSynced before t
    → IsSynced after (sync_roles after pg (user_roles ++ group_roles) t)
sync-IsSynced before after pg t same h = record {
  in_role = λ g u group_role.
      let now = sync_roles_users after pg (user_roles ++ group_roles) t g u in
      let groups : (sync_roles after pg (user_roles ++ group_roles) t).people_groups g
          ≡ t.people_groups g =
        ap (λ rows. rows g) (sync_roles_groups after pg (user_roles ++ group_roles) t) in
      now
      ∙ rw (listed g) (elim (Bool-cases (mem pg (t.people_groups g))) [
        | inl e ↦ rw e (ap (in_some after u) (sym groups))
        | inr e ↦ rw e (
            h.in_role g u group_role
            ∙ sym (in_some_kept before after pg u (t.people_groups g) same e)
            ∙ ap (in_some after u) (sym groups))
      ]);
}

-- The group roles of each of these projects are in line with the members of the people groups.
abbrev pub AllSynced : (ℕ → List ℕ) → List Team → Type 0
AllSynced all_members [] = Unit
AllSynced all_members (t ∷ ts) = IsSynced all_members t × AllSynced all_members ts

sync-AllSynced :
    (before after : ℕ → List ℕ) (pg : ℕ) (ts : List Team)
    → ((g : ℕ) → (g == pg) ≡ false → after g ≡ before g)
    → AllSynced before ts
    → AllSynced after (map (sync_roles after pg (user_roles ++ group_roles)) ts)
sync-AllSynced before after pg [] same h = tt
sync-AllSynced before after pg (t ∷ ts) same (first, rest) =
    (sync-IsSynced before after pg t same first, sync-AllSynced before after pg ts same rest)

other_group_kept :
    (pg : ℕ) (rows : Roster GroupRole) (w : Groups) (g : ℕ)
    → (g == pg) ≡ false
    → get_all_members (set_roster pg rows w).rosters g ≡ get_all_members w.rosters g
unfolding get_all_members
other_group_kept pg rows w g ne = rw ne refl

-- Adding and removing members of a people group keeps every project in line: if the users of the
-- owner, reviewer and member groups of all projects were the members of the people groups that have
-- those roles, they still are after the change.
pub group_members_keep_sync :
    (pg : ℕ) (request : Roster GroupRole) (us : List ℕ) (w : Groups)
    → AllSynced (get_all_members w.rosters) w.projects
    → AllSynced
        (get_all_members (add_group_members pg request w).rosters)
        (add_group_members pg request w).projects
      × AllSynced
          (get_all_members (remove_group_members pg us w).rosters)
          (remove_group_members pg us w).projects
unfolding add_group_members remove_group_members sync_projects
group_members_keep_sync pg request us w h = (
  sync-AllSynced (get_all_members w.rosters) _ pg w.projects (other_group_kept pg _ w) h,
  sync-AllSynced (get_all_members w.rosters) _ pg w.projects (other_group_kept pg _ w) h,
)
