-- ===== src/Projects/Team/Sync.antt =====
-- apps/projects/models.py, `set_role_groups_members`: the users of a role given to people groups are
-- the members of those people groups.
use projects_backend.Base.{
  if◌then◌else◌, ==_iff, Bool-cases, mem, any, ok-injective, bind_ok, ok, ℕ, ◌≡◌, refl, subst, ◌∙◌,
  ◌≢◌, inl, inr, Bool, true, false, ◌||◌, Option, List, [], ◌∷◌, arith,
}
use projects_backend.Projects.Team.{
  optional_groups, remove_each, remove_users, validate_optional, same_role_iff, owners, reviewers,
  members, owner_groups, reviewer_groups, member_groups, remove_people_groups, remove_members, Role,
  Team, role_names, same_role, add_people_group, set_role_group_members, set_role_groups_members,
  members_of_all,
}
use projects_backend.Base.Roster.{assign, mem-assign, mem-union, union}
use projects_backend.Projects.Team.Exclusive.{is_direct}

not_same : (r s : Role) → r ≢ s → same_role r s ≡ false
not_same r s ne = elim (Bool-cases (same_role r s)) [
  | inl e ↦ absurd (ne ((same_role_iff r s).0 e))
  | inr e ↦ e
]

module _ (all_members : ℕ → List ℕ) where
  -- Whether a user belongs to one of some people groups.
  abbrev pub in_some : ℕ → List ℕ → Bool
  in_some u gs = any (λ g. mem u (all_members g)) gs

  mem-members_of_all :
      (u : ℕ) (acc gs : List ℕ)
      → mem u (members_of_all all_members acc gs) ≡ (mem u acc || in_some u gs)
  unfolding members_of_all
  mem-members_of_all u acc [] = ground arith
  mem-members_of_all u acc (g ∷ gs) =
      ground (
        arith,
        mem-members_of_all u (union acc (all_members g)) gs,
        mem-union u acc (all_members g),
      )

  pub users-set_role_group_members :
      (r g : Role) (t : Team) (u : ℕ)
      → mem u ((set_role_group_members all_members r t).users g)
        ≡ (if same_role g r then in_some u (t.people_groups r) else mem u (t.users g))
  unfolding set_role_group_members
  users-set_role_group_members r g t u = elim (Bool-cases (same_role g r)) [
    | inl e ↦ rw e (mem-members_of_all u [] (t.people_groups r))
    | inr e ↦ rw e refl
  ]

  pub groups-set_role_group_members :
      (r : Role) (t : Team)
      → (set_role_group_members all_members r t).people_groups ≡ t.people_groups
  unfolding set_role_group_members
  groups-set_role_group_members r t = refl

  -- The users of each group role are the members of the people groups that have it.
  pub record IsSynced (t : Team) : Type 0 where
    pub in_role :
        (g : Role) (u : ℕ) → is_direct g ≡ false → mem u (t.users g) ≡ in_some u (t.people_groups g)

  -- From any team whatever, `set_role_groups_members` brings all three group roles in line, and it
  -- leaves the people groups and the direct roles alone.
  pub set_role_groups_members-IsSynced :
      (t : Team)
      → IsSynced (set_role_groups_members all_members t)
        × ((set_role_groups_members all_members t).people_groups ≡ t.people_groups)
        × ((r : Role)
            → is_direct r ≡ true
            → (set_role_groups_members all_members t).users r ≡ t.users r)
  unfolding set_role_groups_members set_role_group_members
  set_role_groups_members-IsSynced t = (record { in_role = synced }, refl, direct)
    where
      synced :
          (g : Role) (u : ℕ)
          → is_direct g ≡ false
          → mem u ((set_role_groups_members all_members t).users g)
            ≡ in_some u ((set_role_groups_members all_members t).people_groups g)
      synced owner_groups u h = mem-members_of_all u [] (t.people_groups owner_groups)
      synced reviewer_groups u h = mem-members_of_all u [] (t.people_groups reviewer_groups)
      synced member_groups u h = mem-members_of_all u [] (t.people_groups member_groups)
      synced owners u h = cc
      synced _ u h = cc

      direct :
          (r : Role)
          → is_direct r ≡ true
          → (set_role_groups_members all_members t).users r ≡ t.users r
      direct owners h = refl
      direct reviewers h = refl
      direct members h = refl
      direct owner_groups h = cc
      direct _ h = cc

  -- A removal, of users, of people groups or of both, ends with the group roles in line.
  pub remove_members-IsSynced :
      (users groups : Option (List ℕ)) (t t' : Team)
      → remove_members all_members users groups t ≡ ok t'
      → IsSynced t'
  unfolding remove_members remove_people_groups
  remove_members-IsSynced users groups t t' h =
      let (us, _, done) = bind_ok (validate_optional t users) _ t' h in
      subst IsSynced (ok-injective _ t' done)
        (set_role_groups_members-IsSynced (record (remove_users us t) {
          people_groups = remove_each (optional_groups t groups) (remove_users us t).people_groups;
        })).0

  -- A people group that is given a role loses its other roles, and the users of the new role are
  -- brought in line; but the users of a role that it had before stay as they were, its own members
  -- among them.
  pub add_people_group_rows :
      (pg : ℕ) (g : Role) (t : Team) (r : Role)
      → r ≢ g
      → (mem pg ((add_people_group all_members pg g t).1.people_groups r) ≡ false)
        × (mem pg ((add_people_group all_members pg g t).1.people_groups g) ≡ true)
        × ((u : ℕ)
            → mem u ((add_people_group all_members pg g t).1.users g)
              ≡ in_some u ((add_people_group all_members pg g t).1.people_groups g))
        × ((add_people_group all_members pg g t).1.users r ≡ t.users r)
  unfolding add_people_group set_role_group_members
  add_people_group_rows pg g t r ne =
      let itself : same_role g g ≡ true = (same_role_iff g g).1 refl in
      let other : same_role r g ≡ false = not_same r g ne in
      let rows = λ (s : Role). mem-assign pg pg g t.people_groups s in
      (
        rows r ∙ rw (other, (==_iff pg pg).1 refl),
        rows g ∙ rw (itself, (==_iff pg pg).1 refl),
        λ u. rw itself (mem-members_of_all u [] (assign pg g t.people_groups g)),
        rw other,
      )
