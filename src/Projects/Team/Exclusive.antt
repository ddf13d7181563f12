-- ===== src/Projects/Team/Exclusive.antt =====
-- apps/projects/serializers.py, `ProjectAddTeamMembersSerializer`: one role for each user.
use projects_backend.Base.{
  leb, ◌==◌, if◌then◌else◌, Bool-cases, mem, ℕ, ◌≡◌, refl, sym, ◌∙◌, ◌≢◌, ◌⊎◌, inl, inr, Bool, true,
  false, not, List, [], ◌∷◌, arith,
}
use projects_backend.Projects.Team.{
  owners, reviewers, members, owner_groups, reviewer_groups, member_groups, set_role_group_members,
  private, add_people_groups, add_people_group, add_members, role_index, holds_role, Role, Team,
  role_names, same_role, same_role_iff, demote, add_user, add_users, add_roles,
}
use projects_backend.Base.Roster.{Roster, mem-assign}

-- The roles that a user is given directly, not through a people group.
abbrev pub is_direct : Role → Bool
is_direct r = leb (role_index r) 2

users-if : (b : Bool) (t t' : Team) → t'.users ≡ t.users → (if b then t' else t).users ≡ t.users
users-if true t t' e = e
users-if false t t' e = refl

users-demote : (g : Role) (t : Team) → (demote g t).users ≡ t.users
users-demote g t = users-if _ t (record t { publication_status = private }) refl

-- After `add_user` the user is in the group of the given role and in none of the project's other
-- groups, every other user is where they were, and the call reports whether the user is new.
add_user_exclusive :
    (u : ℕ) (g : Role) (t : Team) (v : ℕ) (r : Role)
    → (mem v ((add_user u g t).1.users r) ≡ (if v == u then same_role r g else mem v (t.users r)))
      × ((add_user u g t).0.created ≡ not (holds_role u t.users))
unfolding add_user
add_user_exclusive u g t v r = (rw (users-demote g t) (mem-assign v u g t.users r), refl)

-- No user has two direct roles.
pub record IsExclusive (t : Team) : Type 0 where
  pub one_role :
      (u : ℕ) (r s : Role)
      → is_direct r ≡ true
      → is_direct s ≡ true
      → mem u (t.users r) ≡ true
      → mem u (t.users s) ≡ true
      → r ≡ s

-- Only the user's own rows can have changed, and those are the given role's.
kept_or_given :
    (u : ℕ) (g : Role) (t : Team) (v : ℕ) (r : Role)
    → mem v ((add_user u g t).1.users r) ≡ true
    → ((v ≡ u) × (r ≡ g)) ⊎ ((v ≢ u) × (mem v (t.users r) ≡ true))
kept_or_given u g t v r h = elim (Bool-cases (v == u)) [
  | inl e ↦ inl (ground arith, (same_role_iff r g).0 (ground (arith, add_user_exclusive u g t v r)))
  | inr e ↦ inr (ground arith, ground (arith, add_user_exclusive u g t v r))
]

add_user-IsExclusive :
    (u : ℕ) (g : Role) (t : Team) → IsExclusive t → IsExclusive (add_user u g t).1
add_user-IsExclusive u g t h = record {
  one_role = λ v r s dr ds hr hs. elim (kept_or_given u g t v r hr) [
    | inl given ↦ elim (kept_or_given u g t v s hs) [
      | inl also ↦ given.1 ∙ sym also.1
      | inr other ↦ absurd (other.0 given.0)
    ]
    | inr kept ↦ elim (kept_or_given u g t v s hs) [
      | inl given ↦ absurd (kept.0 given.0)
      | inr other ↦ h.one_role v r s dr ds kept.1 other.1
    ]
  ];
}

add_users-IsExclusive :
    (g : Role) (us : List ℕ) (t : Team) → IsExclusive t → IsExclusive (add_users g us t).1
unfolding add_users
add_users-IsExclusive g [] t h = h
add_users-IsExclusive g (u ∷ us) t h =
    add_users-IsExclusive g us (add_user u g t).1 (add_user-IsExclusive u g t h)

module _ (all_members : ℕ → List ℕ) where
  -- Adding a people group writes only to the group of a group role.
  add_people_group-IsExclusive :
      (pg : ℕ) (g : Role) (t : Team)
      → is_direct g ≡ false
      → IsExclusive t
      → IsExclusive (add_people_group all_members pg g t).1
  unfolding add_people_group set_role_group_members
  add_people_group-IsExclusive pg g t group_role h = record {
    one_role =
        λ v r s dr ds hr hs. h.one_role v r s dr ds (direct_rows v r dr hr) (direct_rows v s ds hs);
  }
    where
      direct_rows :
          (v : ℕ) (r : Role)
          → is_direct r ≡ true
          → mem v ((add_people_group all_members pg g t).1.users r) ≡ true
          → mem v (t.users r) ≡ true
      direct_rows v r dr hr = ground arith

  add_people_groups-IsExclusive :
      (g : Role) (pgs : List ℕ) (t : Team)
      → is_direct g ≡ false
      → IsExclusive t
      → IsExclusive (add_people_groups all_members g pgs t).1
  unfolding add_people_groups
  add_people_groups-IsExclusive g [] t gr h = h
  add_people_groups-IsExclusive g (pg ∷ pgs) t gr h =
      add_people_groups-IsExclusive g pgs (add_people_group all_members pg g t).1 gr
        (add_people_group-IsExclusive pg g t gr h)

  -- Any request to add members, of any roles and any length, keeps every user to one direct role.
  pub add_members-IsExclusive :
      (request : Roster Role) (t : Team)
      → IsExclusive t
      → IsExclusive (add_members all_members request t).1
  unfolding add_members add_roles
  add_members-IsExclusive request t h = add_people_groups-IsExclusive member_groups _ _ refl (
      add_people_groups-IsExclusive reviewer_groups _ _ refl (
        add_people_groups-IsExclusive owner_groups _ _ refl (
          add_users-IsExclusive members _ _
            (add_users-IsExclusive reviewers _ _ (add_users-IsExclusive owners _ _ h)))))
