-- ===== src/Projects/Team/Ownership.antt =====
-- apps/projects/serializers.py, `ProjectRemoveTeamMembersSerializer`: a removal leaves an owner.
use projects_backend.Base.{
  Bool-cases, mem, all, filter, mem-filter, ok-injective, err-ne-ok, ok, err, ℕ, ◌≡◌, refl, sym,
  subst, ◌∙◌, inl, inr, Bool, true, false, not, ◌&&◌, Option, none, some, List, [], ◌∷◌, arith,
}
use projects_backend.Projects.Team.{
  holds_role, remove_last_project_owner, remove_members, validate_users, validate_optional,
  optional_groups, Role, owners, Team, remove_each, remove_users, remove_people_groups,
  set_role_groups_members, set_role_group_members,
}
use projects_backend.Base.Roster.{Roster, withdraw, mem-withdraw}

-- Somebody in a list fails a test that not all pass.
some_fails :
    (p : ℕ → Bool) (xs : List ℕ) → all p xs ≡ false → (x : ℕ) × (mem x xs ≡ true) × (p x ≡ false)
some_fails p [] h = cc
some_fails p (x ∷ xs) h = elim (Bool-cases (p x)) [
  | inl passes ↦ let (y, there, fails) = some_fails p xs (ground arith) in (y, ground arith, fails)
  | inr fails ↦ (x, ground arith, fails)
]

mem-remove_each :
    (v : ℕ) (us : List ℕ) (rows : Roster Role) (r : Role)
    → mem v (remove_each us rows r) ≡ (not (mem v us) && mem v (rows r))
unfolding remove_each
mem-remove_each v [] rows r = ground arith
mem-remove_each v (u ∷ us) rows r =
    ground (arith, mem-remove_each v us (withdraw u rows) r, mem-withdraw v u rows r)

module _ (all_members : ℕ → List ℕ) where
  owners-remove_people_groups :
      (pgs : List ℕ) (t : Team)
      → (remove_people_groups all_members pgs t).users owners ≡ t.users owners
  unfolding remove_people_groups set_role_groups_members set_role_group_members
  owners-remove_people_groups pgs t = refl

  -- An owner whom the request does not name is still there after the removal.
  unnamed_owner_stays :
      (us pgs : List ℕ) (t : Team) (o : ℕ)
      → mem o (t.users owners) ≡ true
      → mem o us ≡ false
      → mem o ((remove_people_groups all_members pgs (remove_users us t)).users owners) ≡ true
  unfolding remove_users
  unnamed_owner_stays us pgs t o is_owner unnamed =
      rw (owners-remove_people_groups pgs (remove_users us t))
        (ground (arith, mem-remove_each o us t.users owners))

  -- A request that names every owner is refused.
  refused :
      (users : List ℕ) (groups : Option (List ℕ)) (t : Team)
      → all (λ x. mem x users) (t.users owners) ≡ true
      → remove_members all_members (some users) groups t ≡ err remove_last_project_owner
  unfolding remove_members validate_optional validate_users
  refused users groups t every = rw every

  accepted :
      (users : List ℕ) (groups : Option (List ℕ)) (t : Team)
      → all (λ x. mem x users) (t.users owners) ≡ false
      → remove_members all_members (some users) groups t
        ≡ ok (
            remove_people_groups all_members
              (optional_groups t groups)
              (remove_users (filter (λ x. holds_role x t.users) users) t))
  unfolding remove_members validate_optional validate_users
  accepted users groups t not_every = rw not_every

  -- A project that has an owner still has one after any removal that the serializer accepts, whether
  -- it names users, people groups, both or neither.
  pub remove_members_keeps_owner :
      (users groups : Option (List ℕ)) (t t' : Team) (o : ℕ)
      → mem o (t.users owners) ≡ true
      → remove_members all_members users groups t ≡ ok t'
      → (o' : ℕ) × (mem o' (t'.users owners) ≡ true)
  unfolding remove_members validate_optional
  remove_members_keeps_owner none groups t t' o is_owner done = (
    o,
    subst (λ x. mem o (x.users owners) ≡ true) (ok-injective _ t' done)
        (unnamed_owner_stays [] (optional_groups t groups) t o is_owner refl),
  )
  remove_members_keeps_owner (some users) groups t t' o is_owner done =
      elim (Bool-cases (all (λ x. mem x users) (t.users owners))) [
        | inl every ↦ (o, absurd (err-ne-ok _ t' (sym (refused users groups t every) ∙ done)))
        | inr not_every ↦
            let (kept, there, unnamed) = some_fails (λ x. mem x users) (t.users owners) not_every in
            (
              kept,
              subst (λ x. mem kept (x.users owners) ≡ true)
                  (ok-injective _ t' (sym (accepted users groups t not_every) ∙ done))
                  (unnamed_owner_stays (filter (λ x. holds_role x t.users) users)
                    (optional_groups t groups) t kept there
                    (ground (arith, mem-filter (λ x. holds_role x t.users) kept users))),
            )
      ]
