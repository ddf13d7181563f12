-- ===== src/Teams/Mirror.antt =====
-- An organization's group in Keycloak after its members change.
use projects_backend.Base.{
  ◌==◌, ==_iff, Bool-cases, mem, any, all, mem-filter, ℕ, ◌≡◌, refl, sym, ap, ◌∙◌, inl, inr, Bool,
  true, false, not, ◌&&◌, ◌||◌, List, [], ◌∷◌, arith,
}
use projects_backend.Base.Roster.{Roster, assign, withdraw, mem-assign, mem-withdraw, mem-insert}
use projects_backend.Teams.{
  OrganizationRole, admins, facilitators, users, viewers, organization_role_names,
  same_organization_role, OrganizationTeam, TeamEnding, returned, no_keycloak_account, then_team,
  add_organization_member, add_each_member, remove_organization_member, add_member_roles,
  add_organization_members, remove_organization_members,
}
use projects_backend.Teams.Exclusive.{IsOneRole, assign-IsOneRole, withdraw-IsOneRole}

abbrev pub organization_roles : List OrganizationRole
organization_roles = admins ∷ facilitators ∷ users ∷ viewers ∷ []

abbrev is_member : ℕ → Roster OrganizationRole → Bool
is_member u rows = any (λ r. mem u (rows r)) organization_roles

-- Nobody has two roles, and among the users with an account in Keycloak, the members are those of the
-- group in Keycloak.
pub record IsMirrored (accounts : ℕ → Bool) (t : OrganizationTeam) : Type 0 where
  pub one_role : IsOneRole t.roster
  pub mirrored : (u : ℕ) → accounts u ≡ true → mem u t.keycloak ≡ is_member u t.roster

in_some_role :
    (g : OrganizationRole) → any (λ r. same_organization_role r g) organization_roles ≡ true
in_some_role admins = refl
in_some_role facilitators = refl
in_some_role users = refl
in_some_role viewers = refl

is_member-assign :
    (v u : ℕ) (g : OrganizationRole) (rows : Roster OrganizationRole)
    → is_member v (assign u g rows) ≡ (v == u || is_member v rows)
is_member-assign v u g rows = elim (Bool-cases (v == u)) [
  | inl e ↦
      rw
        (
          mem-assign v u g rows admins,
          mem-assign v u g rows facilitators,
          mem-assign v u g rows users,
          mem-assign v u g rows viewers,
          e,
        )
        (in_some_role g)
  | inr e ↦
      rw
        (
          mem-assign v u g rows admins,
          mem-assign v u g rows facilitators,
          mem-assign v u g rows users,
          mem-assign v u g rows viewers,
          e,
        )
        refl
]

is_member-withdraw :
    (v u : ℕ) (rows : Roster OrganizationRole)
    → is_member v (withdraw u rows) ≡ (not (v == u) && is_member v rows)
is_member-withdraw v u rows =
    rw
      (
        mem-withdraw v u rows admins,
        mem-withdraw v u rows facilitators,
        mem-withdraw v u rows users,
        mem-withdraw v u rows viewers,
      )
      (ground arith)

abbrev pub is_returned : TeamEnding → Bool
is_returned returned = true
is_returned no_keycloak_account = false

module _ (accounts : ℕ → Bool) where
  -- A call that keeps the mirror however it ends, and returns exactly when a test says so.
  abbrev Keeps : Bool → TeamEnding × OrganizationTeam → Type 0
  Keeps b (ending, t) = IsMirrored accounts t × (is_returned ending ≡ b)

  then_team-Keeps :
      (a b : Bool) (r : TeamEnding × OrganizationTeam)
      (next : OrganizationTeam → TeamEnding × OrganizationTeam)
      → Keeps a r
      → ((t : OrganizationTeam) → IsMirrored accounts t → Keeps b (next t))
      → Keeps (a && b) (then_team r next)
  then_team-Keeps a b (returned, t) next (h, e) go = let (kept, f) = go t h in (kept, ground arith)
  then_team-Keeps a b (no_keycloak_account, t) next (h, e) go = (h, ground arith)

  -- what an account makes of a change of the roster
  of_others : (u v : ℕ) → accounts u ≡ false → accounts v ≡ true → (v == u) ≡ false
  of_others u v none_there there = elim (Bool-cases (v == u)) [
    | inr e ↦ e
    | inl e ↦ let same = ap accounts ((==_iff v u).0 e) in cc
  ]

  add_member-Keeps :
      (g : OrganizationRole) (u : ℕ) (t : OrganizationTeam)
      → IsMirrored accounts t
      → Keeps (accounts u) (add_organization_member accounts g u t)
  add_member-Keeps g u t h = elim (Bool-cases (accounts u)) [
    | inl e ↦ rw e (
      record {
        one_role = assign-IsOneRole u g t.roster h.one_role;
        mirrored = λ v a.
            mem-insert v u t.keycloak ∙ rw (h.mirrored v a) (sym (is_member-assign v u g t.roster));
      },
      refl,
    )
    | inr e ↦ rw e (
      record {
        one_role = assign-IsOneRole u g t.roster h.one_role;
        mirrored = λ v a.
            h.mirrored v a ∙ sym (is_member-assign v u g t.roster ∙ rw (of_others u v e a) refl);
      },
      refl,
    )
  ]

  add_each_member-Keeps :
      (g : OrganizationRole) (us : List ℕ) (t : OrganizationTeam)
      → IsMirrored accounts t
      → Keeps (all accounts us) (add_each_member accounts g us t)
  unfolding add_each_member
  add_each_member-Keeps g [] t h = (h, refl)
  add_each_member-Keeps g (u ∷ us) t h =
      then_team-Keeps (accounts u) (all accounts us) (add_organization_member accounts g u t)
        (add_each_member accounts g us) (add_member-Keeps g u t h) (add_each_member-Keeps g us)

  add_member_roles-Keeps :
      (rs : List OrganizationRole) (request : Roster OrganizationRole) (t : OrganizationTeam)
      → IsMirrored accounts t
      → Keeps (all (λ r. all accounts (request r)) rs) (add_member_roles accounts rs request t)
  unfolding add_member_roles
  add_member_roles-Keeps [] request t h = (h, refl)
  add_member_roles-Keeps (r ∷ rs) request t h =
      then_team-Keeps (all accounts (request r)) (all (λ q. all accounts (request q)) rs)
        (add_each_member accounts r (request r) t) (add_member_roles accounts rs request)
        (add_each_member-Keeps r (request r) t h) (add_member_roles-Keeps rs request)

  remove_member-Keeps :
      (u : ℕ) (t : OrganizationTeam)
      → IsMirrored accounts t
      → Keeps (accounts u) (remove_organization_member accounts u t)
  remove_member-Keeps u t h = elim (Bool-cases (accounts u)) [
    | inl e ↦ rw e (
      record {
        one_role = withdraw-IsOneRole u t.roster h.one_role;
        mirrored = λ v a.
            mem-filter (λ x. not (x == u)) v t.keycloak
            ∙ rw (h.mirrored v a) (sym (is_member-withdraw v u t.roster));
      },
      refl,
    )
    | inr e ↦ rw e (
      record {
        one_role = withdraw-IsOneRole u t.roster h.one_role;
        mirrored = λ v a.
            h.mirrored v a ∙ sym (is_member-withdraw v u t.roster ∙ rw (of_others u v e a) refl);
      },
      refl,
    )
  ]

  remove-Keeps :
      (us : List ℕ) (t : OrganizationTeam)
      → IsMirrored accounts t
      → Keeps (all accounts us) (remove_organization_members accounts us t)
  unfolding remove_organization_members
  remove-Keeps [] t h = (h, refl)
  remove-Keeps (u ∷ us) t h =
      then_team-Keeps (accounts u) (all accounts us) (remove_organization_member accounts u t)
        (remove_organization_members accounts us) (remove_member-Keeps u t h) (remove-Keeps us)

-- Adding and removing members of an organization returns exactly when all the users of the request
-- have an account in Keycloak, as long as Keycloak does what it is asked. However it ends, with part of
-- the request written when it raises, everybody stays in at most one of the organization's groups, and
-- the users with an account are in its group in Keycloak exactly if they are in one of these groups.
pub organization_members-IsMirrored :
    (accounts : ℕ → Bool) (request : Roster OrganizationRole) (us : List ℕ) (t : OrganizationTeam)
    → IsMirrored accounts t
    → IsMirrored accounts (add_organization_members accounts request t).1
      × IsMirrored accounts (remove_organization_members accounts us t).1
      × (is_returned (add_organization_members accounts request t).0
          ≡ all (λ r. all accounts (request r)) organization_roles)
      × (is_returned (remove_organization_members accounts us t).0 ≡ all accounts us)
unfolding add_organization_members
organization_members-IsMirrored accounts request us t h =
    let (added, adds) = add_member_roles-Keeps accounts organization_roles request t h in
    let (removed, removes) = remove-Keeps accounts us t h in (added, removed, adds, removes)
