-- ===== src/Teams/Exclusive.antt =====
-- The team serializers of people groups and organizations leave every user in at most one group.
use projects_backend.Base.{
  ◌==◌, if◌then◌else◌, Bool-cases, mem, ℕ, ◌≡◌, sym, ◌∙◌, inl, inr, Bool, true, false, List, [],
  ◌∷◌, arith,
}
use projects_backend.Base.Roster.{RoleNames, Roster, assign, withdraw, mem-assign, mem-withdraw}
use projects_backend.Teams.{
  GroupRole, group_role_names, assign_each, assign_roles, withdraw_each, Groups, add_group_members,
  remove_group_members, sync_projects,
}

-- Nobody is in two groups.
pub record IsOneRole {R : Type 0} (rows : Roster R) : Type 0 where
  pub one_role : (u : ℕ) (r s : R) → mem u (rows r) ≡ true → mem u (rows s) ≡ true → r ≡ s

module _ {R : Type 0} ⦃n : RoleNames R⦄ where
  pub assign-IsOneRole :
      (u : ℕ) (g : R) (rows : Roster R) → IsOneRole rows → IsOneRole (assign u g rows)
  assign-IsOneRole u g rows h = record {
    one_role = λ v r s hr hs. elim (Bool-cases (v == u)) [
      | inl e ↦
          let in_r : n.same r g ≡ true = rw e at (sym (mem-assign v u g rows r) ∙ hr) in
          let in_s : n.same s g ≡ true = rw e at (sym (mem-assign v u g rows s) ∙ hs) in
          (n.same_iff r g).0 in_r ∙ sym ((n.same_iff s g).0 in_s)
      | inr e ↦
          h.one_role v r s (rw e at (sym (mem-assign v u g rows r) ∙ hr))
            (rw e at (sym (mem-assign v u g rows s) ∙ hs))
    ];
  }

  assign_each-IsOneRole :
      (g : R) (us : List ℕ) (rows : Roster R) → IsOneRole rows → IsOneRole (assign_each g us rows)
  unfolding assign_each
  assign_each-IsOneRole g [] rows h = h
  assign_each-IsOneRole g (u ∷ us) rows h =
      assign_each-IsOneRole g us (assign u g rows) (assign-IsOneRole u g rows h)

  assign_roles-IsOneRole :
      (rs : List R) (request rows : Roster R)
      → IsOneRole rows
      → IsOneRole (assign_roles rs request rows)
  unfolding assign_roles
  assign_roles-IsOneRole [] request rows h = h
  assign_roles-IsOneRole (r ∷ rs) request rows h =
      assign_roles-IsOneRole rs request (assign_each r (request r) rows)
        (assign_each-IsOneRole r (request r) rows h)

module _ {R : Type 0} where
  pub withdraw-IsOneRole : (u : ℕ) (rows : Roster R) → IsOneRole rows → IsOneRole (withdraw u rows)
  withdraw-IsOneRole u rows h = record {
    one_role = λ v r s hr hs.
        let in_r = sym (mem-withdraw v u rows r) ∙ hr in
        let in_s = sym (mem-withdraw v u rows s) ∙ hs in
        h.one_role v r s (ground arith) (ground arith);
  }

  withdraw_each-IsOneRole :
      (us : List ℕ) (rows : Roster R) → IsOneRole rows → IsOneRole (withdraw_each us rows)
  unfolding withdraw_each
  withdraw_each-IsOneRole [] rows h = h
  withdraw_each-IsOneRole (u ∷ us) rows h =
      withdraw_each-IsOneRole us (withdraw u rows) (withdraw-IsOneRole u rows h)

at_group :
    (b : Bool) (rows rows' : Roster GroupRole)
    → IsOneRole rows
    → IsOneRole rows'
    → IsOneRole (if b then rows else rows')
at_group true rows rows' h h' = h
at_group false rows rows' h h' = h'

-- Adding and removing members of a people group, with whatever lists of users, leaves every user in
-- at most one of the groups of each people group.
pub group_members-IsOneRole :
    (pg : ℕ) (request : Roster GroupRole) (us : List ℕ) (w : Groups)
    → ((g : ℕ) → IsOneRole (w.rosters g))
    → ((g : ℕ) → IsOneRole ((add_group_members pg request w).rosters g))
      × ((g : ℕ) → IsOneRole ((remove_group_members pg us w).rosters g))
unfolding add_group_members remove_group_members sync_projects
group_members-IsOneRole pg request us w h = (
  λ g.
      at_group (g == pg) _ (w.rosters g) (assign_roles-IsOneRole _ request (w.rosters pg) (h pg))
        (h g),
  λ g. at_group (g == pg) _ (w.rosters g) (withdraw_each-IsOneRole us (w.rosters pg) (h pg)) (h g),
)
