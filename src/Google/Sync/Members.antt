-- ===== src/Google/Sync/Members.antt =====
-- services/google/models.py: what `sync_members` makes of the members of a group in Google.
use projects_backend.Base.{
  Bool-cases, mem, any, filter, ℕ, ◌≡◌, refl, ap, ◌∙◌, inl, inr, Bool, true, not, ◌&&◌, ◌||◌,
  Option, none, List, [], ◌∷◌, map, arith,
}
use projects_backend.Google.Sync.{
  Linked, is_joined, in_team, close, sync, member_of, users_to_remove, users_to_add,
  sync_group_members, members_list,
}
use projects_backend.Google.Sync.{
  Call, Membership, same_membership, has, World, add_to, remove_from, each, members_insert,
  members_delete,
}
use projects_backend.Google.Sync.Rows.{IsIn, IsDistinct, has_filtered, has-joined}
use projects_backend.Google.Ledger.{Owner, OnTask, group, sync_members, returned}
use projects_backend.Google.Sync.Loops.{
  IsSingle, Goes, attempt-Goes, attempt_remote, add_to-Goes, remove_from-Goes,
}

pub has-delete :
    (m n : Membership) (ms : List Membership)
    → has m (filter (λ x. not (same_membership n x)) ms) ≡ (has m ms && not (same_membership m n))
has-delete m n [] = refl
has-delete m n (x ∷ ms) = ground (arith, has-delete m n ms)

has-same :
    (n m : Membership) (ms : List Membership) → same_membership n m ≡ true → has n ms ≡ has m ms
has-same n m [] h = refl
has-same n m (x ∷ ms) h =
    let later = has-same n m ms h in
    let first : same_membership n x ≡ same_membership m x = ground arith in rw (first, later) refl

module _ (refuses : Call → Option ℕ) (o : Owner) (t : OnTask) (is_retry : Bool) where
  -- Each call that the loops may make is accepted.
  abbrev AllAccepted : List Membership → Type 0
  AllAccepted [] = Unit {0}
  AllAccepted (m ∷ ms) =
      ((refuses (members_insert m.account_id m.group_id) ≡ none)
        × (refuses (members_delete m.account_id m.group_id) ≡ none))
      × AllAccepted ms

  added :
      (n m : Membership) (w : World)
      → refuses (members_insert m.account_id m.group_id) ≡ none
      → has n (add_to refuses o t is_retry m w).1.remote ≡ (same_membership n m || has n w.remote)
  unfolding add_to
  added n m w e = rw (attempt_remote o t) (elim (Bool-cases (has m w.remote)) [
    | inr new ↦ rw (new, e)
    | inl old ↦ rw old (elim (Bool-cases (same_membership n m)) [
      | inr other ↦ rw other refl
      | inl same ↦ rw same (has-same n m w.remote same ∙ old)
    ])
  ])

  removed :
      (n m : Membership) (w : World)
      → refuses (members_delete m.account_id m.group_id) ≡ none
      → has n (remove_from refuses o t is_retry m w).1.remote
        ≡ (has n w.remote && not (same_membership n m))
  unfolding remove_from
  removed n m w e = rw (attempt_remote o t) (rw e (has-delete n m w.remote))

  all_removed :
      (n : Membership) (ms : List Membership) (w : World)
      → AllAccepted ms
      → IsSingle o t w
      → Goes o t (each (remove_from refuses o t is_retry) ms w)
        × (has n (each (remove_from refuses o t is_retry) ms w).1.remote
            ≡ (has n w.remote && not (has n ms)))
  unfolding each
  all_removed n [] w a h = ((refl, h), ground arith)
  all_removed n (m ∷ ms) w ((ins, del), a) h =
      let (ending, single) = remove_from-Goes o t refuses is_retry m w h in
      let (goes, e) = all_removed n ms (remove_from refuses o t is_retry m w).1 a single in
      rw ending (goes, e ∙ rw (removed n m w del) (ground arith))

  all_added :
      (n : Membership) (ms : List Membership) (w : World)
      → AllAccepted ms
      → IsSingle o t w
      → Goes o t (each (add_to refuses o t is_retry) ms w)
        × (has n (each (add_to refuses o t is_retry) ms w).1.remote ≡ (has n ms || has n w.remote))
  unfolding each
  all_added n [] w a h = ((refl, h), refl)
  all_added n (m ∷ ms) w ((ins, del), a) h =
      let (ending, single) = add_to-Goes o t refuses is_retry m w h in
      let (goes, e) = all_added n ms (add_to refuses o t is_retry m w).1 a single in
      rw ending (goes, e ∙ rw (added n m w ins) (ground arith))

  close_remote :
      (w : World)
      → IsSingle o t w
      → ((close o t is_retry (returned, w)).0 ≡ returned)
        × ((close o t is_retry (returned, w)).1.remote ≡ w.remote)
  close_remote w h = ((attempt-Goes o t none is_retry w h).0, attempt_remote o t none is_retry w)

  synced :
      (n : Membership) (to_remove to_add : List Membership) (w : World)
      → AllAccepted to_remove
      → AllAccepted to_add
      → IsSingle o t w
      → ((sync refuses o t is_retry to_remove to_add w).0 ≡ returned)
        × (has n (sync refuses o t is_retry to_remove to_add w).1.remote
            ≡ (has n to_add || (has n w.remote && not (has n to_remove))))
  unfolding sync
  synced n rs ns w ar aa h =
      let ((e1, s1), g1) = all_removed n rs w ar h in
      let w1 = (each (remove_from refuses o t is_retry) rs w).1 in
      let ((e2, s2), g2) = all_added n ns w1 aa s1 in
      let w2 = (each (add_to refuses o t is_retry) ns w1).1 in
      let (e3, g3) = close_remote w2 s2 in rw (e1, e2) (e3, ap (λ z. has n z) g3 ∙ g2 ∙ rw g1)

-- Google answers each call about the group.
abbrev pub AnswersGroup : (refuses : Call → Option ℕ) → ℕ → Type 0
AnswersGroup refuses g =
    (refuses (members_list g) ≡ none)
    × ((a : ℕ) → (refuses (members_insert a g) ≡ none) × (refuses (members_delete a g) ≡ none))

accepted :
    (refuses : Call → Option ℕ) (o : Owner) (t : OnTask) (is_retry : Bool) (g : ℕ)
    → AnswersGroup refuses g
    → (xs : List Linked) → AllAccepted refuses o t is_retry (map (member_of g) xs)
accepted refuses o t is_retry g answers [] = tt
accepted refuses o t is_retry g answers (x ∷ xs) =
    (answers.1 x.google_id, accepted refuses o t is_retry g answers xs)

-- Let Google answer each call about a group, save that it refuses to insert a member again, let the
-- accounts have distinct identifiers, and let at most one error of the group's synchronization be
-- unsolved. Then `sync_members` returns, and afterwards an account of the database is a member of the
-- group in Google exactly if its user is in some Django group that the people group has, the role
-- groups of projects that it shares with other people groups included.
pub sync_members_exact :
    (refuses : Call → Option ℕ) (g : ℕ) (is_retry : Bool) (w : World)
    → AnswersGroup refuses g
    → IsDistinct w.accounts
    → IsSingle (group g) sync_members w
    → ((sync_group_members refuses g is_retry w).0 ≡ returned)
      × ((a : Linked)
          → IsIn a w.accounts
          → has (member_of g a) (sync_group_members refuses g is_retry w).1.remote
            ≡ any (λ q. mem a.key q.users && mem g q.people_groups) w.permission_groups)
unfolding sync_group_members
sync_members_exact refuses g is_retry w answers distinct single =
    let in_place = λ (n : Membership).
      synced refuses (group g) sync_members is_retry n (map (member_of g) (users_to_remove g w))
        (map (member_of g) (users_to_add g w)) w
        (accepted refuses (group g) sync_members is_retry g answers (users_to_remove g w))
        (accepted refuses (group g) sync_members is_retry g answers (users_to_add g w)) single in
    rw (answers.0) (
      (in_place (record { group_id = g; account_id = 0 })).0,
      λ a i.
          (in_place (member_of g a)).1
          ∙ rw
              (
                has-joined g (λ x. is_joined g x.key) (λ x. not (has (member_of g x) w.remote))
                    (member_of g a) w.permission_groups w.accounts,
                has_filtered g (λ x. in_team w g x.key && not (has (member_of g x) w.remote)) a
                    w.accounts distinct i,
                has_filtered g (λ x. has (member_of g x) w.remote && not (in_team w g x.key)) a
                    w.accounts distinct i,
              )
              (ground arith),
    )
