-- ===== src/Google/Sync/Forgotten.antt =====
-- services/google/models.py: a retry of `sync_members` solves the error whatever its calls answered.
use projects_backend.Base.{
  Bool-cases, Option-cases, none-ne-some, ℕ, ◌≡◌, sym, ap, ◌∙◌, inl, inr, Bool, true, false, Option,
  none, some, map, arith,
}
use projects_backend.Google.Sync.{insert_answer}
use projects_backend.Google.Sync.{
  Call, Linked, Membership, same_membership, has, World, attempt, add_to, remove_from, each, sync,
  member_of, users_to_remove, users_to_add, sync_group_members, members_list, members_insert,
  members_delete,
}
use projects_backend.Google.Ledger.{Owner, OnTask, group, sync_members, open_count, returned}
use projects_backend.Google.Sync.Loops.{
  IsSingle, record_error_open, attempt_remote, add_to-Goes, remove_from-Goes, each_keeps,
}
use projects_backend.Google.Sync.Members.{has-delete}

-- An insertion that Google accepts is not one that it refuses.
granted_refuses :
    (refuses : Call → Option ℕ) (m : Membership) (w : World)
    → insert_answer refuses m w ≡ none
    → refuses (members_insert m.account_id m.group_id) ≡ none
granted_refuses refuses m w h = elim (Bool-cases (has m w.remote)) [
  | inl old ↦ absurd (none-ne-some _ (sym (rw old at h)))
  | inr new ↦ rw new at h
]

module _ (refuses : Call → Option ℕ) (o : Owner) (t : OnTask) (is_retry : Bool)
    (n : Membership) where
  abbrev IsOut : World → Type 0
  IsOut w = has n w.remote ≡ false

  removed-IsOut :
      (m : Membership) (w : World) → IsOut w → IsOut (remove_from refuses o t is_retry m w).1
  unfolding remove_from
  removed-IsOut m w h =
      rw (attempt_remote o t)
        (elim (Option-cases (refuses (members_delete m.account_id m.group_id))) [
          | inl granted ↦ rw granted (has-delete n m w.remote ∙ rw h)
          | inr (e, rejected) ↦ rw rejected h
        ])

  added-IsOut :
      (e : ℕ)
      → refuses (members_insert n.account_id n.group_id) ≡ some e
      → (m : Membership) (w : World) → IsOut w
      → IsOut (add_to refuses o t is_retry m w).1
  unfolding add_to
  added-IsOut e refused m w h =
      rw (attempt_remote o t) (elim (Option-cases (insert_answer refuses m w)) [
        | inr (e', rejected) ↦ rw rejected h
        | inl granted ↦ elim (Bool-cases (same_membership n m)) [
          | inr other ↦ rw granted (rw other h)
          | inl same ↦
              let account_same : n.account_id ≡ m.account_id = ground arith in
              let group_same : n.group_id ≡ m.group_id = ground arith in
              absurd (
                none-ne-some e (
                  sym (granted_refuses refuses m w granted)
                  ∙ sym (ap (λ z. refuses (members_insert z m.group_id)) account_same)
                  ∙ sym (ap (λ z. refuses (members_insert n.account_id z)) group_same)
                  ∙ refused))
        ]
      ])

-- Let an account of the team be no member of the group in Google, let Google refuse to insert it, and
-- let it list the members; let at most one error of the group's synchronization be unsolved. Then a
-- retry of `sync_members` leaves the account outside the group and no error of the synchronization
-- unsolved, whatever Google answers the other calls: nothing retries it again.
pub sync_retry_forgets :
    (refuses : Call → Option ℕ) (g e : ℕ) (a : Linked) (w : World)
    → refuses (members_list g) ≡ none
    → refuses (members_insert a.google_id g) ≡ some e
    → has (member_of g a) w.remote ≡ false
    → IsSingle (group g) sync_members w
    → ((sync_group_members refuses g true w).0 ≡ returned)
      × (has (member_of g a) (sync_group_members refuses g true w).1.remote ≡ false)
      × (open_count (group g) sync_members (sync_group_members refuses g true w).1.errors ≡ 0)
unfolding sync_group_members sync attempt
sync_retry_forgets refuses g e a w lists refused out single =
    let n = member_of g a in
    let o = group g in
    let ((e1, s1), p1) =
      each_keeps o sync_members (remove_from refuses o sync_members true)
        (IsOut refuses o sync_members true n) (remove_from-Goes o sync_members refuses true)
        (λ m v _. removed-IsOut refuses o sync_members true n m v)
        (map (member_of g) (users_to_remove g w)) w single out in
    let w1 =
      (each (remove_from refuses o sync_members true) (map (member_of g) (users_to_remove g w))
        w).1 in
    let ((e2, s2), p2) =
      each_keeps o sync_members (add_to refuses o sync_members true)
        (IsOut refuses o sync_members true n) (add_to-Goes o sync_members refuses true)
        (λ m v _. added-IsOut refuses o sync_members true n e refused m v)
        (map (member_of g) (users_to_add g w)) w1 s1 p1 in
    let w2 =
      (each (add_to refuses o sync_members true) (map (member_of g) (users_to_add g w)) w1).1 in
    let (e3, left) = record_error_open o sync_members none w2 s2 in
    rw (lists, e1, e2) (e3, p2, left)
