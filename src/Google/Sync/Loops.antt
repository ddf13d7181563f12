-- ===== src/Google/Sync/Loops.antt =====
-- services/google/models.py: the loops of `sync_members` and `sync_groups`, over any owner and task.
use projects_backend.Base.{
  ℕ, ◌≤◌, ◌≡◌, refl, sym, subst, ◌∙◌, Bool, true, false, Option, none, some, List, [], ◌∷◌, arith,
}
use projects_backend.Google.Sync.{insert_answer}
use projects_backend.Google.Sync.{
  Call, Membership, World, Step, record_error, attempt, when_accepted, insert_member, delete_member,
  add_to, remove_from, each, members_delete,
}
use projects_backend.Google.Ledger.{Owner, OnTask, open_count, returned, Ending}
use projects_backend.Google.Ledger.Counts.{failures, record_outcome}

module _ (o : Owner) (t : OnTask) where
  -- at most one error of the owner and task is unsolved
  abbrev pub IsSingle : World → Type 0
  IsSingle w = open_count o t w.errors ≤ 1

  -- What a step leaves: it returned, and at most one error is unsolved.
  abbrev pub Goes : Ending × World → Type 0
  Goes r = (r.0 ≡ returned) × IsSingle r.1

  -- A recorded outcome is open as it should be.
  pub record_error_open :
      (e : Option ℕ) (w : World)
      → IsSingle w
      → ((record_error o t e w).0 ≡ returned)
        × (open_count o t (record_error o t e w).1.errors ≡ failures e)
  record_error_open e w h =
      let (left, others, ending) = record_outcome 2 o t e w.errors (omega arith) in
      (ending ∙ ground arith, left)

  failures-le : (e : Option ℕ) → failures e ≤ 1
  failures-le none = omega arith
  failures-le (some e) = omega arith

  record_error-Goes : (e : Option ℕ) (w : World) → IsSingle w → Goes (record_error o t e w)
  record_error-Goes e w h =
      let (ending, left) = record_error_open e w h in (ending, omega (arith, left, failures-le e))

  pub attempt-Goes :
      (e : Option ℕ) (is_retry : Bool) (w : World) → IsSingle w → Goes (attempt o t e is_retry w)
  unfolding attempt
  attempt-Goes (some e) is_retry w h = record_error-Goes (some e) w h
  attempt-Goes none true w h = record_error-Goes none w h
  attempt-Goes none false w h = (refl, h)

  pub attempt_remote :
      (e : Option ℕ) (is_retry : Bool) (w : World) → (attempt o t e is_retry w).1.remote ≡ w.remote
  unfolding attempt
  attempt_remote (some e) is_retry w = refl
  attempt_remote none true w = refl
  attempt_remote none false w = refl

  when_accepted_errors :
      (e : Option ℕ) (m : Membership) (w : World)
      → ((when_accepted e (insert_member m) w).errors ≡ w.errors)
        × ((when_accepted e (delete_member m) w).errors ≡ w.errors)
  when_accepted_errors none m w = (refl, refl)
  when_accepted_errors (some e) m w = (refl, refl)

  module _ (refuses : Call → Option ℕ) (is_retry : Bool) where
    pub add_to-Goes :
        (m : Membership) (w : World) → IsSingle w → Goes (add_to refuses o t is_retry m w)
    unfolding add_to
    add_to-Goes m w h =
        let answer = insert_answer refuses m w in
        attempt-Goes answer is_retry (when_accepted answer (insert_member m) w)
          (subst (λ z. open_count o t z ≤ 1) (sym (when_accepted_errors answer m w).0) h)

    pub remove_from-Goes :
        (m : Membership) (w : World) → IsSingle w → Goes (remove_from refuses o t is_retry m w)
    unfolding remove_from
    remove_from-Goes m w h =
        let answer = refuses (members_delete m.account_id m.group_id) in
        attempt-Goes answer is_retry (when_accepted answer (delete_member m) w)
          (subst (λ z. open_count o t z ≤ 1) (sym (when_accepted_errors answer m w).1) h)

  -- The rule of the loops: what each step keeps, the loop keeps.
  pub each_keeps :
      (f : Membership → Step) (P : World → Type 0)
      → ((m : Membership) (w : World) → IsSingle w → Goes (f m w))
      → ((m : Membership) (w : World) → IsSingle w → P w → P (f m w).1)
      → (ms : List Membership) (w : World) → IsSingle w
      → P w
      → Goes (each f ms w) × P (each f ms w).1
  unfolding each
  each_keeps f P goes keeps [] w h p = ((refl, h), p)
  each_keeps f P goes keeps (m ∷ ms) w h p =
      let (ending, single) = goes m w h in
      rw ending (each_keeps f P goes keeps ms (f m w).1 single (keeps m w h p))
