-- ===== src/Google/Tests.antt =====
-- A group with one member too many and one missing.
use projects_backend.Base.{
  ◌==◌, if◌then◌else◌, mem, any, ℕ, ◌≡◌, refl, sym, ap, ◌∙◌, inl, inr, true, false, ◌&&◌, Option,
  none, some, List, [], ◌∷◌, arith,
}
use projects_backend.Google.Ledger.{
  Owner, account, group, OnTask, update_user, sync_members, ErrorRow, returned, unbound_created,
  open_count, update_or_create_error,
}
use projects_backend.Google.Ledger.Counts.{record_outcome, failures, Differ}
use projects_backend.Google.Sync.{
  Call, members_insert, Linked, World, has, member_of, attempt, each, sync, add_to, remove_from,
  sync_group_members, sync_account_groups, update_account,
}
use projects_backend.Google.Sync.Rows.{IsIn, IsDistinct}
use projects_backend.Google.Sync.Members.{AnswersGroup, sync_members_exact}
use projects_backend.Google.Sync.Forgotten.{sync_retry_forgets}

abbrev ann : Linked
ann = record { key = 1; google_id = 11 }

abbrev bob : Linked
bob = record { key = 2; google_id = 22 }

-- bob is a member in Google, ann is in a group that people groups 5 and 6 share
abbrev world : World
world = record {
  errors = [];
  remote = record { group_id = 5; account_id = 22 } ∷ [];
  accounts = ann ∷ bob ∷ [];
  groups = record { key = 5; google_id = 55 } ∷ [];
  permission_groups = record { users = 1 ∷ []; people_groups = 5 ∷ 6 ∷ [] } ∷ [];
}

abbrev all_accepted : Call → Option ℕ
all_accepted c = none

-- Google refuses ann
abbrev refuse_ann : Call → Option ℕ
refuse_ann (members_insert a g) = if a == 11 then some 404 else none
refuse_ann c = none

refused_update :
    (update_account (λ c. some 3) 1 false world).1.errors
    ≡ record {
      owner = account 1;
      on_task = update_user;
      error = 3;
      retries_count = 0;
      solved = false;
    }
      ∷ []
unfolding update_account attempt update_or_create_error
refused_update = refl

synced_test :
    (sync_group_members all_accepted 5 false world).1.remote
    ≡ record { group_id = 5; account_id = 11 } ∷ []
unfolding sync_group_members sync each add_to remove_from attempt
synced_test = refl

groups_test : (sync_account_groups all_accepted bob false world).1.remote ≡ []
unfolding sync_account_groups sync each add_to remove_from attempt
groups_test = refl

abbrev two_open : List ErrorRow
two_open =
    record { owner = group 5; on_task = sync_members; error = 1; retries_count = 0; solved = false }
    ∷ record {
      owner = group 5;
      on_task = sync_members;
      error = 2;
      retries_count = 0;
      solved = false;
    }
    ∷ []

record_outcome_example :
    (open_count
        (group 5)
        sync_members
        (update_or_create_error 2 (group 5) sync_members none two_open).1
      ≡ failures none)
    × ((o' : Owner) (t' : OnTask)
        → Differ (group 5) sync_members o' t'
        → open_count o' t' (update_or_create_error 2 (group 5) sync_members none two_open).1
          ≡ open_count o' t' two_open)
    × ((update_or_create_error 2 (group 5) sync_members none two_open).0 ≡ unbound_created)
record_outcome_example = record_outcome 2 (group 5) sync_members none two_open (omega arith)

distinct : IsDistinct (ann ∷ bob ∷ [])
distinct x y (inl e) (inl e') h = sym e ∙ e'
distinct x y (inl e) (inr (inl e')) h =
    let a : 11 ≡ x.google_id = ap (λ z. z.google_id) e in
    let b : 22 ≡ y.google_id = ap (λ z. z.google_id) e' in absurd (omega arith)
distinct x y (inr (inl e)) (inl e') h =
    let a : 22 ≡ x.google_id = ap (λ z. z.google_id) e in
    let b : 11 ≡ y.google_id = ap (λ z. z.google_id) e' in absurd (omega arith)
distinct x y (inr (inl e)) (inr (inl e')) h = sym e ∙ e'
distinct x y (inr (inr f)) j h = absurd f
distinct x y (inl e) (inr (inr f)) h = absurd f
distinct x y (inr (inl e)) (inr (inr f)) h = absurd f

all_answered : AnswersGroup all_accepted 5
all_answered = (refl, λ a. (refl, refl))

sync_members_exact_example :
    ((sync_group_members all_accepted 5 true world).0 ≡ returned)
    × ((a : Linked)
        → IsIn a world.accounts
        → has (member_of 5 a) (sync_group_members all_accepted 5 true world).1.remote
          ≡ any (λ q. mem a.key q.users && mem 5 q.people_groups) world.permission_groups)
sync_members_exact_example =
    sync_members_exact all_accepted 5 true world all_answered distinct (omega arith)

sync_retry_forgets_example :
    ((sync_group_members refuse_ann 5 true world).0 ≡ returned)
    × (has (member_of 5 ann) (sync_group_members refuse_ann 5 true world).1.remote ≡ false)
    × (open_count (group 5) sync_members (sync_group_members refuse_ann 5 true world).1.errors ≡ 0)
sync_retry_forgets_example =
    sync_retry_forgets refuse_ann 5 404 ann world refl refl refl (omega arith)
