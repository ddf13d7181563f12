-- ===== src/Google/Sync.antt =====
-- services/google/models.py: the operations of `GoogleAccount` and `GoogleGroup` that call Google.
-- Google is outside: `refuses` gives the error that it answers a call with, if any, and `remote` its
-- memberships, which the calls that succeed change as Google documents: it refuses to insert a member
-- again.
pub mod Loops
pub mod Rows
pub mod Members
pub mod Forgotten
use projects_backend.Base.{
  ◌==◌, if◌then◌else◌, mem, any, filter, ℕ, Bool, not, ◌&&◌, Option, none, some, List, [], ◌∷◌,
  ◌++◌, map,
}
use projects_backend.Google.Ledger.{
  Owner, account, group, OnTask, update_user, suspend_user, user_alias, sync_groups, update_group,
  group_alias, sync_members, ErrorRow, Ending, returned, unbound_created, out_of_calls,
  update_or_create_error,
}

-- the calls of `GoogleService`, with the user or the people group that each is about
pub data Call : Type 0 where
  users_update users_suspend user_alias_insert user_groups_list : ℕ → Call
  groups_update group_alias_insert members_list : ℕ → Call
  members_insert members_delete : (google_id people_group : ℕ) → Call

-- an account or a group of the database, with its identifier in Google
pub record Linked : Type 0 where
  pub key : ℕ
  pub google_id : ℕ

-- a group and an account that is a member of it in Google
pub record Membership : Type 0 where
  pub group_id : ℕ
  pub account_id : ℕ

abbrev pub same_membership : Membership → Membership → Bool
same_membership m n = m.group_id == n.group_id && m.account_id == n.account_id

abbrev pub has : Membership → List Membership → Bool
has m ms = any (same_membership m) ms

-- a Django `Group`: its users, and the people groups that it belongs to, which are several where it is
-- the role group of a project
pub record PermissionGroup : Type 0 where
  pub users : List ℕ
  pub people_groups : List ℕ

-- the row that joins a people group and a user by a `Group`
abbrev pub is_joined : (people_group user : ℕ) → PermissionGroup → Bool
is_joined g u q = mem u q.users && mem g q.people_groups

pub record World : Type 0 where
  pub errors : List ErrorRow
  pub remote : List Membership
  pub accounts : List Linked
  pub groups : List Linked
  pub permission_groups : List PermissionGroup

-- `exclude(user__groups__people_groups=...)` keeps the others
abbrev pub in_team : World → (people_group user : ℕ) → Bool
in_team w g u = any (is_joined g u) w.permission_groups

-- The rows of `filter(user__groups__people_groups=...)`: one for each `Group` that joins.
abbrev pub joined :
    {X : Type 0} → (X → PermissionGroup → Bool) → List PermissionGroup → List X → List X
joined test qs [] = []
joined test qs (x ∷ xs) = map (λ q. x) (filter (test x) qs) ++ joined test qs xs

abbrev pub Step : Type 0
Step = World → Ending × World

-- `update_or_create_error` on the world; it calls itself at most once
abbrev pub record_error : Owner → OnTask → Option ℕ → Step
record_error o t e w =
    let (ending, rows) = update_or_create_error 2 o t e w.errors in
    (ending, record w { errors = rows })

-- The `try` of each operation: a refusal is recorded, and a success only for a retry.
unfoldable pub attempt : Owner → OnTask → Option ℕ → Bool → Step
attempt o t (some e) is_retry w = record_error o t (some e) w
attempt o t none is_retry w = if is_retry then record_error o t none w else (returned, w)

abbrev pub when_accepted : Option ℕ → (World → World) → World → World
when_accepted (some e) change w = w
when_accepted none change w = change w

abbrev pub insert_member : Membership → World → World
insert_member m w = record w { remote = m ∷ w.remote }

abbrev pub delete_member : Membership → World → World
delete_member m w = record w { remote = filter (λ n. not (same_membership m n)) w.remote }

-- the error of an insertion of somebody who is a member already
abbrev already_member : ℕ
already_member = 409

-- what Google answers an insertion
abbrev pub insert_answer : (refuses : Call → Option ℕ) → Membership → World → Option ℕ
insert_answer refuses m w =
    if has m w.remote then some already_member else refuses (members_insert m.account_id m.group_id)

module _ (refuses : Call → Option ℕ) where
  unfoldable pub update_account : ℕ → Bool → Step
  update_account user is_retry =
      attempt (account user) update_user (refuses (users_update user)) is_retry

  suspend_account : ℕ → Bool → Step
  suspend_account user is_retry =
      attempt (account user) suspend_user (refuses (users_suspend user)) is_retry

  create_account_alias : ℕ → Bool → Step
  create_account_alias user is_retry =
      attempt (account user) user_alias (refuses (user_alias_insert user)) is_retry

  update_google_group : ℕ → Bool → Step
  update_google_group people_group is_retry =
      attempt (group people_group) update_group (refuses (groups_update people_group)) is_retry

  create_group_alias : ℕ → Bool → Step
  create_group_alias people_group is_retry =
      attempt (group people_group) group_alias (refuses (group_alias_insert people_group)) is_retry

  -- a call that puts an account into a group, or takes it out, on behalf of `o`
  unfoldable pub add_to : Owner → OnTask → Bool → Membership → Step
  add_to o t is_retry m w =
      let answer = insert_answer refuses m w in
      attempt o t answer is_retry (when_accepted answer (insert_member m) w)

  unfoldable pub remove_from : Owner → OnTask → Bool → Membership → Step
  remove_from o t is_retry m w =
      let answer = refuses (members_delete m.account_id m.group_id) in
      attempt o t answer is_retry (when_accepted answer (delete_member m) w)

  add_member : ℕ → Linked → Bool → Step
  add_member people_group a is_retry =
      add_to (group people_group) sync_members is_retry
        (record { group_id = people_group; account_id = a.google_id })

  remove_member : ℕ → Linked → Bool → Step
  remove_member people_group a is_retry =
      remove_from (group people_group) sync_members is_retry
        (record { group_id = people_group; account_id = a.google_id })

abbrev then_do : Ending × World → Step → Ending × World
then_do (returned, w) f = f w
then_do (unbound_created, w) f = (unbound_created, w)
then_do (out_of_calls, w) f = (out_of_calls, w)

-- a `for` loop over memberships, which the first exception ends
unfoldable pub each : (Membership → Step) → List Membership → Step
each f [] w = (returned, w)
each f (m ∷ ms) w = then_do (f m w) (each f ms)

-- the text of the `UnboundLocalError` that the `except` of a loop records
abbrev unbound_message : ℕ
unbound_message = 1

-- the `except` and the `else` of `sync_members` and `sync_groups`
abbrev pub close : Owner → OnTask → Bool → Ending × World → Ending × World
close o t is_retry (returned, w) = attempt o t none is_retry w
close o t is_retry (unbound_created, w) = record_error o t (some unbound_message) w
close o t is_retry (out_of_calls, w) = (out_of_calls, w)

-- the two loops
unfoldable pub sync :
    (refuses : Call → Option ℕ)
    → Owner
    → OnTask
    → Bool
    → (to_remove to_add : List Membership) → Step
sync refuses o t is_retry to_remove to_add w = close o t is_retry (
    then_do (each (remove_from refuses o t is_retry) to_remove w)
      (each (add_to refuses o t is_retry) to_add))

abbrev listed : Option ℕ → Owner → OnTask → Step → Step
listed (some e) o t run w = record_error o t (some e) w
listed none o t run w = run w

-- `GoogleGroup.sync_members`
abbrev pub member_of : ℕ → Linked → Membership
member_of people_group a = record { group_id = people_group; account_id = a.google_id }

abbrev pub users_to_remove : ℕ → World → List Linked
users_to_remove g w =
    filter (λ a. has (member_of g a) w.remote && not (in_team w g a.key)) w.accounts

abbrev pub users_to_add : ℕ → World → List Linked
users_to_add g w =
    filter (λ a. not (has (member_of g a) w.remote))
      (joined (λ a. is_joined g a.key) w.permission_groups w.accounts)

unfoldable pub sync_group_members : (refuses : Call → Option ℕ) → ℕ → Bool → Step
sync_group_members refuses g is_retry w =
    listed (refuses (members_list g)) (group g) sync_members
      (sync refuses (group g) sync_members is_retry (map (member_of g) (users_to_remove g w))
        (map (member_of g) (users_to_add g w)))
      w

-- `GoogleAccount.sync_groups`; an account is found by its user
abbrev group_of : ℕ → Linked → Membership
group_of google_id g = record { group_id = g.key; account_id = google_id }

abbrev groups_to_remove : Linked → World → List Linked
groups_to_remove a w =
    filter (λ g. has (group_of a.google_id g) w.remote && not (in_team w g.key a.key)) w.groups

abbrev groups_to_add : Linked → World → List Linked
groups_to_add a w =
    filter (λ g. not (has (group_of a.google_id g) w.remote))
      (joined (λ g. is_joined g.key a.key) w.permission_groups w.groups)

unfoldable pub sync_account_groups : (refuses : Call → Option ℕ) → Linked → Bool → Step
sync_account_groups refuses a is_retry w =
    listed (refuses (user_groups_list a.key)) (account a.key) sync_groups
      (sync refuses (account a.key) sync_groups is_retry
        (map (group_of a.google_id) (groups_to_remove a w))
        (map (group_of a.google_id) (groups_to_add a w)))
      w
