-- ===== src/Invitations.antt =====
-- Access requests: apps/invitations/models.py (`AccessRequest.accept`, `accept_and_create`, `decline`)
-- and the two bulk actions of apps/invitations/views.py.
-- The mail server and Keycloak are outside: what their calls do is an argument, one `Outcome` for each
-- processed request. A transaction that raises leaves the tables as they were.
pub mod Honoured
pub mod Processing
pub mod Kept
pub mod Create
pub mod Batch
mod Tests
use projects_backend.Base.{
  ◌==◌, if◌then◌else◌, is_some, any, ℕ, suc, Bool, true, false, not, ◌&&◌, Option, none, some, List,
  [], ◌∷◌, ◌++◌, map,
}

-- `AccessRequest.Status`
pub data Status : Type 0 where
  pending accepted declined : Status

-- A row, and also what the view holds of it: the row as it was when the request was read.
pub record AccessRequest : Type 0 where
  pub id : ℕ
  pub organization : ℕ
  pub user : Option ℕ
  pub email : ℕ
  pub status : Status

-- `org_users` has a row (organization, user) for each member of an organization's users group, and
-- `users` a row (user, email) for each account.
pub record Tables : Type 0 where
  pub requests : List AccessRequest
  pub org_users : List (ℕ × ℕ)
  pub users : List (ℕ × ℕ)
  pub next_user : ℕ

-- What a call of an outside service raises, if anything.
pub data Raised : Type 0 where
  nothing keycloak_get keycloak_post keycloak_put other_error : Raised

-- The outside calls of one request: `send_email` of the mail server, and `create_user` and
-- `send_email` of Keycloak.
pub record Outcome : Type 0 where
  pub mail : Raised
  pub create_account : Raised
  pub confirm : Raised

pub data Report : Type 0 where
  success warning error : Report

abbrev pub is_pending : Status → Bool
is_pending pending = true
is_pending accepted = false
is_pending declined = false

-- `self.save()`: the row of that identifier is written over
unfoldable pub save_request : AccessRequest → List AccessRequest → List AccessRequest
save_request r [] = []
save_request r (x ∷ xs) = (if x.id == r.id then r else x) ∷ save_request r xs

-- `self.user.groups.add(self.organization.get_users())`
abbrev pub add_member : ℕ → ℕ → Tables → Tables
add_member org u t = record t { org_users = (org, u) ∷ t.org_users }

abbrev pub write : AccessRequest → Tables → Tables
write r t = record t { requests = save_request r t.requests }

-- A transaction: what its last call raised undoes its writes.
abbrev pub atomic : Raised → Tables → Tables → Raised × Tables
atomic nothing before after = (nothing, after)
atomic e before after = (e, before)

-- `AccessRequest.accept`, for the user `u` of the request
unfoldable pub accept : AccessRequest → ℕ → Raised → Tables → Raised × Tables
accept r u mail t =
    atomic mail t (write (record r { status = accepted }) (add_member r.organization u t))

abbrev pub email_taken : ℕ → List (ℕ × ℕ) → Bool
email_taken e us = any (λ (_, e'). e' == e) us

-- the other pending requests of nobody, with the same email, are now the user's
abbrev pub claim_row : ℕ → ℕ → AccessRequest → AccessRequest
claim_row e u x =
    if not (is_some x.user) && x.email == e && is_pending x.status
    then record x { user = some u }
    else x

abbrev pub claim_pending : ℕ → ℕ → List AccessRequest → List AccessRequest
claim_pending e u = map (claim_row e u)

-- the tables at the end of the transaction of `accept_and_create`
abbrev pub created : AccessRequest → Tables → Tables
created r t =
    let u = t.next_user in
    let member = add_member r.organization u t in
    record member {
      users = (u, r.email) ∷ t.users;
      next_user = suc u;
      requests =
          claim_pending r.email u
            (save_request (record r { user = some u; status = accepted }) t.requests);
    }

-- The confirmation mail is sent after the transaction, so what it raises undoes nothing.
abbrev pub then_confirm : Raised → Raised × Tables → Raised × Tables
then_confirm confirm (nothing, t) = (confirm, t)
then_confirm confirm (e, t) = (e, t)

-- `AccessRequest.accept_and_create`. An email that is in use is refused by the database.
unfoldable pub accept_and_create : AccessRequest → Raised → Raised → Tables → Raised × Tables
accept_and_create r create_account confirm t =
    if email_taken r.email t.users
    then (other_error, t)
    else then_confirm confirm (atomic create_account t (created r t))

-- `AccessRequest.decline`
unfoldable pub decline : AccessRequest → Raised → Tables → Raised × Tables
decline r mail t = atomic mail t (write (record r { status = declined }) t)

-- the `except` clauses of `perform_accept`; Keycloak's errors are taken to have a JSON document as
-- their body, in which `errorMessage` can be read
abbrev pub report_accept : Raised → Report
report_accept nothing = success
report_accept keycloak_get = warning
report_accept keycloak_post = error
report_accept keycloak_put = error
report_accept other_error = error

-- the `except` clause of `perform_decline`
abbrev report_decline : Raised → Report
report_decline nothing = success
report_decline _ = error

abbrev pub accept_either : AccessRequest → Option ℕ → Outcome → Tables → Raised × Tables
accept_either r (some u) o t = accept r u o.mail t
accept_either r none o t = accept_and_create r o.create_account o.confirm t

abbrev reported : (Raised → Report) → Raised × Tables → Report × Tables
reported report (raised, t) = (report raised, t)

unfoldable pub perform_accept : ℕ → AccessRequest → Outcome → Tables → Report × Tables
perform_accept code r o t =
    if not (r.organization == code)
    then (error, t)
    else if not (is_pending r.status)
    then (error, t)
    else reported report_accept (accept_either r r.user o t)

unfoldable pub perform_decline : ℕ → AccessRequest → Outcome → Tables → Report × Tables
perform_decline code r o t =
    if not (r.organization == code)
    then (error, t)
    else if not (is_pending r.status)
    then (error, t)
    else reported report_decline (decline r o.mail t)

-- the identifiers in the answer of a bulk action
pub record Results : Type 0 where
  pub successes : List ℕ
  pub errors : List ℕ
  pub warnings : List ℕ

abbrev pub file_report : ℕ → Report → Results → Results
file_report i success rs = record rs { successes = rs.successes ++ i ∷ [] }
file_report i error rs = record rs { errors = rs.errors ++ i ∷ [] }
file_report i warning rs = record rs { warnings = rs.warnings ++ i ∷ [] }

abbrev pub no_results : Results
no_results = record { successes = []; errors = []; warnings = [] }

-- The loop over the requests, with the outcome of the outside calls for each.
unfoldable pub process_each :
    (ℕ → AccessRequest → Outcome → Tables → Report × Tables)
    → ℕ
    → List (AccessRequest × Outcome)
    → Results
    → Tables
    → Results × Tables
process_each perform code [] rs t = (rs, t)
process_each perform code ((r, o) ∷ rest) rs t =
    let (report, t') = perform code r o t in
    process_each perform code rest (file_report r.id report rs) t'

unfoldable pub accept_all : ℕ → List (AccessRequest × Outcome) → Tables → Results × Tables
accept_all code batch = process_each perform_accept code batch no_results

unfoldable pub decline_all : ℕ → List (AccessRequest × Outcome) → Tables → Results × Tables
decline_all code batch = process_each perform_decline code batch no_results
