-- ===== src/Invitations/Tests.antt =====
-- Access requests at concrete inputs.
use projects_backend.Base.{
  ◌==◌, ok, ℕ, ◌≡◌, refl, ◌≢◌, ◌⊎◌, true, false, Option, none, some, List, [], ◌∷◌, ◌++◌,
}
use projects_backend.Invitations.{
  pending, accepted, AccessRequest, Tables, nothing, other_error, Outcome, success, error,
  perform_accept, process_each, accept_all, decline_all, save_request, accept, accept_and_create,
}
use projects_backend.Invitations.Honoured.{find_request, IsHonoured, settled}
use projects_backend.Invitations.Processing.{perform_accept_outcome}
use projects_backend.Invitations.Create.{
  Context, create_request, created_request_is_only, is_in_organization, count_requests,
  is_pending_of_user, is_pending_of_email, has_account,
}
use projects_backend.Invitations.Batch.{
  bulk_reports_each, bulk-IsHonoured, accept_all_keeps_processed, count, reported_ids,
}

abbrev member_request : AccessRequest
member_request = record { id = 1; organization = 5; user = some 30; email = 0; status = pending }

abbrev stranger_request : AccessRequest
stranger_request = record { id = 2; organization = 5; user = none; email = 77; status = pending }

abbrev old_request : AccessRequest
old_request = record { id = 3; organization = 5; user = some 31; email = 0; status = accepted }

abbrev tables : Tables
tables = record {
  requests = member_request ∷ stranger_request ∷ old_request ∷ [];
  org_users = (5, 31) ∷ [];
  users = (30, 70) ∷ (31, 71) ∷ [];
  next_user = 32;
}

abbrev all_well : Outcome
all_well = record { mail = nothing; create_account = nothing; confirm = nothing }

abbrev mail_down : Outcome
mail_down = record { mail = other_error; create_account = nothing; confirm = other_error }

abbrev batch : List (AccessRequest × Outcome)
batch = (member_request, mail_down) ∷ (stranger_request, all_well) ∷ []

-- With the mail server down the member is reported as an error and nothing is written, but the account
-- of the stranger is made although the answer is an error too.
mail_down_test :
    (accept_all 5 ((member_request, mail_down) ∷ (stranger_request, mail_down) ∷ []) tables).0
    ≡ record { successes = []; errors = 1 ∷ 2 ∷ []; warnings = [] }
unfolding accept_all process_each perform_accept accept accept_and_create save_request
mail_down_test = refl

perform_accept_outcome_example :
    (error ≡ success
      → (stranger_request.organization ≡ 5)
        × (true ≡ true)
        × ((perform_accept 5 stranger_request mail_down tables).1
            ≡ settled stranger_request none tables))
    × (error ≡ error
        → ((perform_accept 5 stranger_request mail_down tables).1 ≡ tables)
          ⊎ ((◌≡◌ {A = Option ℕ} none none)
              × (other_error ≢ nothing)
              × ((perform_accept 5 stranger_request mail_down tables).1
                  ≡ settled stranger_request none tables)))
unfolding perform_accept accept_and_create
perform_accept_outcome_example = perform_accept_outcome 5 stranger_request mail_down tables

bulk_reports_each_test :
    (count 2 (reported_ids (accept_all 5 batch tables).0) ≡ 1)
    × (count 2 (reported_ids (decline_all 5 batch tables).0) ≡ 1)
bulk_reports_each_test = bulk_reports_each 5 2 batch tables

bulk-IsHonoured_example :
    IsHonoured (accept_all 5 batch tables).1 × IsHonoured (decline_all 5 batch tables).1
bulk-IsHonoured_example = bulk-IsHonoured 5 batch tables refl

accept_all_keeps_processed_test :
    find_request 3 (accept_all 5 batch tables).1.requests ≡ some old_request
accept_all_keeps_processed_test =
    accept_all_keeps_processed 5 batch tables 3 old_request (refl, (refl, tt)) (refl, (refl, tt))
      refl refl

abbrev context : Context
context = record {
  access_request_enabled = λ org. org == 5;
  members = (5, 31) ∷ [];
  emails = 70 ∷ 71 ∷ [];
  personal_emails = [];
}

abbrev with_request : Tables
with_request = record tables {
  requests =
      tables.requests
      ++ (record { id = 9; organization = 5; user = none; email = 88; status = pending }) ∷ [];
}

created_test : create_request (λ e. e) context 9 5 none (some 88) tables ≡ ok with_request
unfolding create_request
created_test = refl

created_request_is_only_test :
    (true ≡ true)
    × ((u : ℕ)
        → none ≡ some u
        → (is_in_organization 5 u context.members ≡ false)
          × (count_requests (is_pending_of_user 5 u) with_request.requests ≡ 1))
    × ((e : ℕ)
        → ◌≡◌ {A = Option ℕ} none none
        → some 88 ≡ some e
        → (has_account (λ x. x) context e ≡ false)
          × (count_requests (is_pending_of_email (λ x. x) 5 e) with_request.requests ≡ 1))
created_request_is_only_test =
    created_request_is_only (λ e. e) context 9 5 none (some 88) tables with_request created_test
