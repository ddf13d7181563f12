-- ===== src/Projects/Fields/Tests.antt =====
-- The checks on the fields of a project, on a project that only reviewers publish.
use projects_backend.Base.{ok, err, ◌≡◌, refl, inl, true, false, none, some, [], ◌∷◌, arith}
use projects_backend.Projects.Fields.{
  ProjectOrganization, ProjectCategory, ProjectFields, Requester, Payload, public, private,
  validate_publication_status, validate_categories, validate_organizations_codes,
  validate_description, update, validate_link, only_reviewer_can_change_status,
  empty_project_description, link_project_to_self, project_category_organization,
}
use projects_backend.Projects.Fields.Kept.{IsFilled, updates, update_keeps_status, updates-IsFilled}
use projects_backend.Projects.Fields.Placed.{IsPlaced, IsWhole, update-IsPlaced}

abbrev lab : ProjectOrganization
lab = record { id = 1; code = 97 ∷ []; admins = 5 ∷ []; facilitators = [] }

abbrev school : ProjectOrganization
school = record { id = 2; code = 98 ∷ []; admins = []; facilitators = 6 ∷ [] }

abbrev reviewed : ProjectCategory
reviewed = record { id = 1; organization_code = 97 ∷ []; only_reviewer_can_publish = true }

abbrev taught : ProjectCategory
taught = record { id = 2; organization_code = 98 ∷ []; only_reviewer_can_publish = false }

abbrev project : ProjectFields
project = record {
  id = 1;
  title = 116 ∷ [];
  publication_status = private;
  description = 100 ∷ [];
  organizations = lab ∷ [];
  categories = reviewed ∷ [];
  reviewers = 7 ∷ [];
  reviewer_groups_users = 8 ∷ [];
}

abbrev member : Requester
member = record { id = 9; is_superuser = false; can_add_project = λ o. true }

abbrev reviewer : Requester
reviewer = record { id = 7; is_superuser = false; can_add_project = λ o. false }

abbrev publish : Payload
publish = record {
  organizations_codes = none;
  publication_status = some public;
  description = none;
  categories = none;
}

abbrev rewrite : Payload
rewrite = record {
  organizations_codes = none;
  publication_status = some private;
  description = some (101 ∷ []);
  categories = none;
}

abbrev move : Payload
move = record {
  organizations_codes = some (lab ∷ school ∷ []);
  publication_status = none;
  description = none;
  categories = some (taught ∷ []);
}

abbrev leave : Payload
leave = record {
  organizations_codes = some (school ∷ []);
  publication_status = none;
  description = none;
  categories = none;
}

abbrev empty : Payload
empty = record {
  organizations_codes = none;
  publication_status = none;
  description = some [];
  categories = none;
}

member_publishes_test : update member publish project ≡ err only_reviewer_can_change_status
unfolding update validate_publication_status
member_publishes_test = refl

reviewer_publishes_test :
    update reviewer publish project ≡ ok (record project { publication_status = public })
unfolding update validate_publication_status
reviewer_publishes_test = refl

empty_test : update member empty project ≡ err empty_project_description
unfolding update validate_description
empty_test = refl

-- the organization of the category is left, and the category stays
leave_test : update member leave project ≡ ok (record project { organizations = school ∷ [] })
unfolding update validate_organizations_codes
leave_test = refl

wrong_category_test :
    validate_categories none ((97 ∷ []) ∷ []) (taught ∷ []) ≡ err project_category_organization
unfolding validate_categories
wrong_category_test = refl

link_to_self_test :
    validate_link
      (record { project = some project; target = none })
      (record { project = none; target = some project })
    ≡ err (link_project_to_self (116 ∷ []))
unfolding validate_link
link_to_self_test = refl

abbrev rewritten : ProjectFields
rewritten = record project { description = 101 ∷ [] }

rewrites : update member rewrite project ≡ ok rewritten
unfolding update validate_publication_status validate_description
rewrites = refl

update_keeps_status_test : project.publication_status ≡ rewritten.publication_status
update_keeps_status_test = update_keeps_status member rewrite project rewritten refl refl rewrites

project-IsFilled : IsFilled project
unfolding IsFilled
project-IsFilled = (λ e. omega (arith, e), refl)

updates-IsFilled_test :
    IsFilled (updates ((member, empty) ∷ (member, rewrite) ∷ (reviewer, publish) ∷ []) project)
updates-IsFilled_test =
    updates-IsFilled ((member, empty) ∷ (member, rewrite) ∷ (reviewer, publish) ∷ []) project
      project-IsFilled

abbrev moved : ProjectFields
moved = record project { organizations = lab ∷ school ∷ []; categories = taught ∷ [] }

moves : update member move project ≡ ok moved
unfolding update validate_organizations_codes validate_categories
moves = refl

project-IsPlaced : IsPlaced project
unfolding IsPlaced
project-IsPlaced = refl

move-IsWhole : IsWhole move
unfolding IsWhole
move-IsWhole = inl refl

update-IsPlaced_example : IsPlaced moved × (true ≡ true)
update-IsPlaced_example =
    update-IsPlaced member move project moved project-IsPlaced move-IsWhole moves
