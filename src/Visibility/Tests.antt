-- ===== src/Visibility/Tests.antt =====
-- Querysets at concrete inputs.
use projects_backend.Base.{◌≡◌, refl, true, false, [], ◌∷◌}
use projects_backend.Visibility.{
  public, org, hidden, Project, Announced, Profile, PeopleGroup, OrgPermission, Viewer, anonymous,
  user, sees_project, sees_announced, sees_user, sees_people_group,
}
use projects_backend.Visibility.Compare.{
  Tables, seen_by, anonymous_sees_less, no_rights_sees_public,
}
use projects_backend.Visibility.Grants.{HasMoreRights, grants_only_reveal}

abbrev tables : Tables
tables = record {
  projects =
      record { id = 1; publication_status = public; organizations = 5 ∷ [] }
      ∷ record { id = 2; publication_status = hidden; organizations = 5 ∷ [] }
      ∷ [];
  news = record { id = 3; organization = 5; people_groups = []; visible_by_all = false } ∷ [];
  instructions = [];
  events = record { id = 4; organization = 5; people_groups = 8 ∷ []; visible_by_all = true } ∷ [];
  users =
      record { id = 20; publication_status = hidden; organizations = 5 ∷ [] }
      ∷ record { id = 21; publication_status = org; organizations = 5 ∷ [] }
      ∷ [];
  people_groups = record { id = 8; publication_status = org; organization = 5 } ∷ [];
}

abbrev stranger : Viewer
stranger = record {
  id = 20;
  is_superuser = false;
  orgs_with = λ p. [];
  project_rights = [];
  group_rights = [];
  people_groups = [];
  organizations = [];
}

abbrev member : Viewer
member = record stranger { orgs_with = λ p. 5 ∷ []; organizations = 5 ∷ [] }

abbrev admin : Viewer
admin = record stranger { is_superuser = true }

anonymous_sees_less_example :
    seen_by anonymous (seen_by (user member) tables) ≡ seen_by anonymous tables
anonymous_sees_less_example = anonymous_sees_less member tables

no_rights_sees_public_test : seen_by (user stranger) tables ≡ (record (seen_by anonymous tables) {
  users = record { id = 20; publication_status = hidden; organizations = 5 ∷ [] } ∷ [];
})
no_rights_sees_public_test =
    no_rights_sees_public stranger
      (record {
        plain = refl;
        no_orgs_with = λ p. refl;
        no_project_rights = refl;
        no_group_rights = refl;
        no_people_groups = refl;
        no_organizations = refl;
      })
      tables

stranger-HasMoreRights : HasMoreRights stranger member
stranger-HasMoreRights = record {
  same_id = refl;
  super = λ h. h;
  orgs_with = λ p x h. cc;
  project_rights = λ x h. h;
  group_rights = λ x h. h;
  people_groups = λ x h. h;
  organizations = λ x h. cc;
}

grants_only_reveal_test :
    ((p : Project) → sees_project (user stranger) p ≡ true → sees_project (user member) p ≡ true)
    × ((permission : OrgPermission) (a : Announced)
        → sees_announced permission (user stranger) a ≡ true
        → sees_announced permission (user member) a ≡ true)
    × ((u : Profile) → sees_user (user stranger) u ≡ true → sees_user (user member) u ≡ true)
    × ((g : PeopleGroup)
        → sees_people_group (user stranger) g ≡ true
        → sees_people_group (user member) g ≡ true)
grants_only_reveal_test = grants_only_reveal stranger member stranger-HasMoreRights
