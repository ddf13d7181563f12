-- ===== src/Projects/Fields.antt =====
-- apps/projects/serializers.py: the field validators of `ProjectSerializer` and of
-- `LinkedProjectSerializer`, and the update that they guard. `has_perm`, which asks Django's and
-- guardian's backends, is outside: the field `can_add_project` of `Requester` is its answer.
pub mod Kept
pub mod Placed
mod Tests
use projects_backend.Base.{
  ◌==◌, if◌then◌else◌, mem, any, all, filter, Result, ◌>>=◌, ◌>>◌, raise_if, ok, err, Text,
  mem_text, ℕ, Bool, true, false, not, ◌&&◌, ◌||◌, Option, none, some, List, [], ◌∷◌, map,
}

-- `Project.PublicationStatus`
pub data ProjectStatus : Type 0 where
  public private org : ProjectStatus

abbrev pub same_status : ProjectStatus → ProjectStatus → Bool
same_status public public = true
same_status private private = true
same_status org org = true
same_status _ _ = false

pub record ProjectOrganization : Type 0 where
  pub id : ℕ
  pub code : Text
  pub admins : List ℕ
  pub facilitators : List ℕ

-- a category, with the code of its organization
pub record ProjectCategory : Type 0 where
  pub id : ℕ
  pub organization_code : Text
  pub only_reviewer_can_publish : Bool

pub record ProjectFields : Type 0 where
  pub id : ℕ
  pub title : Text
  pub publication_status : ProjectStatus
  pub description : Text
  pub organizations : List ProjectOrganization
  pub categories : List ProjectCategory
  pub reviewers : List ℕ
  pub reviewer_groups_users : List ℕ

-- `request.user`; `can_add_project` answers `has_perm("organizations.add_project", organization)`
pub record Requester : Type 0 where
  pub id : ℕ
  pub is_superuser : Bool
  pub can_add_project : ProjectOrganization → Bool

pub data FieldError : Type 0 where
  project_with_no_organization : FieldError
  add_project_to_organization_permission : FieldError
  only_reviewer_can_change_status : FieldError
  empty_project_description : FieldError
  project_category_organization : FieldError
  link_project_to_self : (title : Text) → FieldError

-- `o not in self.instance.organizations.all()`: rows are equal when their identifiers are
abbrev pub is_new : Option ProjectFields → ProjectOrganization → Bool
is_new none o = true
is_new (some p) o = not (any (λ x. x.id == o.id) p.organizations)

abbrev pub check_rights :
    Option Requester
    → Option ProjectFields
    → List ProjectOrganization
    → Result FieldError (Unit {0})
check_rights none instance_ value = ok tt
check_rights (some u) instance_ value =
    raise_if (not (all u.can_add_project (filter (is_new instance_) value)))
      add_project_to_organization_permission

unfoldable pub validate_organizations_codes :
    Option Requester
    → Option ProjectFields
    → List ProjectOrganization
    → Result FieldError (List ProjectOrganization)
validate_organizations_codes request instance_ [] = err project_with_no_organization
validate_organizations_codes request instance_ (o ∷ os) =
    check_rights request instance_ (o ∷ os) >> ok (o ∷ os)

abbrev pub is_restricted : ProjectFields → Bool
is_restricted p = any (λ c. c.only_reviewer_can_publish) p.categories

-- who may change the status of a project with a restricting category
abbrev pub can_publish : Requester → ProjectFields → Bool
can_publish u p =
    u.is_superuser
    || any (λ o. mem u.id o.admins || mem u.id o.facilitators) p.organizations
    || mem u.id p.reviewers
    || mem u.id p.reviewer_groups_users

unfoldable pub validate_publication_status :
    Requester → Option ProjectFields → ProjectStatus → Result FieldError ProjectStatus
validate_publication_status u none value = ok value
validate_publication_status u (some p) value =
    if same_status p.publication_status value || not (is_restricted p) || can_publish u p
    then ok value
    else err only_reviewer_can_change_status

-- "<p></p>" and ""
abbrev empty_descriptions : List Text
empty_descriptions = (60 ∷ 112 ∷ 62 ∷ 60 ∷ 47 ∷ 112 ∷ 62 ∷ []) ∷ [] ∷ []

abbrev pub is_empty_description : Text → Bool
is_empty_description t = mem_text t empty_descriptions

unfoldable pub validate_description : Option ProjectFields → Text → Result FieldError Text
validate_description none value = ok value
validate_description (some p) value =
    if not (is_empty_description p.description) && is_empty_description value
    then err empty_project_description
    else ok value

abbrev pub codes_of : List ProjectOrganization → List Text
codes_of = map (λ o. o.code)

-- `initial_data.get("organizations_codes", [])`, or the codes of the instance when that is empty
abbrev pub codes_for : Option ProjectFields → List Text → List Text
codes_for (some p) [] = codes_of p.organizations
codes_for (some p) (c ∷ cs) = c ∷ cs
codes_for none cs = cs

abbrev pub fits : List Text → List ProjectCategory → Bool
fits codes = all (λ c. mem_text c.organization_code codes)

unfoldable pub validate_categories :
    Option ProjectFields
    → List Text
    → List ProjectCategory
    → Result FieldError (List ProjectCategory)
validate_categories instance_ initial value =
    if fits (codes_for instance_ initial) value then ok value else err project_category_organization

-- the fields of a PATCH request that have one of the validators; a missing key is `none`
pub record Payload : Type 0 where
  pub organizations_codes : Option (List ProjectOrganization)
  pub publication_status : Option ProjectStatus
  pub description : Option Text
  pub categories : Option (List ProjectCategory)

abbrev pub get_or : {A : Type 0} → A → Option A → A
get_or d none = d
get_or d (some a) = a

abbrev pub validate_given :
    {A : Type 0} → A → (A → Result FieldError A) → Option A → Result FieldError A
validate_given old validate none = ok old
validate_given old validate (some a) = validate a

-- The update of a project: each field of the request passes its validator or the row stays as it
-- was. `validate_given` gives the value that the row has afterwards.
-- The error is that of the first validator to raise, where the framework gathers those of the others.
-- The notifications of the change are left out.
unfoldable pub update : Requester → Payload → ProjectFields → Result FieldError ProjectFields
update u data_ p =
    validate_given p.organizations (validate_organizations_codes (some u) (some p))
      data_.organizations_codes
    >>= λ organizations.
        validate_given p.publication_status (validate_publication_status u (some p))
          data_.publication_status
        >>= λ status.
            validate_given p.description (validate_description (some p)) data_.description
            >>= λ description.
                validate_given p.categories
                  (validate_categories (some p) (codes_of (get_or [] data_.organizations_codes)))
                  data_.categories
                >>= λ categories. ok (record p {
                  organizations = organizations;
                  publication_status = status;
                  description = description;
                  categories = categories;
                })

-- `LinkedProjectSerializer.validate`: the ends that the link will have, each from the data or else
-- from the instance
pub record LinkData : Type 0 where
  pub project : Option ProjectFields
  pub target : Option ProjectFields

abbrev end_of : Option ProjectFields → Option ProjectFields → Option ProjectFields
end_of (some p) old = some p
end_of none old = old

abbrev check_ends : Option ProjectFields → Option ProjectFields → Result FieldError (Unit {0})
check_ends (some p) (some t) = raise_if (p.id == t.id) (link_project_to_self t.title)
check_ends _ _ = ok tt

-- without an instance the data of `instance_` is `none` twice
unfoldable pub validate_link : (instance_ data_ : LinkData) → Result FieldError LinkData
validate_link instance_ data_ =
    check_ends (end_of data_.project instance_.project) (end_of data_.target instance_.target)
    >> ok data_
