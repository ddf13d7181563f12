-- ===== src/Projects/Fields/Placed.antt =====
-- apps/projects/serializers.py: the organizations of a project and those of its categories.
use projects_backend.Base.{
  Bool-cases, is_some, none-ne-some, all, filter, ok-injective, err-ne-ok, ok, Text, ◌≡◌, refl, sym,
  ap, subst, ◌⊎◌, inl, inr, true, Option, none, some, List, [], ◌∷◌,
}
use projects_backend.Projects.Fields.{
  ProjectOrganization, ProjectCategory, ProjectFields, Requester, Payload, codes_of, get_or, is_new,
  fits, codes_for, validate_given, validate_organizations_codes, validate_categories, update,
}
use projects_backend.Projects.Fields.Kept.{update_parts, organizations_validated}

-- Each category of the project belongs to one of its organizations.
unfoldable pub IsPlaced : ProjectFields → Type 0
IsPlaced p = fits (codes_of p.organizations) p.categories ≡ true

-- the request gives the categories, or leaves the organizations alone
unfoldable pub IsWhole : Payload → Type 0
IsWhole d = (is_some d.categories ≡ true) ⊎ (d.organizations_codes ≡ none)

-- The codes that the categories are checked against are those of the organizations that the project
-- has after the update.
codes_after :
    (u : Requester) (p : ProjectFields) (given : Option (List ProjectOrganization))
    → (os : List ProjectOrganization)
    → validate_given p.organizations (validate_organizations_codes (some u) (some p)) given ≡ ok os
    → codes_for (some p) (codes_of (get_or [] given)) ≡ codes_of os
codes_after u p none os h = ap codes_of (ok-injective _ os h)
codes_after u p (some []) os h = absurd ((organizations_validated u p [] os h).1 refl)
codes_after u p (some (x ∷ xs)) os h = ap codes_of ((organizations_validated u p (x ∷ xs) os h).0)

rights :
    (u : Requester) (p : ProjectFields) (given : Option (List ProjectOrganization))
    → (os : List ProjectOrganization)
    → validate_given p.organizations (validate_organizations_codes (some u) (some p)) given ≡ ok os
    → all u.can_add_project (filter (is_new (some p)) (get_or [] given)) ≡ true
rights u p none os h = refl
rights u p (some xs) os h = (organizations_validated u p xs os h).2

categories_fit :
    (p : ProjectFields) (initial : List Text) (xs cs : List ProjectCategory)
    → validate_categories (some p) initial xs ≡ ok cs
    → fits (codes_for (some p) initial) cs ≡ true
unfolding validate_categories
categories_fit p initial xs cs h = elim (Bool-cases (fits (codes_for (some p) initial) xs)) [
  | inl e ↦
      subst (λ z. fits (codes_for (some p) initial) z ≡ true) (ok-injective xs cs (rw e at h)) e
  | inr e ↦ absurd (err-ne-ok _ cs (rw e at h))
]

placed :
    (p : ProjectFields) (orgs : Option (List ProjectOrganization))
    (given : Option (List ProjectCategory))
    → (cs : List ProjectCategory) (codes : List Text) → IsPlaced p
    → (is_some given ≡ true) ⊎ (orgs ≡ none)
    → codes_for (some p) (codes_of (get_or [] orgs)) ≡ codes
    → validate_given p.categories (validate_categories (some p) (codes_of (get_or [] orgs))) given
      ≡ ok cs
    → fits codes cs ≡ true
unfolding IsPlaced
placed p orgs (some xs) cs codes f w e h =
    subst (λ z. fits z cs ≡ true) e (categories_fit p (codes_of (get_or [] orgs)) xs cs h)
placed p orgs none cs codes f (inl bad) e h = cc
placed p none none cs codes f (inr w) e h =
    subst (λ z. fits z cs ≡ true) e
      (subst (λ z. fits (codes_of p.organizations) z ≡ true) (ok-injective _ cs h) f)
placed p (some os) none cs codes f (inr w) e h = absurd (none-ne-some os (sym w))

-- Let each category of a project belong to one of its organizations, and let an update pass that
-- gives the categories or leaves the organizations alone. Then each category that the project has
-- afterwards belongs to one of the organizations that it has afterwards, and the requester may add
-- projects to each organization that the request gives and the project was not in.
pub update-IsPlaced :
    (u : Requester) (d : Payload) (p q : ProjectFields)
    → IsPlaced p
    → IsWhole d
    → update u d p ≡ ok q
    → IsPlaced q
      × (all u.can_add_project (filter (is_new (some p)) (get_or [] d.organizations_codes)) ≡ true)
unfolding IsPlaced IsWhole
update-IsPlaced u d p q f w h =
    let parts = update_parts u d p q h in
    (
      placed p d.organizations_codes d.categories q.categories (codes_of q.organizations) f w
          (codes_after u p d.organizations_codes q.organizations parts.0) parts.3,
      rights u p d.organizations_codes q.organizations parts.0,
    )
