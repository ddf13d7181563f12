-- ===== src/Projects/Fields/Kept.antt =====
-- apps/projects/serializers.py: what the updates of a project keep.
use projects_backend.Base.{
  Bool-cases, length, all, filter, Result, ok-injective, err-ne-ok, bind_ok, raise_if_ok, ok, err,
  Text, ◌≡◌, refl, ap, subst, ◌∙◌, ◌≢◌, inl, inr, true, false, Option, none, some, List, [], ◌∷◌,
  arith,
}
use projects_backend.Projects.Fields.{
  ProjectStatus, same_status, ProjectOrganization, ProjectFields, Requester, Payload, FieldError,
  is_restricted, can_publish, is_empty_description, codes_of, is_new, check_rights, get_or,
  validate_given, validate_organizations_codes, validate_publication_status, validate_description,
  validate_categories, update, public, private, org,
}

-- An update that passes has passed each of its validators.
pub update_parts :
    (u : Requester) (d : Payload) (p q : ProjectFields)
    → update u d p ≡ ok q
    → (validate_given p.organizations
          (validate_organizations_codes (some u) (some p))
          d.organizations_codes
        ≡ ok q.organizations)
      × (validate_given p.publication_status
            (validate_publication_status u (some p))
            d.publication_status
          ≡ ok q.publication_status)
      × (validate_given p.description (validate_description (some p)) d.description
          ≡ ok q.description)
      × (validate_given p.categories
            (validate_categories (some p) (codes_of (get_or [] d.organizations_codes)))
            d.categories
          ≡ ok q.categories)
unfolding update
update_parts u d p q h =
    let (organizations, o, h1) = bind_ok _ _ q h in
    let (status, s, h2) = bind_ok _ _ q h1 in
    let (description, t, h3) = bind_ok _ _ q h2 in
    let (categories, c, h4) = bind_ok _ _ q h3 in
    let same = ok-injective _ q h4 in
    (
      o ∙ ap (λ z. ok z.organizations) same,
      s ∙ ap (λ z. ok z.publication_status) same,
      t ∙ ap (λ z. ok z.description) same,
      c ∙ ap (λ z. ok z.categories) same,
    )

same_status_eq : (s t : ProjectStatus) → same_status s t ≡ true → s ≡ t
same_status_eq public public h = refl
same_status_eq private private h = refl
same_status_eq org org h = refl
same_status_eq public private h = cc
same_status_eq public org h = cc
same_status_eq private public h = cc
same_status_eq private org h = cc
same_status_eq org public h = cc
same_status_eq org private h = cc

status_kept :
    (u : Requester) (p : ProjectFields) (given : Option ProjectStatus) (s : ProjectStatus)
    → is_restricted p ≡ true
    → can_publish u p ≡ false
    → validate_given p.publication_status (validate_publication_status u (some p)) given ≡ ok s
    → p.publication_status ≡ s
unfolding validate_publication_status
status_kept u p none s r c h = ok-injective _ s h
status_kept u p (some v) s r c h = elim (Bool-cases (same_status p.publication_status v)) [
  | inl e ↦ same_status_eq _ v e ∙ ok-injective v s (rw e at h)
  | inr e ↦ absurd (err-ne-ok _ s (rw (e, r, c) at h))
]

-- While one of the categories of a project lets only reviewers publish, an update that passes leaves
-- the publication status alone when its requester is no superuser, no administrator or facilitator
-- of one of the project's organizations, and no reviewer of the project, neither in person nor
-- through a people group.
pub update_keeps_status :
    (u : Requester) (d : Payload) (p q : ProjectFields)
    → is_restricted p ≡ true
    → can_publish u p ≡ false
    → update u d p ≡ ok q
    → p.publication_status ≡ q.publication_status
update_keeps_status u d p q r c h =
    status_kept u p d.publication_status q.publication_status r c ((update_parts u d p q h).1)

pub organizations_validated :
    (u : Requester) (p : ProjectFields) (xs os : List ProjectOrganization)
    → validate_organizations_codes (some u) (some p) xs ≡ ok os
    → (xs ≡ os) × (length xs ≢ 0) × (all u.can_add_project (filter (is_new (some p)) xs) ≡ true)
unfolding validate_organizations_codes
organizations_validated u p [] os h = absurd (err-ne-ok _ os h)
organizations_validated u p (x ∷ xs) os h =
    let (done, checked, same) =
      bind_ok (check_rights (some u) (some p) (x ∷ xs)) (λ _. ok (x ∷ xs)) os h in
    let allowed = raise_if_ok _ _ done checked in
    (ok-injective (x ∷ xs) os same, λ e. omega (arith, e), ground (arith, allowed))

-- A project that is in some organization and has a description.
unfoldable pub IsFilled : ProjectFields → Type 0
IsFilled p = (length p.organizations ≢ 0) × (is_empty_description p.description ≡ false)

organizations_filled :
    (u : Requester) (p : ProjectFields) (given : Option (List ProjectOrganization))
    → (os : List ProjectOrganization) → length p.organizations ≢ 0
    → validate_given p.organizations (validate_organizations_codes (some u) (some p)) given ≡ ok os
    → length os ≢ 0
organizations_filled u p none os f h = subst (λ z. length z ≢ 0) (ok-injective _ os h) f
organizations_filled u p (some xs) os f h =
    let (same, filled, _) = organizations_validated u p xs os h in
    subst (λ z. length z ≢ 0) same filled

description_filled :
    (p : ProjectFields) (given : Option Text) (t : Text)
    → is_empty_description p.description ≡ false
    → validate_given p.description (validate_description (some p)) given ≡ ok t
    → is_empty_description t ≡ false
unfolding validate_description
description_filled p none t f h = subst (λ z. is_empty_description z ≡ false) (ok-injective _ t h) f
description_filled p (some v) t f h = elim (Bool-cases (is_empty_description v)) [
  | inl e ↦ absurd (err-ne-ok _ t (rw (f, e) at h))
  | inr e ↦ subst (λ z. is_empty_description z ≡ false) (ok-injective v t (rw (f, e) at h)) e
]

-- The row after a request: a refused update leaves it as it was.
abbrev kept_or : ProjectFields → Result FieldError ProjectFields → ProjectFields
kept_or p (ok q) = q
kept_or p (err e) = p

abbrev pub updates : List (Requester × Payload) → ProjectFields → ProjectFields
updates [] p = p
updates ((u, d) ∷ rest) p = updates rest (kept_or p (update u d p))

kept_or-IsFilled :
    (u : Requester) (d : Payload) (p : ProjectFields) (r : Result FieldError ProjectFields)
    → update u d p ≡ r
    → IsFilled p
    → IsFilled (kept_or p r)
unfolding IsFilled
kept_or-IsFilled u d p (err e) h f = f
kept_or-IsFilled u d p (ok q) h f =
    let parts = update_parts u d p q h in
    (
      organizations_filled u p d.organizations_codes q.organizations f.0 parts.0,
      description_filled p d.description q.description f.1 parts.2,
    )

-- However many updates are requested, by whomever and whether they pass or not: a project that is in
-- some organization and has a description that is neither "" nor "<p></p>" still is and has.
pub updates-IsFilled :
    (requests : List (Requester × Payload)) (p : ProjectFields)
    → IsFilled p
    → IsFilled (updates requests p)
updates-IsFilled [] p f = f
updates-IsFilled ((u, d) ∷ rest) p f =
    updates-IsFilled rest (kept_or p (update u d p)) (kept_or-IsFilled u d p (update u d p) refl f)
