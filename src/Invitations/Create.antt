-- ===== src/Invitations/Create.antt =====
-- New access requests: the validators of `AccessRequestSerializer` in apps/invitations/serializers.py
-- and `create` of apps/invitations/views.py.
-- `fold` is the case folding of the database's `iexact`, and 0 is the empty email.
use projects_backend.Base.{
  ◌==◌, if◌then◌else◌, Bool-cases, any, Result, ok-injective, err-ne-ok, ok, err, ℕ, ◌+◌, ◌≡◌, refl,
  sym, ap, ◌∙◌, inl, inr, Bool, true, false, ◌&&◌, ◌||◌, Option, none, some, List, [], ◌∷◌, ◌++◌,
  arith,
}
use projects_backend.Invitations.{pending, AccessRequest, Tables, is_pending}

-- What the validators read beside the requests: whether the organization takes requests, who is in
-- any of its groups, and the emails and the personal emails of the accounts.
pub record Context : Type 0 where
  pub access_request_enabled : ℕ → Bool
  pub members : List (ℕ × ℕ)
  pub emails : List ℕ
  pub personal_emails : List ℕ

pub data RequestError : Type 0 where
  disabled already_member user_already_exists : RequestError
  exists_for_user exists_for_email : RequestError

abbrev has_user : ℕ → Option ℕ → Bool
has_user u none = false
has_user u (some v) = v == u

abbrev pub is_pending_of_user : ℕ → ℕ → AccessRequest → Bool
is_pending_of_user org u r = r.organization == org && is_pending r.status && has_user u r.user

abbrev pub is_in_organization : ℕ → ℕ → List (ℕ × ℕ) → Bool
is_in_organization org u rows = any (λ (o, v). o == org && v == u) rows

-- `validate_organization`
abbrev validate_organization : Context → ℕ → List RequestError
validate_organization c org = if c.access_request_enabled org then [] else disabled ∷ []

-- `validate_user`
abbrev validate_user : Context → ℕ → Option ℕ → List AccessRequest → List RequestError
validate_user c org none requests = []
validate_user c org (some u) requests =
    if is_in_organization org u c.members
    then already_member ∷ []
    else if any (is_pending_of_user org u) requests
    then exists_for_user ∷ []
    else []

-- the email that is written: none of a user's request
abbrev written_email : Option ℕ → Option ℕ → ℕ
written_email (some u) email = 0
written_email none none = 0
written_email none (some e) = e

abbrev new_request : ℕ → ℕ → Option ℕ → Option ℕ → AccessRequest
new_request id org user email = record {
  id = id;
  organization = org;
  user = user;
  email = written_email user email;
  status = pending;
}

abbrev if_valid : {A : Type 0} → List RequestError → A → Result (List RequestError) A
if_valid [] a = ok a
if_valid (e ∷ es) a = err (e ∷ es)

module _ (fold : ℕ → ℕ) where
  abbrev pub is_pending_of_email : ℕ → ℕ → AccessRequest → Bool
  is_pending_of_email org e r =
      r.organization == org && is_pending r.status && fold r.email == fold e

  abbrev pub has_account : Context → ℕ → Bool
  has_account c e =
      any (λ x. fold x == fold e) c.emails || any (λ x. fold x == fold e) c.personal_emails

  -- `validate_email`, which is called on an email that is given
  abbrev validate_email : Context → ℕ → Option ℕ → Option ℕ → List AccessRequest → List RequestError
  validate_email c org user none requests = []
  validate_email c org (some u) (some e) requests = []
  validate_email c org none (some e) requests =
      if has_account c e
      then user_already_exists ∷ []
      else if any (is_pending_of_email org e) requests
      then exists_for_email ∷ []
      else []

  -- The errors of all the fields are raised together.
  unfoldable pub create_request :
      Context → ℕ → ℕ → Option ℕ → Option ℕ → Tables → Result (List RequestError) Tables
  create_request c id org user email t =
      if_valid
        (validate_organization c org
          ++ (validate_user c org user t.requests ++ validate_email c org user email t.requests))
        (record t { requests = t.requests ++ new_request id org user email ∷ [] })

abbrev pub count_requests : (AccessRequest → Bool) → List AccessRequest → ℕ
count_requests p [] = 0
count_requests p (r ∷ rs) = (if p r then 1 else 0) + count_requests p rs

count-fresh :
    (p : AccessRequest → Bool) (rs : List AccessRequest) (r : AccessRequest)
    → any p rs ≡ false
    → p r ≡ true
    → count_requests p (rs ++ r ∷ []) ≡ 1
count-fresh p [] r h new = rw new (omega arith)
count-fresh p (x ∷ rs) r h new =
    let skipped : p x ≡ false = ground arith in
    let rest = count-fresh p rs r (ground arith) new in rw (skipped, rest) (omega arith)

no_errors : (xs ys : List RequestError) → xs ++ ys ≡ [] → (xs ≡ []) × (ys ≡ [])
no_errors [] ys h = (refl, h)
no_errors (x ∷ xs) ys h = cc

some_error : (e : RequestError) → e ∷ [] ≡ [] → ⊥
some_error e h = cc

enabled_organization :
    (c : Context) (org : ℕ) → validate_organization c org ≡ [] → c.access_request_enabled org ≡ true
enabled_organization c org h = elim (Bool-cases (c.access_request_enabled org)) [
  | inl e ↦ e
  | inr e ↦ absurd (some_error disabled (rw e at h))
]

if_valid_ok :
    {A : Type 0} (es : List RequestError) (a b : A) → if_valid es a ≡ ok b → (es ≡ []) × (a ≡ b)
if_valid_ok [] a b h = (refl, ok-injective a b h)
if_valid_ok (e ∷ es) a b h = absurd (err-ne-ok _ b h)

module _ (fold : ℕ → ℕ) where
  user_checked :
      (c : Context) (org u : ℕ) (rs : List AccessRequest)
      → validate_user c org (some u) rs ≡ []
      → (is_in_organization org u c.members ≡ false) × (any (is_pending_of_user org u) rs ≡ false)
  user_checked c org u rs h = elim (Bool-cases (is_in_organization org u c.members)) [
    | inl e ↦ absurd (some_error _ (rw e at h))
    | inr e ↦ elim (Bool-cases (any (is_pending_of_user org u) rs)) [
      | inl f ↦ absurd (some_error _ (rw (e, f) at h))
      | inr f ↦ (e, f)
    ]
  ]

  email_checked :
      (c : Context) (org e : ℕ) (rs : List AccessRequest)
      → validate_email fold c org none (some e) rs ≡ []
      → (has_account fold c e ≡ false) × (any (is_pending_of_email fold org e) rs ≡ false)
  email_checked c org e rs h = elim (Bool-cases (has_account fold c e)) [
    | inl x ↦ absurd (some_error _ (rw x at h))
    | inr x ↦ elim (Bool-cases (any (is_pending_of_email fold org e) rs)) [
      | inl f ↦ absurd (some_error _ (rw (x, f) at h))
      | inr f ↦ (x, f)
    ]
  ]

  -- A request that is created is for an organization that takes requests. If it is a user's, the user
  -- is in none of the organization's groups, and it is their only pending request there. If it is
  -- nobody's and has an email, no account has that email, and it is the only pending request there
  -- with it, whatever the case of the letters.
  pub created_request_is_only :
      (c : Context) (id org : ℕ) (user email : Option ℕ) (t t' : Tables)
      → create_request fold c id org user email t ≡ ok t'
      → (c.access_request_enabled org ≡ true)
        × ((u : ℕ)
            → user ≡ some u
            → (is_in_organization org u c.members ≡ false)
              × (count_requests (is_pending_of_user org u) t'.requests ≡ 1))
        × ((e : ℕ)
            → user ≡ none
            → email ≡ some e
            → (has_account fold c e ≡ false)
              × (count_requests (is_pending_of_email fold org e) t'.requests ≡ 1))
  unfolding create_request
  created_request_is_only c id org user email t t' h =
      let (valid, written) = if_valid_ok _ _ t' h in
      let (enabled, fields) = no_errors (validate_organization c org) _ valid in
      let (user_valid, email_valid) = no_errors (validate_user c org user t.requests) _ fields in
      let rows : t'.requests ≡ t.requests ++ new_request id org user email ∷ [] =
        ap (λ (x : Tables). x.requests) (sym written) in
      (
        enabled_organization c org enabled,
        λ u e.
            let (apart, fresh) =
              user_checked c org u t.requests
                (ap (λ x. validate_user c org x t.requests) (sym e) ∙ user_valid) in
            (
              apart,
              ap (count_requests (is_pending_of_user org u))
                    (rows ∙ ap (λ x. t.requests ++ new_request id org x email ∷ []) e)
                  ∙ count-fresh (is_pending_of_user org u) t.requests
                      (new_request id org (some u) email) fresh (ground arith),
            ),
        λ e nobody given.
            let (free, fresh) = email_checked c org e t.requests (
              ap (λ x. validate_email fold c org x (some e) t.requests) (sym nobody)
              ∙ ap (λ x. validate_email fold c org user x t.requests) (sym given)
              ∙ email_valid) in
            (
              free,
              ap (count_requests (is_pending_of_email fold org e)) (
                    rows
                    ∙ ap (λ x. t.requests ++ new_request id org x email ∷ []) nobody
                    ∙ ap (λ x. t.requests ++ new_request id org none x ∷ []) given)
                  ∙ count-fresh (is_pending_of_email fold org e) t.requests
                      (new_request id org none (some e)) fresh (ground arith),
            ),
      )
