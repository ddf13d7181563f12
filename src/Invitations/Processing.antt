-- ===== src/Invitations/Processing.antt =====
-- One access request: `perform_accept` and `perform_decline` of apps/invitations/views.py with the
-- model methods they call.
use projects_backend.Base.{
  ◌==◌, if◌then◌else◌, ==_iff, Bool-cases, is_some, ℕ, ◌≡◌, refl, sym, ap, subst, ◌∙◌, ◌≢◌, ◌⊎◌,
  inl, inr, true, false, not, ◌||◌, Option, none, some,
}
use projects_backend.Invitations.{
  AccessRequest, Tables, Raised, nothing, keycloak_get, keycloak_post, keycloak_put, other_error,
  Outcome, success, error, is_pending, atomic, accept, accept_and_create, created, perform_accept,
  accept_either, report_accept, email_taken, then_confirm,
}
use projects_backend.Invitations.Honoured.{IsHonoured, settled, settled-IsHonoured}

pub atomic-cases :
    (e : Raised) (before after : Tables)
    → (((atomic e before after).1 ≡ before) × ((atomic e before after).0 ≢ nothing))
      ⊎ (atomic e before after ≡ (nothing, after))
atomic-cases nothing before after = inr refl
atomic-cases keycloak_get before after = inl (refl, λ h. cc)
atomic-cases keycloak_post before after = inl (refl, λ h. cc)
atomic-cases keycloak_put before after = inl (refl, λ h. cc)
atomic-cases other_error before after = inl (refl, λ h. cc)

then_confirm-failed :
    (confirm e : Raised) (t : Tables) → e ≢ nothing → then_confirm confirm (e, t) ≡ (e, t)
then_confirm-failed confirm nothing t ne = absurd (ne refl)
then_confirm-failed confirm keycloak_get t ne = refl
then_confirm-failed confirm keycloak_post t ne = refl
then_confirm-failed confirm keycloak_put t ne = refl
then_confirm-failed confirm other_error t ne = refl

accept_and_create-cases :
    (r : AccessRequest) (create_account confirm : Raised) (t : Tables)
    → (((accept_and_create r create_account confirm t).1 ≡ t)
        × ((accept_and_create r create_account confirm t).0 ≢ nothing))
      ⊎ ((email_taken r.email t.users ≡ false)
          × (accept_and_create r create_account confirm t ≡ (confirm, created r t)))
unfolding accept_and_create
accept_and_create-cases r create_account confirm t =
    elim (Bool-cases (email_taken r.email t.users)) [
      | inl taken ↦ rw taken (inl (refl, λ h. cc))
      | inr free ↦ elim (atomic-cases create_account t (created r t)) [
        | inl (same, ne) ↦ inl (
          rw
              (
                free,
                then_confirm-failed confirm (atomic create_account t (created r t)).0
                    (atomic create_account t (created r t)).1 ne,
              )
              same,
          rw
              (
                free,
                then_confirm-failed confirm (atomic create_account t (created r t)).0
                    (atomic create_account t (created r t)).1 ne,
              )
              ne,
        )
        | inr done ↦ inr (free, rw (free, done))
      ]
    ]

success_only : (e : Raised) → e ≢ nothing → report_accept e ≢ success
success_only nothing ne = absurd (ne refl)
success_only keycloak_get ne = λ h. cc
success_only keycloak_post ne = λ h. cc
success_only keycloak_put ne = λ h. cc
success_only other_error ne = λ h. cc

accept_either-cases :
    (r : AccessRequest) (ou : Option ℕ) (o : Outcome) (t : Tables)
    → (((accept_either r ou o t).1 ≡ t) × ((accept_either r ou o t).0 ≢ nothing))
      ⊎ (((is_some ou || not (email_taken r.email t.users)) ≡ true)
          × (accept_either r ou o t ≡ (if is_some ou then nothing else o.confirm, settled r ou t)))
unfolding accept
accept_either-cases r (some u) o t = elim (atomic-cases o.mail t (settled r (some u) t)) [
  | inl same ↦ inl same
  | inr done ↦ inr (refl, done)
]
accept_either-cases r none o t = elim (accept_and_create-cases r o.create_account o.confirm t) [
  | inl same ↦ inl same
  | inr (free, done) ↦ inr (rw free refl, done)
]

-- What an acceptance comes to: either the tables are as they were, and the answer is not a success,
-- or the request was a pending one of the organization and its acceptance is in the tables.
pub perform_accept-cases :
    (code : ℕ) (r : AccessRequest) (o : Outcome) (t : Tables)
    → (((perform_accept code r o t).1 ≡ t) × ((perform_accept code r o t).0 ≢ success))
      ⊎ ((r.organization ≡ code)
          × (is_pending r.status ≡ true)
          × ((is_some r.user || not (email_taken r.email t.users)) ≡ true)
          × (perform_accept code r o t ≡ (
            report_accept (if is_some r.user then nothing else o.confirm),
            settled r r.user t,
          )))
unfolding perform_accept
perform_accept-cases code r o t = elim (Bool-cases (r.organization == code)) [
  | inr e ↦ rw e (inl (refl, λ h. cc))
  | inl e ↦ elim (Bool-cases (is_pending r.status)) [
    | inr e2 ↦ rw (e, e2) (inl (refl, λ h. cc))
    | inl e2 ↦ elim (accept_either-cases r r.user o t) [
      | inl (same, ne) ↦ rw (e, e2) (inl (same, success_only _ ne))
      | inr (free, done) ↦ inr ((==_iff r.organization code).0 e, e2, free, rw (e, e2, done))
    ]
  ]
]

-- An error after the commit is one of the confirmation mail.
late_error :
    (ou : Option ℕ) (confirm : Raised)
    → report_accept (if is_some ou then nothing else confirm) ≡ error
    → (ou ≡ none) × (confirm ≢ nothing)
late_error (some u) confirm h = cc
late_error none nothing h = cc
late_error none keycloak_get h = cc
late_error none keycloak_post h = (refl, λ e. cc)
late_error none keycloak_put h = (refl, λ e. cc)
late_error none other_error h = (refl, λ e. cc)

-- An answer of success means that the request was a pending one of the organization and that its
-- acceptance is what changed in the tables.
-- An answer of error means that the tables are as they were, unless the request had no user and the
-- confirmation mail failed after the account was made.
pub perform_accept_outcome :
    (code : ℕ) (r : AccessRequest) (o : Outcome) (t : Tables)
    → ((perform_accept code r o t).0 ≡ success
        → (r.organization ≡ code)
          × (is_pending r.status ≡ true)
          × ((perform_accept code r o t).1 ≡ settled r r.user t))
      × ((perform_accept code r o t).0 ≡ error
          → ((perform_accept code r o t).1 ≡ t)
            ⊎ ((r.user ≡ none)
                × (o.confirm ≢ nothing)
                × ((perform_accept code r o t).1 ≡ settled r none t)))
perform_accept_outcome code r o t = elim (perform_accept-cases code r o t) [
  | inl (same, ne) ↦ (λ h. absurd (ne h), λ h. inl same)
  | inr (org, waits, free, done) ↦ (
    λ h. (org, waits, ap (λ p. p.1) done),
    λ h.
        let (nobody, failed) = late_error r.user o.confirm (sym (ap (λ p. p.0) done) ∙ h) in
        inr (nobody, failed, ap (λ p. p.1) done ∙ ap (λ ou. settled r ou t) nobody),
  )
]

-- An acceptance keeps every accepted request honoured, whatever the outside calls do.
pub perform_accept-IsHonoured :
    (code : ℕ) (r : AccessRequest) (o : Outcome) (t : Tables)
    → IsHonoured t
    → IsHonoured (perform_accept code r o t).1
perform_accept-IsHonoured code r o t h = elim (perform_accept-cases code r o t) [
  | inl (same, _) ↦ subst IsHonoured (sym same) h
  | inr (_, _, _, done) ↦
      subst IsHonoured (sym (ap (λ p. p.1) done)) (settled-IsHonoured r r.user t refl h)
]
