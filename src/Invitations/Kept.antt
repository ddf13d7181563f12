-- ===== src/Invitations/Kept.antt =====
-- The rows of the access requests after an acceptance: the one that was accepted, and the others.
use projects_backend.Base.{
  ◌==◌, if◌then◌else◌, Bool-cases, is_some, ℕ, ◌≡◌, refl, ap, ◌∙◌, inl, inr, false, not, ◌&&◌,
  Option, none, some, List, [], ◌∷◌, arith,
}
use projects_backend.Invitations.{
  Status, accepted, AccessRequest, Tables, is_pending, save_request, claim_pending, claim_row,
}
use projects_backend.Invitations.Honoured.{find_request, settled}

find-save_request :
    (i : ℕ) (r : AccessRequest) (xs : List AccessRequest)
    → find_request i (save_request r xs)
      ≡ (if r.id == i && is_some (find_request i xs) then some r else find_request i xs)
unfolding save_request
find-save_request i r [] = ground arith
find-save_request i r (x ∷ xs) = elim (Bool-cases (x.id == r.id)) [
  | inl e ↦ rw e (ground (arith, find-save_request i r xs))
  | inr e ↦ rw e (ground (arith, find-save_request i r xs))
]

claimed : ℕ → ℕ → Option AccessRequest → Option AccessRequest
claimed e u none = none
claimed e u (some x) = some (claim_row e u x)

find-claim_pending :
    (i e u : ℕ) (xs : List AccessRequest)
    → find_request i (claim_pending e u xs) ≡ claimed e u (find_request i xs)
unfolding claimed
find-claim_pending i e u [] = refl
find-claim_pending i e u (x ∷ xs) =
    elim (Bool-cases (not (is_some x.user) && x.email == e && is_pending x.status)) [
      | inl b ↦ rw b (ground (arith, find-claim_pending i e u xs))
      | inr b ↦ rw b (ground (arith, find-claim_pending i e u xs))
    ]

-- what is not pending is not claimed
claim_processed : (e u : ℕ) (x : AccessRequest) → is_pending x.status ≡ false → claim_row e u x ≡ x
claim_processed e u x h = elim (Bool-cases (not (is_some x.user) && x.email == e)) [
  | inl b ↦ rw (b, h)
  | inr b ↦ rw b
]

claim_status : (e u : ℕ) (x : AccessRequest) → (claim_row e u x).status ≡ x.status
claim_status e u x =
    elim (Bool-cases (not (is_some x.user) && x.email == e && is_pending x.status)) [
      | inl b ↦ rw b
      | inr b ↦ rw b
    ]

abbrev pub status_of : Option AccessRequest → Option Status
status_of none = none
status_of (some x) = some x.status

status_of-claimed : (e u : ℕ) (o : Option AccessRequest) → status_of (claimed e u o) ≡ status_of o
unfolding claimed
status_of-claimed e u none = refl
status_of-claimed e u (some x) = rw (claim_status e u x)

-- An acceptance leaves the status of every other request.
pub settled-status :
    (r : AccessRequest) (ou : Option ℕ) (t : Tables) (i : ℕ)
    → (r.id == i) ≡ false
    → status_of (find_request i (settled r ou t).requests) ≡ status_of (find_request i t.requests)
settled-status r (some u) t i ne = rw (find-save_request i _ t.requests, ne)
settled-status r none t i ne =
    rw
      (find-claim_pending i r.email t.next_user
        (save_request (record r { user = some t.next_user; status = accepted }) t.requests))
      (status_of-claimed r.email t.next_user _
        ∙ rw (
          find-save_request i (record r { user = some t.next_user; status = accepted }) t.requests,
          ne,
        ))

-- An acceptance leaves every other request that is processed already.
pub settled-keeps :
    (r : AccessRequest) (ou : Option ℕ) (t : Tables) (i : ℕ) (x : AccessRequest)
    → (r.id == i) ≡ false
    → find_request i t.requests ≡ some x
    → is_pending x.status ≡ false
    → find_request i (settled r ou t).requests ≡ some x
unfolding claimed
settled-keeps r (some u) t i x ne there done =
    rw (find-save_request i (record r { status = accepted }) t.requests, ne) there
settled-keeps r none t i x ne there done =
    find-claim_pending i r.email t.next_user
      (save_request (record r { user = some t.next_user; status = accepted }) t.requests)
    ∙ rw
        (
          find-save_request i (record r { user = some t.next_user; status = accepted }) t.requests,
          ne,
          there,
        )
        (ap some (claim_processed r.email t.next_user x done))
