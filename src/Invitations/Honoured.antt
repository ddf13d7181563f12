-- ===== src/Invitations/Honoured.antt =====
-- The accepted requests whose user is in the organization, and the tables after an acceptance.
use projects_backend.Base.{
  ◌==◌, if◌then◌else◌, Bool-cases, Option-cases, is_some, any, all, all-weaken, all-map, ℕ, ◌≡◌,
  refl, inl, inr, Bool, true, false, not, ◌&&◌, ◌||◌, Option, none, some, List, [], ◌∷◌, arith,
}
use projects_backend.Invitations.{
  Status, pending, accepted, declined, AccessRequest, Tables, is_pending, save_request, add_member,
  write, created, claim_row,
}

abbrev pub find_request : ℕ → List AccessRequest → Option AccessRequest
find_request i [] = none
find_request i (x ∷ xs) = if x.id == i then some x else find_request i xs

abbrev is_accepted : Status → Bool
is_accepted accepted = true
is_accepted pending = false
is_accepted declined = false

-- Whether a table of pairs has a row.
abbrev has_row : ℕ → ℕ → List (ℕ × ℕ) → Bool
has_row org u rows = any (λ (o, v). o == org && v == u) rows

abbrev pub user_in : ℕ → Option ℕ → List (ℕ × ℕ) → Bool
user_in org none members = false
user_in org (some u) members = has_row org u members

-- An accepted request has a user, who is in the users group of the organization.
abbrev pub honoured : List (ℕ × ℕ) → AccessRequest → Bool
honoured members x = not (is_accepted x.status) || user_in x.organization x.user members

abbrev pub IsHonoured : Tables → Type 0
IsHonoured t = all (honoured t.org_users) t.requests ≡ true

has_row_more :
    (org u o v : ℕ) (rows : List (ℕ × ℕ))
    → has_row org u rows ≡ true
    → has_row org u ((o, v) ∷ rows) ≡ true
has_row_more org u o v rows h = ground arith

honoured_more :
    (o v : ℕ) (members : List (ℕ × ℕ)) (x : AccessRequest)
    → honoured members x ≡ true
    → honoured ((o, v) ∷ members) x ≡ true
honoured_more o v members x h = elim (Option-cases x.user) [
  | inl e ↦ ground arith
  | inr (u, e) ↦ ground arith
]

pub all-save_request :
    (p : AccessRequest → Bool) (r : AccessRequest) (xs : List AccessRequest)
    → p r ≡ true
    → all p xs ≡ true
    → all p (save_request r xs) ≡ true
unfolding save_request
all-save_request p r [] good h = refl
all-save_request p r (x ∷ xs) good h =
    let rest = all-save_request p r xs good (ground arith) in
    elim (Bool-cases (x.id == r.id)) [ inl e ↦ rw (e, good, rest) | inr e ↦ ground arith ]

-- the tables when the transaction of an acceptance commits
abbrev pub settled : AccessRequest → Option ℕ → Tables → Tables
settled r (some u) t = write (record r { status = accepted }) (add_member r.organization u t)
settled r none t = created r t

pending_not_accepted : (s : Status) → is_pending s ≡ true → is_accepted s ≡ false
pending_not_accepted pending h = refl
pending_not_accepted accepted h = cc
pending_not_accepted declined h = cc

honoured-claim_row :
    (members : List (ℕ × ℕ)) (e u : ℕ) (x : AccessRequest)
    → honoured members x ≡ true
    → honoured members (claim_row e u x) ≡ true
honoured-claim_row members e u x h =
    elim (Bool-cases (not (is_some x.user) && x.email == e && is_pending x.status)) [
      | inl b ↦ let waits = pending_not_accepted x.status (ground arith) in rw (b, waits)
      | inr b ↦ rw b h
    ]

pub settled-IsHonoured :
    (r : AccessRequest) (o : Option ℕ) (t : Tables)
    → r.user ≡ o
    → IsHonoured t
    → IsHonoured (settled r o t)
settled-IsHonoured r (some u) t e h =
    all-save_request _ _ _ (rw e (ground arith))
      (all-weaken _ _ (honoured_more r.organization u t.org_users) t.requests h)
settled-IsHonoured r none t e h =
    let members = (r.organization, t.next_user) ∷ t.org_users in
    let row = record r { user = some t.next_user; status = accepted } in
    all-map (honoured members) (claim_row r.email t.next_user)
      (honoured-claim_row members r.email t.next_user) (save_request row t.requests)
      (all-save_request (honoured members) row t.requests (ground arith)
        (all-weaken _ _ (honoured_more r.organization t.next_user t.org_users) t.requests h))
