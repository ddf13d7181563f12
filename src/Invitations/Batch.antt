-- ===== src/Invitations/Batch.antt =====
-- The bulk actions `accept` and `decline` of apps/invitations/views.py.
use projects_backend.Base.{
  ◌==◌, if◌then◌else◌, ==_iff, Bool-cases, mem, ℕ, ◌+◌, ◌≡◌, refl, sym, ap, subst, ◌∙◌, inl, inr,
  true, false, Option, some, List, [], ◌∷◌, ◌++◌, map, arith,
}
use projects_backend.Invitations.{
  Status, declined, AccessRequest, Tables, Outcome, Report, success, warning, error, is_pending,
  write, perform_accept, perform_decline, decline, Results, file_report, no_results, process_each,
  accept_all, decline_all,
}
use projects_backend.Invitations.Honoured.{
  find_request, IsHonoured, honoured, all-save_request, settled,
}
use projects_backend.Invitations.Processing.{
  atomic-cases, perform_accept-cases, perform_accept-IsHonoured,
}
use projects_backend.Invitations.Kept.{status_of, settled-status, settled-keeps}

declined_row-IsHonoured :
    (code : ℕ) (r : AccessRequest) (o : Outcome) (t : Tables)
    → IsHonoured t
    → IsHonoured (perform_decline code r o t).1
unfolding perform_decline decline
declined_row-IsHonoured code r o t h = elim (Bool-cases (r.organization == code)) [
  | inr e ↦ rw e h
  | inl e ↦ elim (Bool-cases (is_pending r.status)) [
    | inr e2 ↦ rw (e, e2) h
    | inl e2 ↦ elim (atomic-cases o.mail t (write (record r { status = declined }) t)) [
      | inl (same, _) ↦ rw (e, e2) (subst IsHonoured (sym same) h)
      | inr done ↦
          rw (e, e2)
            (subst IsHonoured (sym (ap (λ p. p.1) done)) (
              all-save_request (honoured t.org_users) (record r { status = declined }) t.requests
                refl h))
    ]
  ]
]

module _ (perform : ℕ → AccessRequest → Outcome → Tables → Report × Tables) where
  -- What one step keeps, the loop keeps.
  process_each-keeps :
      (P : Tables → Type 0) (code : ℕ)
      → ((r : AccessRequest) (o : Outcome) (t : Tables) → P t → P (perform code r o t).1)
      → (batch : List (AccessRequest × Outcome)) (rs : Results) (t : Tables) → P t
      → P (process_each perform code batch rs t).1
  unfolding process_each
  process_each-keeps P code step [] rs t h = h
  process_each-keeps P code step ((r, o) ∷ rest) rs t h =
      process_each-keeps P code step rest _ _ (step r o t h)

abbrev pub reported_ids : Results → List ℕ
reported_ids rs = rs.successes ++ (rs.errors ++ rs.warnings)

abbrev pub count : ℕ → List ℕ → ℕ
count i [] = 0
count i (x ∷ xs) = (if x == i then 1 else 0) + count i xs

abbrev batch_ids : List (AccessRequest × Outcome) → List ℕ
batch_ids = map (λ (r, o). r.id)

count-append : (i : ℕ) (xs ys : List ℕ) → count i (xs ++ ys) ≡ count i xs + count i ys
count-append i [] ys = omega arith
count-append i (x ∷ xs) ys = omega (arith, count-append i xs ys)

count-reported_ids :
    (i : ℕ) (rs : Results)
    → count i (reported_ids rs) ≡ count i rs.successes + (count i rs.errors + count i rs.warnings)
count-reported_ids i rs =
    count-append i rs.successes (rs.errors ++ rs.warnings)
    ∙ ap (λ n. count i rs.successes + n) (count-append i rs.errors rs.warnings)

count-file_report :
    (i j : ℕ) (report : Report) (rs : Results)
    → count i (reported_ids (file_report j report rs))
      ≡ count i (reported_ids rs) + count i (j ∷ [])
count-file_report i j success rs = omega (
  arith,
  count-reported_ids i rs,
  count-reported_ids i (file_report j success rs),
  count-append i rs.successes (j ∷ []),
)
count-file_report i j error rs = omega (
  arith,
  count-reported_ids i rs,
  count-reported_ids i (file_report j error rs),
  count-append i rs.errors (j ∷ []),
)
count-file_report i j warning rs = omega (
  arith,
  count-reported_ids i rs,
  count-reported_ids i (file_report j warning rs),
  count-append i rs.warnings (j ∷ []),
)

process_each-count :
    (perform : ℕ → AccessRequest → Outcome → Tables → Report × Tables) (code i : ℕ)
    (batch : List (AccessRequest × Outcome)) (rs : Results) (t : Tables)
    → count i (reported_ids (process_each perform code batch rs t).0)
      ≡ count i (reported_ids rs) + count i (batch_ids batch)
unfolding process_each
process_each-count perform code i [] rs t = omega arith
process_each-count perform code i ((r, o) ∷ rest) rs t = omega (
  arith,
  process_each-count perform code i rest (file_report r.id (perform code r o t).0 rs)
      (perform code r o t).1,
  count-file_report i r.id (perform code r o t).0 rs,
)

-- A bulk action answers for each request exactly once, under success, error or warning, as often as
-- it was sent.
pub bulk_reports_each :
    (code i : ℕ) (batch : List (AccessRequest × Outcome)) (t : Tables)
    → (count i (reported_ids (accept_all code batch t).0) ≡ count i (batch_ids batch))
      × (count i (reported_ids (decline_all code batch t).0) ≡ count i (batch_ids batch))
unfolding accept_all decline_all
bulk_reports_each code i batch t = (
  process_each-count perform_accept code i batch no_results t ∙ omega arith,
  process_each-count perform_decline code i batch no_results t ∙ omega arith,
)

-- The bulk actions keep every accepted request honoured: it has a user, who is in the users group of
-- its organization. So whatever the outside calls raise, on any batch.
pub bulk-IsHonoured :
    (code : ℕ) (batch : List (AccessRequest × Outcome)) (t : Tables)
    → IsHonoured t
    → IsHonoured (accept_all code batch t).1 × IsHonoured (decline_all code batch t).1
unfolding accept_all decline_all
bulk-IsHonoured code batch t h = (
  process_each-keeps perform_accept IsHonoured code (perform_accept-IsHonoured code) batch
      no_results t h,
  process_each-keeps perform_decline IsHonoured code (declined_row-IsHonoured code) batch no_results
      t h,
)

-- What the view holds of the requests has the status of their rows.
abbrev IsFresh : List (AccessRequest × Outcome) → Tables → Type 0
IsFresh [] t = Unit
IsFresh ((r, o) ∷ rest) t =
    (status_of (find_request r.id t.requests) ≡ some r.status) × IsFresh rest t

abbrev IsDistinct : List ℕ → Type 0
IsDistinct [] = Unit
IsDistinct (i ∷ is) = (mem i is ≡ false) × IsDistinct is

IsFresh-settled :
    (r : AccessRequest) (ou : Option ℕ) (rest : List (AccessRequest × Outcome)) (t : Tables)
    → mem r.id (batch_ids rest) ≡ false
    → IsFresh rest t
    → IsFresh rest (settled r ou t)
IsFresh-settled r ou [] t apart fresh = tt
IsFresh-settled r ou ((s, o) ∷ rest) t apart (first, fresh) = (
  settled-status r ou t s.id (ground arith) ∙ first,
  IsFresh-settled r ou rest t (ground arith) fresh,
)

pending_or_not :
    (s s' : Status) → some s ≡ some s' → is_pending s ≡ false → is_pending s' ≡ true → ⊥
pending_or_not s s' e h h' = cc

-- A processed row is not the row of a pending request.
other_row :
    (j i : ℕ) (s : Status) (x : AccessRequest) (rows : List AccessRequest)
    → status_of (find_request j rows) ≡ some s
    → find_request i rows ≡ some x
    → is_pending s ≡ true
    → is_pending x.status ≡ false
    → (j == i) ≡ false
other_row j i s x rows first there waits done = elim (Bool-cases (j == i)) [
  | inr e ↦ e
  | inl e ↦ absurd (
      pending_or_not x.status s
        (sym (ap status_of there)
          ∙ ap (λ k. status_of (find_request k rows)) (sym ((==_iff j i).0 e))
          ∙ first)
        done waits)
]

process_each-processed :
    (code : ℕ) (batch : List (AccessRequest × Outcome)) (rs : Results) (t : Tables) (i : ℕ)
    (x : AccessRequest)
    → IsDistinct (batch_ids batch)
    → IsFresh batch t
    → find_request i t.requests ≡ some x
    → is_pending x.status ≡ false
    → find_request i (process_each perform_accept code batch rs t).1.requests ≡ some x
unfolding process_each
process_each-processed code [] rs t i x distinct fresh there done = there
process_each-processed code ((r, o) ∷ rest) rs t i x (apart, distinct) (first, fresh) there done =
    elim (perform_accept-cases code r o t) [
      | inl (same, _) ↦
          process_each-processed code rest (file_report r.id (perform_accept code r o t).0 rs) _ i x
            distinct (subst (IsFresh rest) (sym same) fresh)
            (ap (λ (t' : Tables). find_request i t'.requests) same ∙ there) done
      | inr (_, waits, _, step) ↦
          let ne = other_row r.id i r.status x t.requests first there waits done in
          let same : (perform_accept code r o t).1 ≡ settled r r.user t = ap (λ p. p.1) step in
          process_each-processed code rest (file_report r.id (perform_accept code r o t).0 rs) _ i x
            distinct (subst (IsFresh rest) (sym same) (IsFresh-settled r r.user rest t apart fresh))
            (ap (λ (t' : Tables). find_request i t'.requests) same
              ∙ settled-keeps r r.user t i x ne there done)
            done
    ]

-- A bulk acceptance of distinct requests, whose status was read from the tables, leaves every request
-- that was accepted or declined before exactly as it is.
pub accept_all_keeps_processed :
    (code : ℕ) (batch : List (AccessRequest × Outcome)) (t : Tables) (i : ℕ) (x : AccessRequest)
    → IsDistinct (batch_ids batch)
    → IsFresh batch t
    → find_request i t.requests ≡ some x
    → is_pending x.status ≡ false
    → find_request i (accept_all code batch t).1.requests ≡ some x
unfolding accept_all
accept_all_keeps_processed code batch = process_each-processed code batch no_results
