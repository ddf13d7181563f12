-- ===== src/Google/Sync/Rows.antt =====
-- services/google/models.py: who is found among the rows of the queries of `sync_members`.
use projects_backend.Base.{
  ◌==◌, ==_iff, Bool-cases, any, filter, filter-append, any-append, ℕ, ◌≡◌, refl, sym, ap, subst,
  ◌∙◌, ◌⊎◌, inl, inr, Bool, true, ◌&&◌, List, [], ◌∷◌, map, arith,
}
use projects_backend.Google.Sync.{Linked, PermissionGroup, joined, member_of}
use projects_backend.Google.Sync.{Membership, same_membership, has}
use mathlib.Core.List.{map-append}

-- `x` is one of the rows.
abbrev pub IsIn : Linked → List Linked → Type 0
IsIn x [] = ⊥
IsIn x (y ∷ ys) = (y ≡ x) ⊎ IsIn x ys

-- No two accounts have the same identifier in Google.
abbrev pub IsDistinct : List Linked → Type 0
IsDistinct xs = (x y : Linked) → IsIn x xs → IsIn y xs → x.google_id ≡ y.google_id → x ≡ y

module _ (g : ℕ) (p : Linked → Bool) where
  in-has :
      (a : Linked) (xs : List Linked)
      → IsIn a xs
      → p a ≡ true
      → has (member_of g a) (map (member_of g) (filter p xs)) ≡ true
  in-has a [] i h = absurd i
  in-has a (x ∷ xs) (inl e) h =
      let first : p x ≡ true = subst (λ z. p z ≡ true) (sym e) h in
      let same : same_membership (member_of g a) (member_of g x) ≡ true =
        subst (λ z. same_membership (member_of g a) (member_of g z) ≡ true) (sym e)
          (ground arith) in
      rw first (rw same)
  in-has a (x ∷ xs) (inr later) h = elim (Bool-cases (p x)) [
    | inl e ↦ rw e (ground (arith, in-has a xs later h))
    | inr e ↦ rw e (in-has a xs later h)
  ]

  -- Who is found among the memberships is one of the accounts that pass the test.
  has-IsIn :
      (a : Linked) (xs : List Linked)
      → has (member_of g a) (map (member_of g) (filter p xs)) ≡ true
      → (x : Linked) × IsIn x xs × (p x ≡ true) × (a.google_id ≡ x.google_id)
  has-IsIn a [] h = cc
  has-IsIn a (x ∷ xs) h = elim (Bool-cases (p x)) [
    | inr e ↦ let (y, i, q, s) = has-IsIn a xs (rw e at h) in (y, inr i, q, s)
    | inl e ↦ elim (Bool-cases (a.google_id == x.google_id)) [
      | inl same ↦ (x, inl refl, e, (==_iff a.google_id x.google_id).0 same)
      | inr other ↦ let (y, i, q, s) = has-IsIn a xs (ground arith) in (y, inr i, q, s)
    ]
  ]

  -- Among distinct accounts an account is found exactly if it passes the test.
  pub has_filtered :
      (a : Linked) (xs : List Linked)
      → IsDistinct xs
      → IsIn a xs
      → has (member_of g a) (map (member_of g) (filter p xs)) ≡ p a
  has_filtered a xs d i = elim (Bool-cases (p a)) [
    | inl e ↦ in-has a xs i e ∙ sym e
    | inr e ↦ elim (Bool-cases (has (member_of g a) (map (member_of g) (filter p xs)))) [
      | inr none_found ↦ none_found ∙ sym e
      | inl found ↦
          let (x, j, q, s) = has-IsIn a xs found in
          let same : a ≡ x = d a x i j s in
          let q' : p a ≡ true = subst (λ z. p z ≡ true) (sym same) q in cc
    ]
  ]

-- Who is found among the rows of a join is found without it, among those with some row.
module _ (g : ℕ) (test : Linked → PermissionGroup → Bool) (p : Linked → Bool) (n : Membership) where
  has_copies :
      (x : Linked) (qs : List PermissionGroup)
      → has n (map (member_of g) (filter p (map (λ q. x) (filter (test x) qs))))
        ≡ (any (test x) qs && p x && same_membership n (member_of g x))
  has_copies x [] = refl
  has_copies x (q ∷ qs) = elim (Bool-cases (test x q)) [
    | inr e ↦ rw e (has_copies x qs)
    | inl e ↦ elim (Bool-cases (p x)) [
      | inl f ↦ rw (e, f) (ground (arith, has_copies x qs, f))
      | inr f ↦ rw (e, f) (has_copies x qs ∙ rw f (ground arith))
    ]
  ]

  pub has-joined :
      (qs : List PermissionGroup) (xs : List Linked)
      → has n (map (member_of g) (filter p (joined test qs xs)))
        ≡ has n (map (member_of g) (filter (λ x. any (test x) qs && p x) xs))
  has-joined qs [] = refl
  has-joined qs (x ∷ xs) =
      ap (λ z. has n (map (member_of g) z))
        (filter-append p (map (λ q. x) (filter (test x) qs)) (joined test qs xs))
      ∙ ap (has n) (
          map-append (member_of g) (filter p (map (λ q. x) (filter (test x) qs)))
            (filter p (joined test qs xs)))
      ∙ any-append (same_membership n)
          (map (member_of g) (filter p (map (λ q. x) (filter (test x) qs))))
          (map (member_of g) (filter p (joined test qs xs)))
      ∙ rw (has_copies x qs, has-joined qs xs)
          (elim (Bool-cases (any (test x) qs && p x)) [
            | inl e ↦ rw e (ground arith)
            | inr e ↦ rw e (ground arith)
          ])
