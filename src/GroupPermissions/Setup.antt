-- ===== src/GroupPermissions/Setup.antt =====
-- `setup_group_object_permissions` of apps/commons/mixins.py gives a group exactly its permissions.
use projects_backend.Base.{
  ◌==◌, if◌then◌else◌, Bool-cases, mem, any, all, filter, mem-filter, ℕ, ◌≡◌, refl, sym, subst, ◌∙◌,
  inl, inr, Bool, true, not, ◌&&◌, ◌||◌, List, [], ◌∷◌, ◌++◌, arith,
}
use projects_backend.GroupPermissions.{
  PermissionRow, is_row, has_row, assign_perm, remove_perm, assign_each, remove_each,
  current_permissions, difference, setup_group_object_permissions,
}

any-append-one :
    (p : PermissionRow → Bool) (xs : List PermissionRow) (y : PermissionRow)
    → any p (xs ++ y ∷ []) ≡ (any p xs || p y)
any-append-one p [] y = ground arith
any-append-one p (x ∷ xs) y = ground (arith, any-append-one p xs y)

-- whether two rows are the same
abbrev same_row : ℕ → ℕ → ℕ → ℕ → ℕ → ℕ → Bool
same_row g p o g' p' o' = g == g' && p == p' && o == o'

same_row_has :
    (g p o g' p' o' : ℕ) (rows : List PermissionRow)
    → same_row g p o g' p' o' ≡ true
    → has_row g p o rows ≡ true
    → has_row g' p' o' rows ≡ true
same_row_has g p o g' p' o' rows e h =
    let eg : g ≡ g' = ground arith in
    let ep : p ≡ p' = ground arith in
    let eo : o ≡ o' = ground arith in
    subst (λ x. has_row x p' o' rows ≡ true) eg
      (subst (λ x. has_row g x o' rows ≡ true) ep (subst (λ x. has_row g p x rows ≡ true) eo h))

has_row-assign_perm :
    (p g o g' p' o' : ℕ) (rows : List PermissionRow)
    → has_row g' p' o' (assign_perm p g o rows) ≡ (has_row g' p' o' rows || same_row g p o g' p' o')
unfolding assign_perm
has_row-assign_perm p g o g' p' o' rows = elim (Bool-cases (has_row g p o rows)) [
  | inr e ↦
      rw e
        (any-append-one (is_row g' p' o') rows (record { group = g; permission = p; object = o }))
  | inl e ↦ elim (Bool-cases (same_row g p o g' p' o')) [
    | inl same ↦ let there = same_row_has g p o g' p' o' rows same e in rw (e, there) refl
    | inr other ↦ rw (e, other) (ground arith)
  ]
]

pub any-filter :
    (p q : PermissionRow → Bool) (rows : List PermissionRow)
    → any p (filter q rows) ≡ any (λ r. p r && q r) rows
any-filter p q [] = refl
any-filter p q (r ∷ rows) = elim (Bool-cases (q r)) [
  | inl e ↦ rw e (ground (arith, any-filter p q rows))
  | inr e ↦ rw e (ground (arith, any-filter p q rows))
]

has_row-remove_perm :
    (p g o g' p' o' : ℕ) (rows : List PermissionRow)
    → has_row g' p' o' (remove_perm p g o rows)
      ≡ (has_row g' p' o' rows && not (same_row g p o g' p' o'))
unfolding remove_perm
has_row-remove_perm p g o g' p' o' rows =
    any-filter (is_row g' p' o') (λ r. not (is_row g p o r)) rows ∙ kept rows
  where
    kept :
        (rs : List PermissionRow)
        → any (λ r. is_row g' p' o' r && not (is_row g p o r)) rs
          ≡ (any (is_row g' p' o') rs && not (same_row g p o g' p' o'))
    kept [] = refl
    kept (r ∷ rs) = ground (arith, kept rs)

abbrev pub same_place : ℕ → ℕ → ℕ → ℕ → Bool
same_place g o g' o' = g == g' && o == o'

pub has_row-assign_each :
    (ps : List ℕ) (g o g' p' o' : ℕ) (rows : List PermissionRow)
    → has_row g' p' o' (assign_each ps g o rows)
      ≡ (has_row g' p' o' rows || (same_place g o g' o' && mem p' ps))
unfolding assign_each
has_row-assign_each [] g o g' p' o' rows = ground arith
has_row-assign_each (p ∷ ps) g o g' p' o' rows = ground (
  arith,
  has_row-assign_each ps g o g' p' o' (assign_perm p g o rows),
  has_row-assign_perm p g o g' p' o' rows,
)

has_row-remove_each :
    (ps : List ℕ) (g o g' p' o' : ℕ) (rows : List PermissionRow)
    → has_row g' p' o' (remove_each ps g o rows)
      ≡ (has_row g' p' o' rows && not (same_place g o g' o' && mem p' ps))
unfolding remove_each
has_row-remove_each [] g o g' p' o' rows = ground arith
has_row-remove_each (p ∷ ps) g o g' p' o' rows = ground (
  arith,
  has_row-remove_each ps g o g' p' o' (remove_perm p g o rows),
  has_row-remove_perm p g o g' p' o' rows,
)

-- The rows of a group are all for one object.
abbrev pub is_for : ℕ → ℕ → PermissionRow → Bool
is_for g o r = not (r.group == g) || r.object == o

mem-current_permissions :
    (g o p : ℕ) (rows : List PermissionRow)
    → all (is_for g o) rows ≡ true
    → mem p (current_permissions g rows) ≡ has_row g p o rows
mem-current_permissions g o p [] own = refl
mem-current_permissions g o p (r ∷ rows) own = elim (Bool-cases (r.group == g)) [
  | inl e ↦ rw e (ground (arith, mem-current_permissions g o p rows))
  | inr e ↦ rw e (ground (arith, mem-current_permissions g o p rows))
]

-- On a group all of whose rows are for the instance: after `setup_group_object_permissions` the group
-- has exactly the given permissions on the instance, and no other row has changed.
pub setup_group_object_permissions_exact :
    (g o : ℕ) (permissions : List ℕ) (rows : List PermissionRow)
    → all (is_for g o) rows ≡ true
    → (g' p' o' : ℕ)
    → has_row g' p' o' (setup_group_object_permissions g o permissions rows)
      ≡ (if same_place g o g' o' then mem p' permissions else has_row g' p' o' rows)
unfolding setup_group_object_permissions
setup_group_object_permissions_exact g o permissions rows own g' p' o' =
    let current = current_permissions g rows in
    has_row-remove_each (difference current permissions) g o g' p' o'
      (assign_each (difference permissions current) g o rows)
    ∙ rw
        (
          has_row-assign_each (difference permissions current) g o g' p' o' rows,
          mem-filter (λ p. not (mem p current)) p' permissions,
          mem-filter (λ p. not (mem p permissions)) p' current,
        )
        (elim (Bool-cases (same_place g o g' o')) [
          | inr e ↦ rw e (ground arith)
          | inl e ↦
              let eg : g ≡ g' = ground arith in
              let eo : o ≡ o' = ground arith in
              let here : has_row g' p' o' rows ≡ mem p' current =
                subst (λ x. has_row x p' o' rows ≡ mem p' current) eg
                  (subst (λ x. has_row g p' x rows ≡ mem p' current) eo
                    (sym (mem-current_permissions g o p' rows own))) in
              rw (e, here) (ground arith)
        ])
