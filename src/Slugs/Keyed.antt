-- ===== src/Slugs/Keyed.antt =====
-- Tables of slug rows without two rows of one identifier: what a test picks out of them.
use projects_backend.Base.{
  ◌==◌, ==_iff, Bool-cases, some-injective, none-ne-some, filter, ℕ, ◌≡◌, refl, sym, ap, subst, ◌∙◌,
  inl, inr, Bool, true, false, not, ◌&&◌, none, some, List, [], ◌∷◌, arith,
}
use projects_backend.Slugs.{SlugRow, found, not_found, the_only, visible, get_object, write_row}
use projects_backend.Slugs.Rows.{find_slug_row, find-write_row}

-- No two rows have the same identifier.
abbrev pub IsKeyed : List SlugRow → Type 0
IsKeyed [] = Unit
IsKeyed (x ∷ xs) = (find_slug_row x.id xs ≡ none) × IsKeyed xs

pub write_row-IsKeyed :
    (r : SlugRow) (rows : List SlugRow) → IsKeyed rows → IsKeyed (write_row r rows)
unfolding write_row
write_row-IsKeyed r [] keyed = (refl, tt)
write_row-IsKeyed r (x ∷ xs) (fresh, keyed) = elim (Bool-cases (x.id == r.id)) [
  | inl e ↦ rw e (subst (λ i. find_slug_row i xs ≡ none) ((==_iff x.id r.id).0 e) fresh, keyed)
  | inr e ↦ rw e (find-write_row x.id r xs ∙ ground arith, write_row-IsKeyed r xs keyed)
]

-- what is found in the rest is found in the whole
find-tail :
    (x : SlugRow) (xs : List SlugRow) (j : ℕ) (y : SlugRow)
    → find_slug_row x.id xs ≡ none
    → find_slug_row j xs ≡ some y
    → find_slug_row j (x ∷ xs) ≡ some y
find-tail x xs j y fresh there = elim (Bool-cases (x.id == j)) [
  | inl e ↦ absurd (
      none-ne-some y
        (sym (subst (λ i. find_slug_row i xs ≡ none) ((==_iff x.id j).0 e) fresh) ∙ there))
  | inr e ↦ rw e there
]

find-head : (x : SlugRow) (xs : List SlugRow) → find_slug_row x.id (x ∷ xs) ≡ some x
find-head x xs = rw ((==_iff x.id x.id).1 refl) refl

apart : (a b : ℕ) → (a == b) ≡ false → a ≡ b → ⊥
apart a b e same = ground arith

module _ (keep : SlugRow → Bool) where
  filter-none :
      (rows : List SlugRow)
      → IsKeyed rows
      → ((j : ℕ) (y : SlugRow) → find_slug_row j rows ≡ some y → keep y ≡ false)
      → filter keep rows ≡ []
  filter-none [] keyed drop = refl
  filter-none (x ∷ xs) (fresh, keyed) drop =
      rw (drop x.id x (find-head x xs))
        (filter-none xs keyed (λ j y there. drop j y (find-tail x xs j y fresh there)))

  drop_rest :
      (y : SlugRow) (ys : List SlugRow) (i : ℕ)
      → find_slug_row y.id ys ≡ none
      → (y.id == i) ≡ true
      → ((j : ℕ) (z : SlugRow) → find_slug_row j (y ∷ ys) ≡ some z → keep z ≡ true → j ≡ i)
      → (j : ℕ) (z : SlugRow) → find_slug_row j ys ≡ some z
      → keep z ≡ false
  drop_rest y ys i fresh e only j z at = elim (Bool-cases (keep z)) [
    | inr drop ↦ drop
    | inl also ↦
        let same : j ≡ y.id =
          only j z (find-tail y ys j z fresh at) also ∙ sym ((==_iff y.id i).0 e) in
        absurd (none-ne-some z (sym (subst (λ k. find_slug_row k ys ≡ none) (sym same) fresh) ∙ at))
  ]

  filter-one :
      (rows : List SlugRow) (i : ℕ) (x : SlugRow)
      → IsKeyed rows
      → find_slug_row i rows ≡ some x
      → keep x ≡ true
      → ((j : ℕ) (y : SlugRow) → find_slug_row j rows ≡ some y → keep y ≡ true → j ≡ i)
      → filter keep rows ≡ x ∷ []
  filter-one [] i x keyed there kept only = absurd (none-ne-some x there)
  filter-one (y ∷ ys) i x (fresh, keyed) there kept only = elim (Bool-cases (y.id == i)) [
    | inl e ↦
        let same : y ≡ x = some-injective y x (rw e at there) in
        let keep_y : keep y ≡ true = subst (λ z. keep z ≡ true) (sym same) kept in
        rw (keep_y, filter-none ys keyed (drop_rest y ys i fresh e only)) (ap (λ z. z ∷ []) same)
    | inr e ↦ elim (Bool-cases (keep y)) [
      | inl also ↦ absurd (apart y.id i e (only y.id y (find-head y ys) also))
      | inr drop ↦ rw drop (
          filter-one ys i x keyed (rw e at there) kept
            (λ j z at. only j z (find-tail y ys j z fresh at)))
    ]
  ]

filter-visible :
    (test : SlugRow → Bool) (rows : List SlugRow)
    → filter test (visible rows) ≡ filter (λ r. not r.deleted && test r) rows
filter-visible test [] = refl
filter-visible test (x ∷ xs) = elim (Bool-cases x.deleted) [
  | inl e ↦ rw e (filter-visible test xs)
  | inr e ↦ rw e (ground (arith, filter-visible test xs))
]

pub get_object-one :
    (test : SlugRow → Bool) (rows : List SlugRow) (i : ℕ) (x : SlugRow)
    → IsKeyed rows
    → find_slug_row i rows ≡ some x
    → (not x.deleted && test x) ≡ true
    → ((j : ℕ) (y : SlugRow) → find_slug_row j rows ≡ some y → test y ≡ true → j ≡ i)
    → get_object test rows ≡ found x
get_object-one test rows i x keyed there kept only = ap the_only (
    filter-visible test rows
    ∙ filter-one (λ r. not r.deleted && test r) rows i x keyed there kept
        (λ j y at both. only j y at (ground arith)))

pub get_object-none :
    (test : SlugRow → Bool) (rows : List SlugRow)
    → IsKeyed rows
    → ((j : ℕ) (y : SlugRow) → find_slug_row j rows ≡ some y → test y ≡ false)
    → get_object test rows ≡ not_found
get_object-none test rows keyed drop = ap the_only (
    filter-visible test rows
    ∙ filter-none (λ r. not r.deleted && test r) rows keyed
        (λ j y at. let no = drop j y at in ground arith))
