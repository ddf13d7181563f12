-- ===== src/Slugs/Rows.antt =====
-- The table of slugs: lookup by identifier, and what the slug test of a row and of the table say.
use projects_backend.Base.{
  ◌==◌, if◌then◌else◌, Bool-cases, some-injective, Text, ℕ, ◌≡◌, refl, sym, subst, inl, inr, true,
  Option, none, some, List, [], ◌∷◌, arith,
}
use projects_backend.Slugs.{SlugRow, has_slug, slug_exists, write_row}

abbrev pub find_slug_row : ℕ → List SlugRow → Option SlugRow
find_slug_row i [] = none
find_slug_row i (x ∷ xs) = if x.id == i then some x else find_slug_row i xs

pub find-write_row :
    (i : ℕ) (r : SlugRow) (rows : List SlugRow)
    → find_slug_row i (write_row r rows) ≡ (if r.id == i then some r else find_slug_row i rows)
unfolding write_row
find-write_row i r [] = refl
find-write_row i r (x ∷ xs) = elim (Bool-cases (x.id == r.id)) [
  | inl e ↦ rw e (ground arith)
  | inr e ↦ rw e (ground (arith, find-write_row i r xs))
]

-- A slug of a row is a slug of the table.
pub slug_exists-row :
    (i : ℕ) (s : Text) (x : SlugRow) (rows : List SlugRow)
    → find_slug_row i rows ≡ some x
    → has_slug s x ≡ true
    → slug_exists rows s ≡ true
slug_exists-row i s x [] there h = cc
slug_exists-row i s x (y ∷ ys) there h = elim (Bool-cases (y.id == i)) [
  | inl e ↦
      let has : has_slug s y ≡ true =
        subst (λ z. has_slug s z ≡ true) (sym (some-injective y x (rw e at there))) h in
      ground arith
  | inr e ↦ ground (arith, slug_exists-row i s x ys (rw e at there) h)
]
