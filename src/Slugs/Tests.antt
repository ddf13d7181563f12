-- ===== src/Slugs/Tests.antt =====
-- Slugs at concrete inputs. The slugify of the tests leaves a text alone.
use projects_backend.Base.{
  ◌==◌, if◌then◌else◌, ==_iff, Bool-cases, some-injective, none-ne-some, Text, same_text_eq,
  decimal, str, ℕ, ◌<◌, ◌≡◌, refl, sym, subst, ◌∙◌, ◌⊎◌, inl, inr, true, false, Option, some, List,
  [], ◌∷◌, arith,
}
use projects_backend.Slugs.{
  SlugClass, SlugRow, has_slug, found, project_class, get_slug, number_loop, prefix_loop, save,
  write_row, get_main_id, looked_up, given,
}
use projects_backend.Slugs.Rows.{find_slug_row}
use projects_backend.Slugs.Nonempty.{IsSlugClass}
use projects_backend.Slugs.Fresh.{get_slug_total}
use projects_backend.Slugs.Unique.{IsUnique, IsStored, save-IsUnique}
use projects_backend.Slugs.Resolve.{save_resolves}
use projects_backend.Slugs.Query.{
  by_slug, by_id, slug_or_id, slug_or_ids, slug_or_id_exact, slug_or_ids_outdated,
}

abbrev cls : SlugClass
cls = project_class (λ s. s)

cls-IsSlugClass : IsSlugClass cls
cls-IsSlugClass = record { prefixed = λ s h. ground arith; nonempty = refl }

-- "ab", once named "cd"; the new title is "ef"
abbrev ab : Text
ab = 97 ∷ 98 ∷ []

abbrev cd : Text
cd = 99 ∷ 100 ∷ []

abbrev ef : Text
ef = 101 ∷ 102 ∷ []

abbrev first : SlugRow
first = record { id = 1; slug = ab; outdated_slugs = cd ∷ []; values = ab ∷ []; deleted = false }

abbrev second : SlugRow
second = record { id = 2; slug = ef; outdated_slugs = []; values = ef ∷ []; deleted = true }

abbrev rows : List SlugRow
rows = first ∷ second ∷ []

-- the first row with the title of the second
abbrev retitled : SlugRow
retitled = record first { values = ef ∷ [] }

-- "ef-1"
abbrev ef_1 : Text
ef_1 = 101 ∷ 102 ∷ 45 ∷ 49 ∷ []

numbered_test : get_slug cls rows retitled 5 ≡ some ef_1
unfolding get_slug number_loop prefix_loop str decimal
numbered_test = refl

row_cases :
    (i : ℕ) (x : SlugRow)
    → find_slug_row i rows ≡ some x
    → ((1 ≡ i) × (first ≡ x)) ⊎ ((2 ≡ i) × (second ≡ x))
row_cases i x h = elim (Bool-cases (1 == i)) [
  | inl e ↦ inl ((==_iff 1 i).0 e, some-injective first x (rw e at h))
  | inr e ↦ elim (Bool-cases (2 == i)) [
    | inl e2 ↦ inr ((==_iff 2 i).0 e2, some-injective second x (rw (e, e2) at h))
    | inr e2 ↦ absurd (none-ne-some x (rw (e, e2) at h))
  ]
]

nothing_shared : (s : Text) → has_slug s first ≡ true → has_slug s second ≡ true → ⊥
nothing_shared s a b =
    let is_ef : ef ≡ s = same_text_eq ef s (ground arith) in
    let bad : has_slug ef first ≡ true = subst (λ z. has_slug z first ≡ true) (sym is_ef) a in cc

has_at : {x y : SlugRow} (s : Text) → x ≡ y → has_slug s y ≡ true → has_slug s x ≡ true
has_at s e h = subst (λ z. has_slug s z ≡ true) (sym e) h

rows-IsUnique : IsUnique rows
rows-IsUnique i j x y s at_i at_j has_i has_j = elim (row_cases i x at_i) [
  | inl (a, ax) ↦ elim (row_cases j y at_j) [
    | inl (b, by) ↦ sym a ∙ b
    | inr (b, by) ↦ absurd (nothing_shared s (has_at s ax has_i) (has_at s by has_j))
  ]
  | inr (a, ax) ↦ elim (row_cases j y at_j) [
    | inr (b, by) ↦ sym a ∙ b
    | inl (b, by) ↦ absurd (nothing_shared s (has_at s by has_j) (has_at s ax has_i))
  ]
]

abbrev stored : IsStored retitled rows
stored = inl (first, refl, refl, refl)

abbrev written : SlugRow
written = record retitled { slug = ef_1; outdated_slugs = cd ∷ ab ∷ [] }

saved_test :
    ◌≡◌ {A = Option (SlugRow × List SlugRow)}
      (save cls (ab ∷ []) retitled rows 5)
      (some (written, written ∷ second ∷ []))
unfolding save get_slug number_loop prefix_loop str decimal write_row
saved_test = refl

save-IsUnique_example : IsUnique (written ∷ second ∷ [])
save-IsUnique_example =
    save-IsUnique cls (ab ∷ []) retitled written rows (written ∷ second ∷ []) 5 cls-IsSlugClass
      rows-IsUnique stored saved_test

save_resolves_example :
    get_main_id cls (written ∷ second ∷ []) ab
    ≡ (if cls.names_slug ab then looked_up (found written) else given ab)
save_resolves_example =
    save_resolves cls (ab ∷ []) retitled written rows (written ∷ second ∷ []) 5 ab cls-IsSlugClass
      (refl, (refl, tt)) rows-IsUnique stored refl saved_test refl

-- a text of 8 characters is an identifier, even if it was a slug
eight_test :
    get_main_id cls
      ((record written { slug = 97 ∷ 97 ∷ 97 ∷ 97 ∷ 97 ∷ 97 ∷ 97 ∷ 97 ∷ [] }) ∷ [])
      (97 ∷ 97 ∷ 97 ∷ 97 ∷ 97 ∷ 97 ∷ 97 ∷ 97 ∷ [])
    ≡ given (97 ∷ 97 ∷ 97 ∷ 97 ∷ 97 ∷ 97 ∷ 97 ∷ 97 ∷ [])
unfolding get_main_id
eight_test = refl

get_slug_total_example :
    (k : ℕ) × ((self : SlugRow) (fuel : ℕ)
      → k < fuel
      → (s : Text) × (get_slug cls rows self fuel ≡ some s))
get_slug_total_example = get_slug_total cls rows cls-IsSlugClass

slug_or_id_test :
    (slug_or_id (by_slug cd) rows ≡ first ∷ []) × (slug_or_id (by_id 2) rows ≡ second ∷ [])
slug_or_id_test = slug_or_id_exact rows cd 2

slug_or_ids_outdated_test : slug_or_ids (by_slug cd ∷ by_slug ef ∷ []) rows ≡ second ∷ []
slug_or_ids_outdated_test = slug_or_ids_outdated rows cd ef
