-- ===== src/Slugs/Resolve.antt =====
-- `get_main_id` of apps/commons/mixins.py: every slug that a row has or had leads to it.
use projects_backend.Base.{
  if◌then◌else◌, ==_iff, Bool-cases, Option-cases, some-injective, none-ne-some, Text, same_text,
  same_text_eq, mem_text, ℕ, ◌≡◌, refl, sym, ap, subst, ◌∙◌, inl, inr, true, false, not, ◌&&◌, ◌||◌,
  Option, some, List, [], ◌∷◌, arith,
}
use projects_backend.Slugs.{
  SlugClass, SlugRow, found, has_slug, is_empty, find_by_slug, looked_up, given, get_main_id,
  renamed, write_row, save, get_slug, same_values,
}
use projects_backend.Slugs.Rows.{find_slug_row, find-write_row}
use projects_backend.Slugs.Nonempty.{IsSlugClass}
use projects_backend.Slugs.Fresh.{mem_text-append, same_text_sym}
use projects_backend.Slugs.Unique.{IsUnique, IsStored, had_slug, save-IsUnique}
use projects_backend.Slugs.Keyed.{IsKeyed, write_row-IsKeyed, get_object-one, get_object-none}

other_slug :
    (rows : List SlugRow) (i : ℕ) (x : SlugRow) (s : Text)
    → IsUnique rows
    → find_slug_row i rows ≡ some x
    → has_slug s x ≡ true
    → same_text x.slug s ≡ false
    → (j : ℕ) (y : SlugRow) → find_slug_row j rows ≡ some y
    → same_text y.slug s ≡ false
other_slug rows i x s unique there has other j y at = elim (Bool-cases (same_text y.slug s)) [
  | inr e ↦ e
  | inl e ↦
      let place : i ≡ j = unique i j x y s there at has (ground arith) in
      let same : x ≡ y =
        some-injective x y (sym there ∙ ap (λ k. find_slug_row k rows) place ∙ at) in
      subst (λ z. same_text z.slug s ≡ false) same other
]

-- On a table whose slugs are apart, each slug that a visible row has or had leads to that row.
find_by_slug-has_slug :
    (rows : List SlugRow) (i : ℕ) (x : SlugRow) (s : Text)
    → IsKeyed rows
    → IsUnique rows
    → find_slug_row i rows ≡ some x
    → x.deleted ≡ false
    → has_slug s x ≡ true
    → find_by_slug rows s ≡ found x
find_by_slug-has_slug rows i x s keyed unique there shown has =
    elim (Bool-cases (same_text x.slug s)) [
      | inl current ↦
          rw
            (get_object-one (λ r. same_text r.slug s) rows i x keyed there
              (rw (shown, current) refl) (λ j y at h. unique j i y x s at there (ground arith) has))
            refl
      | inr other ↦
          let old : mem_text s x.outdated_slugs ≡ true = ground arith in
          rw
            (
              get_object-none (λ r. same_text r.slug s) rows keyed
                  (other_slug rows i x s unique there has other),
              get_object-one (λ r. mem_text s r.outdated_slugs) rows i x keyed there
                  (rw (shown, old) refl) (λ j y at h. unique j i y x s at there (ground arith) has),
            )
            refl
    ]

renamed-has_slug :
    (s new_slug : Text) (self : SlugRow)
    → had_slug s self ≡ true
    → has_slug s (renamed self new_slug) ≡ true
renamed-has_slug s new_slug self had =
    elim (Bool-cases (
      not (is_empty self.slug)
      && not (same_text new_slug self.slug)
      && not (mem_text self.slug self.outdated_slugs))) [
        | inl moved ↦ ground (
          arith,
          mem_text-append s self.outdated_slugs (self.slug ∷ []),
          same_text_sym s self.slug,
        )
        | inr kept ↦ elim (Bool-cases (mem_text s self.outdated_slugs)) [
          | inl e ↦ rw kept (ground arith)
          | inr e ↦
              let same : self.slug ≡ s = same_text_eq self.slug s (ground arith) in
              let stays : has_slug self.slug (renamed self new_slug) ≡ true =
                rw kept (ground arith) in
              subst (λ z. has_slug z (renamed self new_slug) ≡ true) same stays
        ]
      ]

written :
    (r r' self : SlugRow) (rows rows' : List SlugRow) (s : Text)
    → r.id ≡ self.id
    → r.deleted ≡ self.deleted
    → has_slug s r ≡ true
    → ◌≡◌ {A = Option (SlugRow × List SlugRow)} (some (r, write_row r rows)) (some (r', rows'))
    → (rows' ≡ write_row r' rows)
      × (r'.id ≡ self.id)
      × (r'.deleted ≡ self.deleted)
      × (has_slug s r' ≡ true)
written r r' self rows rows' s i d has h =
    let same : r ≡ r' = ap (λ p. p.0) (some-injective (r, write_row r rows) (r', rows') h) in
    let table : write_row r rows ≡ rows' =
      ap (λ p. p.1) (some-injective (r, write_row r rows) (r', rows') h) in
    subst
      (λ (z : SlugRow).
        (rows' ≡ write_row z rows)
        × (z.id ≡ self.id)
        × (z.deleted ≡ self.deleted)
        × (has_slug s z ≡ true))
      same (sym table, i, d, has)

-- What `save` writes is a row of that identifier, and it has every slug that the object had.
save-keeps :
    (cls : SlugClass) (original : List Text) (self self' : SlugRow) (rows rows' : List SlugRow)
    (fuel : ℕ) (s : Text)
    → had_slug s self ≡ true
    → save cls original self rows fuel ≡ some (self', rows')
    → (rows' ≡ write_row self' rows)
      × (self'.id ≡ self.id)
      × (self'.deleted ≡ self.deleted)
      × (has_slug s self' ≡ true)
unfolding save
save-keeps cls original self self' rows rows' fuel s had h =
    elim (Bool-cases (is_empty self.slug || not (same_values self.values original))) [
      | inl e ↦ elim (Option-cases (get_slug cls rows self fuel)) [
        | inl stuck ↦ absurd (none-ne-some (self', rows') (rw (e, stuck) at h))
        | inr (new_slug, g) ↦
            written (renamed self new_slug) self' self rows rows' s refl refl
              (renamed-has_slug s new_slug self had) (rw (e, g) at h)
      ]
      | inr e ↦ written self self' self rows rows' s refl refl (ground arith) (rw e at h)
    ]

-- On a table whose identifiers and slugs are apart, let an object that is stored there and not
-- soft-deleted be saved. Every slug that it had, current or outdated, leads to it afterwards, if the
-- class takes it for a slug; if not, it is never looked up and answered as it is.
pub save_resolves :
    (cls : SlugClass) (original : List Text) (self self' : SlugRow) (rows rows' : List SlugRow)
    (fuel : ℕ) (s : Text)
    → IsSlugClass cls
    → IsKeyed rows
    → IsUnique rows
    → IsStored self rows
    → self.deleted ≡ false
    → save cls original self rows fuel ≡ some (self', rows')
    → had_slug s self ≡ true
    → get_main_id cls rows' s ≡ (if cls.names_slug s then looked_up (found self') else given s)
unfolding get_main_id
save_resolves cls original self self' rows rows' fuel s law keyed unique stored shown h had =
    let (table, same, flag, has) = save-keeps cls original self self' rows rows' fuel s had h in
    let unique' = save-IsUnique cls original self self' rows rows' fuel law unique stored h in
    let there : find_slug_row self'.id rows' ≡ some self' =
      ap (find_slug_row self'.id) table
      ∙ find-write_row self'.id self' rows
      ∙ rw ((==_iff self'.id self'.id).1 refl) refl in
    let leads =
      find_by_slug-has_slug rows' self'.id self' s
        (subst IsKeyed (sym table) (write_row-IsKeyed self' rows keyed)) unique' there
        (flag ∙ shown) has in
    rw leads refl
