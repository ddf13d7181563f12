-- ===== src/Slugs/Unique.antt =====
-- `HasMultipleIDs.save` keeps the slugs of different rows apart.
use projects_backend.Base.{
  ◌==◌, if◌then◌else◌, ==_iff, Bool-cases, Option-cases, some-injective, none-ne-some, Text,
  same_text, same_text_eq, mem_text, ℕ, ◌≡◌, refl, sym, ap, subst, ◌∙◌, ◌⊎◌, inl, inr, Bool, true,
  false, not, ◌&&◌, ◌||◌, Option, none, some, List, [], ◌∷◌, arith,
}
use projects_backend.Slugs.{
  SlugClass, SlugRow, is_empty, has_slug, is_own, get_slug, renamed, same_values, write_row, save,
}
use projects_backend.Slugs.Rows.{find_slug_row, find-write_row, slug_exists-row}
use projects_backend.Slugs.Nonempty.{IsSlugClass, get_slug_nonempty}
use projects_backend.Slugs.Fresh.{get_slug-cases, mem_text-append, same_text_sym}

-- No slug, current or outdated, leads to two rows.
abbrev pub IsUnique : List SlugRow → Type 0
IsUnique rows =
    (i j : ℕ) (x y : SlugRow) (s : Text)
    → find_slug_row i rows ≡ some x
    → find_slug_row j rows ≡ some y
    → has_slug s x ≡ true
    → has_slug s y ≡ true
    → i ≡ j

-- An object whose slugs are those of its row, or a new one without any.
abbrev pub IsStored : SlugRow → List SlugRow → Type 0
IsStored self rows =
    ((x : SlugRow) × (find_slug_row self.id rows ≡ some x)
      × (x.slug ≡ self.slug)
      × (x.outdated_slugs ≡ self.outdated_slugs))
    ⊎ ((find_slug_row self.id rows ≡ none) × (self.slug ≡ []) × (self.outdated_slugs ≡ []))

-- Whether a text is a slug that the object has or had.
abbrev pub had_slug : Text → SlugRow → Bool
had_slug s self =
    mem_text s self.outdated_slugs || (not (is_empty self.slug) && same_text self.slug s)

has_slug-renamed :
    (s new_slug : Text) (self : SlugRow)
    → has_slug s (renamed self new_slug) ≡ true
    → (s ≡ new_slug) ⊎ (had_slug s self ≡ true)
has_slug-renamed s new_slug self h = elim (Bool-cases (same_text new_slug s)) [
  | inl e ↦ inl (sym (same_text_eq new_slug s e))
  | inr e ↦
      inr
        (elim (Bool-cases (
          not (is_empty self.slug)
          && not (same_text new_slug self.slug)
          && not (mem_text self.slug self.outdated_slugs))) [
            | inl moved ↦ ground (
              arith,
              mem_text-append s self.outdated_slugs (self.slug ∷ []),
              same_text_sym s self.slug,
            )
            | inr kept ↦ ground arith
          ])
]

had-has :
    (s : Text) (self : SlugRow)
    → had_slug s self ≡ true
    → (same_text self.slug s || mem_text s self.outdated_slugs) ≡ true
had-has s self h = ground arith

never : {b : Bool} → b ≡ false → b ≡ true → ⊥
never e h = cc

had_none :
    (s : Text) (self : SlugRow)
    → self.slug ≡ []
    → self.outdated_slugs ≡ []
    → had_slug s self ≡ false
had_none s self slug outdated = rw (slug, outdated) refl

-- The slugs that a stored object has or had are no other row's.
had_slug-apart :
    (self : SlugRow) (rows : List SlugRow) (s : Text) (j : ℕ) (y : SlugRow)
    → IsUnique rows
    → IsStored self rows
    → had_slug s self ≡ true
    → find_slug_row j rows ≡ some y
    → has_slug s y ≡ true
    → self.id ≡ j
had_slug-apart self rows s j y unique (inl (x, there, slug, outdated)) had at has =
    let old : has_slug s x ≡ true = rw (slug, outdated) (had-has s self had) in
    unique self.id j x y s there at old has
had_slug-apart self rows s j y unique (inr (absent, slug, outdated)) had at has =
    absurd (never (had_none s self slug outdated) had)

write_row-IsUnique :
    (r : SlugRow) (rows : List SlugRow)
    → ((s : Text) (j : ℕ) (y : SlugRow)
        → find_slug_row j rows ≡ some y
        → has_slug s r ≡ true
        → has_slug s y ≡ true
        → r.id ≡ j)
    → IsUnique rows
    → IsUnique (write_row r rows)
write_row-IsUnique r rows apart unique i j x y s at_i at_j has_i has_j =
    let find_i : (if r.id == i then some r else find_slug_row i rows) ≡ some x =
      sym (find-write_row i r rows) ∙ at_i in
    let find_j : (if r.id == j then some r else find_slug_row j rows) ≡ some y =
      sym (find-write_row j r rows) ∙ at_j in
    elim (Bool-cases (r.id == i)) [
      | inl ei ↦ elim (Bool-cases (r.id == j)) [
        | inl ej ↦ sym ((==_iff r.id i).0 ei) ∙ (==_iff r.id j).0 ej
        | inr ej ↦
            let has : has_slug s r ≡ true =
              subst (λ z. has_slug s z ≡ true) (sym (some-injective r x (rw ei at find_i))) has_i in
            sym ((==_iff r.id i).0 ei) ∙ apart s j y (rw ej at find_j) has has_j
      ]
      | inr ei ↦ elim (Bool-cases (r.id == j)) [
        | inl ej ↦
            let has : has_slug s r ≡ true =
              subst (λ z. has_slug s z ≡ true) (sym (some-injective r y (rw ej at find_j))) has_j in
            sym (apart s i x (rw ei at find_i) has has_i) ∙ (==_iff r.id j).0 ej
        | inr ej ↦ unique i j x y s (rw ei at find_i) (rw ej at find_j) has_i has_j
      ]
    ]

own-had :
    (s : Text) (self : SlugRow) → is_empty s ≡ false → is_own self s ≡ true → had_slug s self ≡ true
own-had s self full own = elim (Bool-cases (same_text s self.slug)) [
  | inl e ↦
      let nonempty : is_empty self.slug ≡ false =
        subst (λ z. is_empty z ≡ false) (same_text_eq s self.slug e) full in
      ground (arith, same_text_sym s self.slug)
  | inr e ↦ ground arith
]

-- The slug that `get_slug` returns is no other row's.
new_slug-apart :
    (cls : SlugClass) (self : SlugRow) (rows : List SlugRow) (fuel : ℕ) (s : Text) (j : ℕ)
    (y : SlugRow)
    → IsSlugClass cls
    → IsUnique rows
    → IsStored self rows
    → get_slug cls rows self fuel ≡ some s
    → find_slug_row j rows ≡ some y
    → has_slug s y ≡ true
    → self.id ≡ j
new_slug-apart cls self rows fuel s j y law unique stored h at has =
    elim (get_slug-cases cls rows self fuel s h) [
      | inl free ↦ absurd (never free (rw (slug_exists-row j s y rows at has) refl))
      | inr own ↦
          let full = get_slug_nonempty cls rows self fuel s law h in
          had_slug-apart self rows s j y unique stored (own-had s self full own) at has
    ]

renamed-apart :
    (cls : SlugClass) (self : SlugRow) (rows : List SlugRow) (fuel : ℕ) (new_slug s : Text) (j : ℕ)
    (y : SlugRow)
    → IsSlugClass cls
    → IsUnique rows
    → IsStored self rows
    → get_slug cls rows self fuel ≡ some new_slug
    → find_slug_row j rows ≡ some y
    → has_slug s (renamed self new_slug) ≡ true
    → has_slug s y ≡ true
    → self.id ≡ j
renamed-apart cls self rows fuel new_slug s j y law unique stored h at has_r has_y =
    elim (has_slug-renamed s new_slug self has_r) [
      | inl e ↦
          new_slug-apart cls self rows fuel new_slug j y law unique stored h at
            (subst (λ z. has_slug z y ≡ true) e has_y)
      | inr had ↦ had_slug-apart self rows s j y unique stored had at has_y
    ]

has-had :
    (s : Text) (self : SlugRow)
    → is_empty self.slug ≡ false
    → has_slug s self ≡ true
    → had_slug s self ≡ true
has-had s self full has = ground arith

saved_rows :
    (r r' : SlugRow) (b b' : List SlugRow)
    → ◌≡◌ {A = Option (SlugRow × List SlugRow)} (some (r, b)) (some (r', b'))
    → b ≡ b'
saved_rows r r' b b' h = ap (λ p. p.1) (some-injective (r, b) (r', b') h)

-- Saving an object, whether it gets a new slug or not, keeps the slugs of different rows apart, the
-- outdated ones and those of soft-deleted rows included.
pub save-IsUnique :
    (cls : SlugClass) (original : List Text) (self self' : SlugRow) (rows rows' : List SlugRow)
    (fuel : ℕ)
    → IsSlugClass cls
    → IsUnique rows
    → IsStored self rows
    → save cls original self rows fuel ≡ some (self', rows')
    → IsUnique rows'
unfolding save
save-IsUnique cls original self self' rows rows' fuel law unique stored h =
    elim (Bool-cases (is_empty self.slug || not (same_values self.values original))) [
      | inl e ↦ elim (Option-cases (get_slug cls rows self fuel)) [
        | inl stuck ↦ absurd (none-ne-some (self', rows') (rw (e, stuck) at h))
        | inr (new_slug, g) ↦
            subst IsUnique
              (saved_rows (renamed self new_slug) self' (write_row (renamed self new_slug) rows)
                rows' (rw (e, g) at h))
              (write_row-IsUnique (renamed self new_slug) rows
                (λ s j y at has_r has_y.
                  renamed-apart cls self rows fuel new_slug s j y law unique stored g at has_r
                    has_y)
                unique)
      ]
      | inr e ↦
          let full : is_empty self.slug ≡ false = ground arith in
          subst IsUnique (saved_rows self self' (write_row self rows) rows' (rw e at h)) (
            write_row-IsUnique self rows
              (λ s j y at has_r has_y.
                had_slug-apart self rows s j y unique stored (has-had s self full has_r) at has_y)
              unique)
    ]
