-- ===== src/Slugs/Fresh.antt =====
-- `get_slug` of apps/commons/mixins.py: it returns, and the slug is nobody else's.
use projects_backend.Base.{
  Bool-cases, some-injective, Text, same_text, same_text_eq, mem_text, hyphenated, str, number_of,
  number_of-str, number_of-prefixed, ℕ, zero, suc, ◌+◌, ◌≤◌, ◌<◌, ◌≡◌, refl, sym, subst, ◌∙◌, ◌⊎◌,
  inl, inr, true, false, ◌||◌, Option, none, some, List, [], ◌∷◌, ◌++◌, arith,
}
use Prim.Native.Nat.{max}
use projects_backend.Slugs.{
  SlugClass, SlugRow, slug_exists, base_slug, prefix_loop, numbered, is_taken, is_own, number_loop,
  number_from, get_slug,
}
use projects_backend.Slugs.Nonempty.{IsSlugClass}

abbrev largest : List Text → ℕ
largest [] = 0
largest (s ∷ ss) = max (number_of s) (largest ss)

number-le-largest : (s : Text) (ss : List Text) → mem_text s ss ≡ true → number_of s ≤ largest ss
number-le-largest s [] h = cc
number-le-largest s (y ∷ ss) h = elim (Bool-cases (same_text s y)) [
  | inl e ↦
      subst (λ z. number_of z ≤ max (number_of y) (largest ss)) (sym (same_text_eq s y e))
        (omega arith)
  | inr e ↦ let below = number-le-largest s ss (ground arith) in omega (arith, below)
]

pub mem_text-append :
    (s : Text) (xs ys : List Text) → mem_text s (xs ++ ys) ≡ (mem_text s xs || mem_text s ys)
mem_text-append s [] ys = refl
mem_text-append s (x ∷ xs) ys = ground (arith, mem_text-append s xs ys)

slugs_of : List SlugRow → List Text
slugs_of [] = []
slugs_of (r ∷ rs) = (r.slug ∷ r.outdated_slugs) ++ slugs_of rs

pub same_text_sym : (x y : Text) → same_text x y ≡ same_text y x
same_text_sym [] [] = refl
same_text_sym [] (y ∷ ys) = refl
same_text_sym (x ∷ xs) [] = refl
same_text_sym (x ∷ xs) (y ∷ ys) = ground (arith, same_text_sym xs ys)

mem-slugs_of : (s : Text) (rows : List SlugRow) → mem_text s (slugs_of rows) ≡ slug_exists rows s
unfolding slugs_of
mem-slugs_of s [] = refl
mem-slugs_of s (r ∷ rs) = ground (
  arith,
  mem_text-append s r.outdated_slugs (slugs_of rs),
  mem-slugs_of s rs,
  same_text_sym s r.slug,
)

module _ (cls : SlugClass) (rows : List SlugRow) where
  numbered-number : (raw : Text) (n : ℕ) → number_of (numbered cls raw n) ≡ n
  numbered-number raw n = elim (Bool-cases (cls.names_slug (hyphenated raw (str n)))) [
    | inl e ↦ rw e (number_of-str raw n)
    | inr e ↦ rw e (number_of-prefixed cls.slug_prefix raw n)
  ]

  taken_slugs : List Text
  taken_slugs = slugs_of rows ++ (cls.slug_prefix ∷ cls.reserved_slugs)

  -- A number above all those of the slugs that are taken gives a slug that is not.
  free_number :
      (raw : Text) (n : ℕ)
      → largest taken_slugs < n
      → is_taken cls rows (numbered cls raw n) ≡ false
  unfolding taken_slugs
  free_number raw n above = elim (Bool-cases (is_taken cls rows (numbered cls raw n))) [
    | inr e ↦ e
    | inl e ↦
        let there : mem_text (numbered cls raw n) taken_slugs ≡ true =
          mem_text-append (numbered cls raw n) (slugs_of rows)
            (cls.slug_prefix ∷ cls.reserved_slugs)
          ∙ rw (mem-slugs_of (numbered cls raw n) rows) e in
        absurd (
          omega (
            arith,
            number-le-largest (numbered cls raw n) taken_slugs there,
            numbered-number raw n,
          ))
  ]

  abbrev candidate : Text → ℕ → Text
  candidate raw zero = raw
  candidate raw (suc n) = numbered cls raw (suc n)

  free_start :
      (raw : Text) → is_taken cls rows (candidate raw (0 + suc (largest taken_slugs))) ≡ false
  free_start raw =
      let free : is_taken cls rows (candidate raw (suc (largest taken_slugs))) ≡ false =
        free_number raw (suc (largest taken_slugs)) (omega arith) in
      let zero_left : suc (largest taken_slugs) ≡ 0 + suc (largest taken_slugs) = omega arith in
      subst (λ m. is_taken cls rows (candidate raw m) ≡ false) zero_left free

  number_loop_total :
      (self : SlugRow) (raw : Text) (d fuel count : ℕ)
      → is_taken cls rows (candidate raw (count + d)) ≡ false
      → d < fuel
      → (s : Text) × (number_loop cls rows self raw fuel count (candidate raw count) ≡ some s)
  unfolding number_loop
  number_loop_total self raw d zero count free enough = absurd (omega arith)
  number_loop_total self raw zero (suc fuel) count free enough =
      let here : is_taken cls rows (candidate raw count) ≡ false =
        subst (λ n. is_taken cls rows (candidate raw n) ≡ false) (omega arith) free in
      (candidate raw count, rw here refl)
  number_loop_total self raw (suc d) (suc fuel) count free enough =
      let later : is_taken cls rows (candidate raw (suc count + d)) ≡ false =
        subst (λ n. is_taken cls rows (candidate raw n) ≡ false) (omega arith) free in
      let (s, done) = number_loop_total self raw d fuel (suc count) later (omega arith) in
      elim (Bool-cases (is_taken cls rows (candidate raw count))) [
        | inr e ↦ (candidate raw count, rw e refl)
        | inl e ↦ elim (Bool-cases (is_own self (candidate raw count))) [
          | inl own ↦ (candidate raw count, rw (e, own) refl)
          | inr new ↦ (s, rw (e, new) done)
        ]
      ]

  -- What the loop returns is free, or it is a slug that the row has or had.
  number_loop-cases :
      (self : SlugRow) (raw : Text) (fuel count : ℕ) (slug s : Text)
      → number_loop cls rows self raw fuel count slug ≡ some s
      → (is_taken cls rows s ≡ false) ⊎ (is_own self s ≡ true)
  unfolding number_loop
  number_loop-cases self raw zero count slug s h = cc
  number_loop-cases self raw (suc fuel) count slug s h =
      elim (Bool-cases (is_taken cls rows slug)) [
        | inr e ↦
            inl (subst (λ z. is_taken cls rows z ≡ false) (some-injective slug s (rw e at h)) e)
        | inl e ↦ elim (Bool-cases (is_own self slug)) [
          | inl own ↦
              inr (subst (λ z. is_own self z ≡ true) (some-injective slug s (rw (e, own) at h)) own)
          | inr new ↦
              number_loop-cases self raw fuel (suc count) (numbered cls raw (suc count)) s
                (rw (e, new) at h)
        ]
      ]

  prefix_loop_total :
      (raw : Text) (fuel : ℕ)
      → IsSlugClass cls
      → (raw' : Text) × (prefix_loop cls (suc (suc fuel)) raw ≡ some raw')
  unfolding prefix_loop
  prefix_loop_total raw fuel law = elim (Bool-cases (cls.names_slug raw)) [
    | inl e ↦ (raw, rw e refl)
    | inr e ↦ (hyphenated cls.slug_prefix raw, rw (e, law.prefixed raw e) refl)
  ]

  -- With any fuel above some bound, which depends on the slugs of the table and on nothing else,
  -- `get_slug` returns.
  pub get_slug_total :
      IsSlugClass cls
      → (k : ℕ) × ((self : SlugRow) (fuel : ℕ)
          → k < fuel
          → (s : Text) × (get_slug cls rows self fuel ≡ some s))
  unfolding get_slug
  get_slug_total law = (suc (suc (largest taken_slugs)), go)
    where
      go :
          (self : SlugRow) (fuel : ℕ)
          → suc (suc (largest taken_slugs)) < fuel
          → (s : Text) × (get_slug cls rows self fuel ≡ some s)
      go self zero enough = absurd (omega arith)
      go self (suc zero) enough = absurd (omega arith)
      go self (suc (suc fuel)) enough =
          let (raw, here) = prefix_loop_total (base_slug cls self.values) fuel law in
          let (s, done) =
            number_loop_total self raw (suc (largest taken_slugs)) (suc (suc fuel)) 0
              (free_start raw) (omega arith) in
          (s, rw here done)

  number_from-cases :
      (self : SlugRow) (fuel : ℕ) (raw : Option Text) (s : Text)
      → number_from cls rows self fuel raw ≡ some s
      → (is_taken cls rows s ≡ false) ⊎ (is_own self s ≡ true)
  number_from-cases self fuel none s h = cc
  number_from-cases self fuel (some raw) s h = number_loop-cases self raw fuel 0 raw s h

  -- The slug that `get_slug` returns is no current or outdated slug of any row and not reserved, or it
  -- is one that the row itself has or had.
  pub get_slug-cases :
      (self : SlugRow) (fuel : ℕ) (s : Text)
      → get_slug cls rows self fuel ≡ some s
      → (is_taken cls rows s ≡ false) ⊎ (is_own self s ≡ true)
  unfolding get_slug
  get_slug-cases self fuel s h = number_from-cases self fuel _ s h
