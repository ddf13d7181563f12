-- ===== src/Slugs/Nonempty.antt =====
-- The slug that `get_slug` of apps/commons/mixins.py returns is not empty.
use projects_backend.Base.{
  Bool-cases, Option-cases, some-injective, none-ne-some, Text, same_text, dash, hyphenated,
  join_dash, take, str, ℕ, zero, suc, ◌≡◌, refl, subst, inl, inr, true, false, ◌||◌, some, List, [],
  ◌∷◌, arith,
}
use projects_backend.Slugs.{
  SlugClass, SlugRow, is_empty, base_slug, prefix_loop, numbered, is_taken, is_own, number_loop,
  get_slug,
}

-- What a model's class attributes satisfy: the prefix is not empty, and an identifier that is not a
-- slug is one under the prefix.
pub record IsSlugClass (cls : SlugClass) : Type 0 where
  pub prefixed :
      (s : Text) → cls.names_slug s ≡ false → cls.names_slug (hyphenated cls.slug_prefix s) ≡ true
  pub nonempty : is_empty cls.slug_prefix ≡ false

hyphenated_nonempty : (x y : Text) → is_empty (hyphenated x y) ≡ false
hyphenated_nonempty [] y = refl
hyphenated_nonempty (c ∷ x) y = refl

module _ (cls : SlugClass) (rows : List SlugRow) where
  numbered_nonempty : (raw : Text) (n : ℕ) → is_empty (numbered cls raw n) ≡ false
  numbered_nonempty raw n = elim (Bool-cases (cls.names_slug (hyphenated raw (str n)))) [
    | inl e ↦ rw e (hyphenated_nonempty raw (str n))
    | inr e ↦ rw e (hyphenated_nonempty cls.slug_prefix (hyphenated raw (str n)))
  ]

  number_loop-nonempty :
      (self : SlugRow) (raw : Text) (fuel count : ℕ) (slug s : Text)
      → is_empty slug ≡ false
      → number_loop cls rows self raw fuel count slug ≡ some s
      → is_empty s ≡ false
  unfolding number_loop
  number_loop-nonempty self raw zero count slug s full h = cc
  number_loop-nonempty self raw (suc fuel) count slug s full h =
      let step = numbered_nonempty raw (suc count) in
      elim (Bool-cases (is_taken cls rows slug)) [
        | inr e ↦ subst (λ z. is_empty z ≡ false) (some-injective slug s (rw e at h)) full
        | inl e ↦ elim (Bool-cases (is_own self slug)) [
          | inl own ↦
              subst (λ z. is_empty z ≡ false) (some-injective slug s (rw (e, own) at h)) full
          | inr new ↦
              number_loop-nonempty self raw fuel (suc count) (numbered cls raw (suc count)) s step
                (rw (e, new) at h)
        ]
      ]

  prefix_loop-nonempty :
      (fuel : ℕ) (raw raw' : Text)
      → is_empty raw ≡ false
      → prefix_loop cls fuel raw ≡ some raw'
      → is_empty raw' ≡ false
  unfolding prefix_loop
  prefix_loop-nonempty zero raw raw' full h = cc
  prefix_loop-nonempty (suc fuel) raw raw' full h = elim (Bool-cases (cls.names_slug raw)) [
    | inl e ↦ subst (λ z. is_empty z ≡ false) (some-injective raw raw' (rw e at h)) full
    | inr e ↦
        prefix_loop-nonempty fuel (hyphenated cls.slug_prefix raw) raw'
          (hyphenated_nonempty cls.slug_prefix raw) (rw e at h)
  ]

  base_slug_nonempty :
      (values : List Text) → IsSlugClass cls → is_empty (base_slug cls values) ≡ false
  base_slug_nonempty values law =
      elim (Bool-cases (
        is_empty (cls.slugify (take 46 (join_dash values)))
        || same_text (cls.slugify (take 46 (join_dash values))) (dash ∷ []))) [
          | inl e ↦ rw e law.nonempty
          | inr e ↦ ground arith
        ]

  pub get_slug_nonempty :
      (self : SlugRow) (fuel : ℕ) (s : Text)
      → IsSlugClass cls
      → get_slug cls rows self fuel ≡ some s
      → is_empty s ≡ false
  unfolding get_slug
  get_slug_nonempty self fuel s law h =
      elim (Option-cases (prefix_loop cls fuel (base_slug cls self.values))) [
        | inl e ↦ absurd (none-ne-some s (rw e at h))
        | inr (raw, e) ↦
            number_loop-nonempty self raw fuel 0 raw s
              (prefix_loop-nonempty fuel (base_slug cls self.values) raw
                (base_slug_nonempty self.values law) e)
              (rw e at h)
      ]
