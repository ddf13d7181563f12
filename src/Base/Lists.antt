-- ===== src/Base/Lists.antt =====
-- Lists with Boolean tests: membership of numbers, filters, quantifiers, lengths.
use Prim.Native.Nat.{ℕ, suc, ◌+◌}
use mathlib.Core.Path.{◌≡◌, refl, ap, subst}
use mathlib.Core.Logic.{inl, inr}
use mathlib.Core.Bool.{Bool, true, false, not, ◌&&◌, ◌||◌}
use mathlib.Core.List.{List, [], ◌∷◌, ◌++◌, map}
use native.Mathlib.Omega.{arith}
use projects_backend.Base.Tests.{◌==◌, if◌then◌else◌, Bool-cases}

-- `x in xs` of the source, for identifiers
abbrev pub mem : ℕ → List ℕ → Bool
mem x [] = false
mem x (y ∷ ys) = x == y || mem x ys

module _ {ℓ} {A : Type ℓ} where
  abbrev pub length : List A → ℕ
  length [] = 0
  length (x ∷ xs) = suc (length xs)

  abbrev pub any : (A → Bool) → List A → Bool
  any p [] = false
  any p (x ∷ xs) = p x || any p xs

  abbrev pub all : (A → Bool) → List A → Bool
  all p [] = true
  all p (x ∷ xs) = p x && all p xs

  abbrev pub filter : (A → Bool) → List A → List A
  filter p [] = []
  filter p (x ∷ xs) = let rest = filter p xs in if p x then x ∷ rest else rest

  pub all-weaken :
      (p q : A → Bool)
      → ((x : A) → p x ≡ true → q x ≡ true)
      → (xs : List A) → all p xs ≡ true
      → all q xs ≡ true
  all-weaken p q step [] h = refl
  all-weaken p q step (x ∷ xs) h =
      let first = step x (ground arith) in
      let rest = all-weaken p q step xs (ground arith) in rw (first, rest)

  pub all-map :
      (p : A → Bool) (f : A → A)
      → ((x : A) → p x ≡ true → p (f x) ≡ true)
      → (xs : List A) → all p xs ≡ true
      → all p (map f xs) ≡ true
  all-map p f step [] h = refl
  all-map p f step (x ∷ xs) h =
      let first = step x (ground arith) in
      let rest = all-map p f step xs (ground arith) in rw (first, rest)

  pub length-append : (xs ys : List A) → length (xs ++ ys) ≡ length xs + length ys
  length-append [] ys = omega arith
  length-append (x ∷ xs) ys = omega (arith, length-append xs ys)

pub append_next {ℓ} :
    {A : Type ℓ} (xs : List A) (y : A) (zs : List A) → (xs ++ y ∷ []) ++ zs ≡ xs ++ y ∷ zs
append_next [] y zs = refl
append_next (x ∷ xs) y zs = ap (λ z. x ∷ z) (append_next xs y zs)

pub append_nil {ℓ} : {A : Type ℓ} (xs : List A) → xs ++ [] ≡ xs
append_nil [] = refl
append_nil (x ∷ xs) = ap (λ z. x ∷ z) (append_nil xs)

pub mem-append : (x : ℕ) (xs ys : List ℕ) → mem x (xs ++ ys) ≡ (mem x xs || mem x ys)
mem-append x [] ys = refl
mem-append x (y ∷ xs) ys = ground (arith, mem-append x xs ys)

pub mem-filter : (p : ℕ → Bool) (x : ℕ) (xs : List ℕ) → mem x (filter p xs) ≡ (p x && mem x xs)
mem-filter p x [] = ground arith
mem-filter p x (y ∷ xs) = elim (Bool-cases (x == y)) [
  | inl e ↦ ground (arith, mem-filter p x xs)
  | inr e ↦ ground (arith, mem-filter p x xs)
]

module _ {A : Type 0} (p : A → Bool) where
  pub filter-append : (xs ys : List A) → filter p (xs ++ ys) ≡ filter p xs ++ filter p ys
  filter-append [] ys = refl
  filter-append (x ∷ xs) ys = elim (Bool-cases (p x)) [
    | inl e ↦ rw e (ap (λ z. x ∷ z) (filter-append xs ys))
    | inr e ↦ rw e (filter-append xs ys)
  ]

  pub any-append : (xs ys : List A) → any p (xs ++ ys) ≡ (any p xs || any p ys)
  any-append [] ys = refl
  any-append (x ∷ xs) ys = ground (arith, any-append xs ys)

  pub filter_all : (xs : List A) → any p xs ≡ false → filter (λ x. not (p x)) xs ≡ xs
  filter_all [] h = refl
  filter_all (x ∷ xs) h =
      let out : p x ≡ false = ground arith in
      rw out (ap (λ z. x ∷ z) (filter_all xs (ground arith)))

  pub filter-none : (xs : List A) → any p xs ≡ false → filter p xs ≡ []
  filter-none [] h = refl
  filter-none (x ∷ xs) h = elim (Bool-cases (p x)) [
    | inl e ↦ cc_true (rw e at h)
    | inr e ↦ rw e (filter-none xs (rw e at h))
  ]
    where
      cc_true : {X : Type 0} → true ≡ false → X
      cc_true h = cc

  pub filter-not_self : (xs : List A) → filter p (filter (λ x. not (p x)) xs) ≡ []
  filter-not_self [] = refl
  filter-not_self (x ∷ xs) = elim (Bool-cases (p x)) [
    | inl e ↦ rw e (filter-not_self xs)
    | inr e ↦ rw e (rw e (filter-not_self xs))
  ]

  pub filter_twice : (xs : List A) → filter p (filter p xs) ≡ filter p xs
  filter_twice [] = refl
  filter_twice (x ∷ xs) = elim (Bool-cases (p x)) [
    | inl e ↦ rw e (rw e (ap (λ z. x ∷ z) (filter_twice xs)))
    | inr e ↦ rw e (filter_twice xs)
  ]

  pub head-filter : (x : A) (xs ys : List A) → filter p xs ≡ x ∷ ys → p x ≡ true
  head-filter x [] ys h = cc
  head-filter x (z ∷ xs) ys h = elim (Bool-cases (p z)) [
    | inl e ↦ let same : z ≡ x = cc_head (rw e at h) in subst (λ w. p w ≡ true) same e
    | inr e ↦ head-filter x xs ys (rw e at h)
  ]
    where
      cc_head : {a b : A} {as_ bs : List A} → a ∷ as_ ≡ b ∷ bs → a ≡ b
      cc_head h = cc
