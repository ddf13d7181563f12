-- ===== src/Base/Strings.antt =====
-- Python strings as lists of code points: equality, membership, joining, slices and `str(n)`.
use Prim.Native.Nat.{ℕ, zero, suc, ◌+◌, ◌-◌, ◌*◌, ◌/◌, ◌%◌, ◌<◌}
use mathlib.Core.Path.{◌≡◌, refl, ap, ◌∙◌}
use mathlib.Core.Logic.{inl, inr}
use mathlib.Core.Bool.{Bool, true, false, not, ◌&&◌, ◌||◌}
use mathlib.Core.List.{List, [], ◌∷◌, ◌++◌}
use native.Mathlib.Omega.{arith}
use projects_backend.Base.Tests.{◌==◌, ltb, if◌then◌else◌, Bool-cases}

abbrev pub Text : Type 0
Text = List ℕ

abbrev pub same_text : Text → Text → Bool
same_text [] [] = true
same_text [] (y ∷ ys) = false
same_text (x ∷ xs) [] = false
same_text (x ∷ xs) (y ∷ ys) = x == y && same_text xs ys

pub same_text_refl : (x : Text) → same_text x x ≡ true
same_text_refl [] = refl
same_text_refl (x ∷ xs) = ground (arith, same_text_refl xs)

pub same_text_eq : (x y : Text) → same_text x y ≡ true → x ≡ y
same_text_eq [] [] h = refl
same_text_eq [] (y ∷ ys) h = cc
same_text_eq (x ∷ xs) [] h = cc
same_text_eq (x ∷ xs) (y ∷ ys) h =
    let heads : x ≡ y = ground arith in let tails = same_text_eq xs ys (ground arith) in cc

-- `text in texts`
abbrev pub mem_text : Text → List Text → Bool
mem_text x [] = false
mem_text x (y ∷ ys) = same_text x y || mem_text x ys

abbrev pub dash : ℕ
dash = 45

-- f"{x}-{y}"
abbrev pub hyphenated : Text → Text → Text
hyphenated x y = x ++ dash ∷ y

-- `"-".join(texts)`
abbrev pub join_dash : List Text → Text
join_dash [] = []
join_dash (x ∷ []) = x
join_dash (x ∷ y ∷ ys) = hyphenated x (join_dash (y ∷ ys))

-- `text[0:n]`
abbrev pub take : ℕ → Text → Text
take zero xs = []
take (suc n) [] = []
take (suc n) (x ∷ xs) = x ∷ take n xs

-- the decimal digits of a number that the fuel bounds
unfoldable pub decimal : ℕ → ℕ → Text
decimal zero n = []
decimal (suc fuel) n =
    let rest = decimal fuel (n / 10) in
    if ltb n 10 then (48 + n) ∷ [] else rest ++ (48 + n % 10) ∷ []

-- `str(n)`
unfoldable pub str : ℕ → Text
str n = decimal (suc n) n

-- The number that some digits write, after a prefix that writes `acc`.
abbrev value : ℕ → Text → ℕ
value acc [] = acc
value acc (c ∷ cs) = value (acc * 10 + (c - 48)) cs

value-append : (acc c : ℕ) (cs : Text) → value acc (cs ++ c ∷ []) ≡ value acc cs * 10 + (c - 48)
value-append acc c [] = refl
value-append acc c (x ∷ cs) = value-append (acc * 10 + (x - 48)) c cs

value-decimal : (fuel n : ℕ) → n < fuel → value 0 (decimal fuel n) ≡ n
unfolding decimal
value-decimal zero n h = omega arith
value-decimal (suc fuel) n h = elim (Bool-cases (ltb n 10)) [
  | inl small ↦ rw small (omega arith)
  | inr large ↦
      let below : n / 10 < fuel = ground arith in
      rw large (
        value-append 0 (48 + n % 10) (decimal fuel (n / 10))
        ∙ omega (arith, value-decimal fuel (n / 10) below))
]

-- What stands after the last dash.
abbrev no_dash : Text → Bool
no_dash [] = true
no_dash (c ∷ cs) = not (c == dash) && no_dash cs

abbrev after_dash : Text → Text
after_dash [] = []
after_dash (c ∷ cs) = let rest = after_dash cs in if c == dash && no_dash cs then cs else rest

-- The number after the last dash.
abbrev pub number_of : Text → ℕ
number_of s = value 0 (after_dash s)

no_dash-append : (xs ys : Text) → no_dash (xs ++ ys) ≡ (no_dash xs && no_dash ys)
no_dash-append [] ys = refl
no_dash-append (x ∷ xs) ys = ground (arith, no_dash-append xs ys)

no_dash-decimal : (fuel n : ℕ) → no_dash (decimal fuel n) ≡ true
unfolding decimal
no_dash-decimal zero n = refl
no_dash-decimal (suc fuel) n = elim (Bool-cases (ltb n 10)) [
  | inl small ↦ rw small (ground arith)
  | inr large ↦ rw large (
      no_dash-append (decimal fuel (n / 10)) ((48 + n % 10) ∷ [])
      ∙ ground (arith, no_dash-decimal fuel (n / 10)))
]

after_dash-hyphenated : (x y : Text) → no_dash y ≡ true → after_dash (hyphenated x y) ≡ y
after_dash-hyphenated [] y h = ground arith
after_dash-hyphenated (c ∷ x) y h =
    let tail = no_dash-append x (dash ∷ y) in ground (arith, after_dash-hyphenated x y h)

-- The number that an ending writes is read back.
pub number_of-str : (x : Text) (n : ℕ) → number_of (hyphenated x (str n)) ≡ n
unfolding str
number_of-str x n =
    ap (value 0) (after_dash-hyphenated x (str n) (no_dash-decimal (suc n) n))
    ∙ value-decimal (suc n) n (omega arith)

hyphenated_assoc : (p x y : Text) → hyphenated p (hyphenated x y) ≡ hyphenated (hyphenated p x) y
hyphenated_assoc [] x y = refl
hyphenated_assoc (c ∷ p) x y = ap (λ s. c ∷ s) (hyphenated_assoc p x y)

pub number_of-prefixed : (p x : Text) (n : ℕ) → number_of (hyphenated p (hyphenated x (str n))) ≡ n
number_of-prefixed p x n =
    ap number_of (hyphenated_assoc p x (str n)) ∙ number_of-str (hyphenated p x) n
