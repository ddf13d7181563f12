-- ===== src/Base/Roster.antt =====
-- The membership rows of permission groups: which users (or people groups) each role's group holds.
-- `groups.remove(...)` and `groups.add(...)` of Django's many-to-many managers on such rows.
use Prim.Native.Nat.{ℕ}
use mathlib.Core.Path.{◌≡◌}
use mathlib.Core.Logic.{◌↔◌, inl, inr}
use mathlib.Core.Bool.{Bool, true, not, ◌&&◌, ◌||◌}
use mathlib.Core.List.{List, [], ◌∷◌, ◌++◌}
use native.Mathlib.Omega.{arith}
use projects_backend.Base.Tests.{◌==◌, if◌then◌else◌, Bool-cases}
use projects_backend.Base.Lists.{mem, filter, mem-append, mem-filter}

-- A type of roles whose values are compared by name.
pub record RoleNames (R : Type 0) : Type 0 where
  pub same : R → R → Bool
  pub same_iff : (r s : R) → (same r s ≡ true) ↔ (r ≡ s)

-- A many-to-many `add`: a row that is there is not added twice.
pub insert : ℕ → List ℕ → List ℕ
insert x xs = if mem x xs then xs else xs ++ x ∷ []

pub mem-insert : (u x : ℕ) (xs : List ℕ) → mem u (insert x xs) ≡ (u == x || mem u xs)
unfolding insert
mem-insert u x xs = elim (Bool-cases (mem x xs)) [
  | inl old ↦ elim (Bool-cases (u == x)) [ inl e ↦ ground (arith, ◌==◌) | inr e ↦ ground arith ]
  | inr new ↦ ground (arith, mem-append u xs (x ∷ []))
]

-- `reduce(lambda x, y: x.union(y), ..., set())` of one more set
pub union : List ℕ → List ℕ → List ℕ
union xs [] = xs
union xs (y ∷ ys) = union (insert y xs) ys

pub mem-union : (u : ℕ) (xs ys : List ℕ) → mem u (union xs ys) ≡ (mem u xs || mem u ys)
unfolding union
mem-union u xs [] = ground arith
mem-union u xs (y ∷ ys) = ground (arith, mem-union u (insert y xs) ys, mem-insert u y xs)

abbrev pub Roster : Type 0 → Type 0
Roster R = R → List ℕ

-- `user.groups.remove(*instance.groups.filter(users=user))`: out of every group of the instance
pub withdraw : {R : Type 0} → ℕ → Roster R → Roster R
withdraw u rows r = filter (λ x. not (x == u)) (rows r)

pub mem-withdraw :
    {R : Type 0} (v u : ℕ) (rows : Roster R) (r : R)
    → mem v (withdraw u rows r) ≡ (not (v == u) && mem v (rows r))
unfolding withdraw
mem-withdraw v u rows r = mem-filter (λ x. not (x == u)) v (rows r)

module _ {R : Type 0} ⦃n : RoleNames R⦄ where
  -- `user.groups.add(group)`
  pub enlist : ℕ → R → Roster R → Roster R
  enlist u g rows r = if n.same r g then insert u (rows r) else rows r

  -- The two calls in a row, as the three team serializers make them.
  pub assign : ℕ → R → Roster R → Roster R
  assign u g rows = enlist u g (withdraw u rows)

  -- After `assign`, the user is in the given group and in no other one, and nobody else moved.
  pub mem-assign :
      (v u : ℕ) (g : R) (rows : Roster R) (r : R)
      → mem v (assign u g rows r) ≡ (if v == u then n.same r g else mem v (rows r))
  unfolding assign enlist
  mem-assign v u g rows r = elim (Bool-cases (n.same r g)) [
    | inl e ↦ rw e (ground (arith, mem-insert v u (withdraw u rows r), mem-withdraw v u rows r))
    | inr e ↦ rw e (ground (arith, mem-withdraw v u rows r))
  ]
