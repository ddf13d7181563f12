-- ===== src/Hierarchy.antt =====
-- Parent links: the walk to the top that three serializers make (apps/accounts/serializers.py,
-- apps/organizations/serializers.py), and what it means that the links form no loop.
pub mod Loops
pub mod Rows
pub mod Parents
pub mod Organizations
use projects_backend.Base.{
  ◌==◌, if◌then◌else◌, ℕ, zero, suc, ◌≡◌, Bool, true, false, Option, none, some,
}

-- `up` is the parent of a node. The walk
--   `while parent is not None: if instance == parent: raise; parent = parent.parent`
-- answers whether it meets the instance, and `none` when the fuel runs out.
unfoldable pub meets : (ℕ → Option ℕ) → ℕ → ℕ → Option ℕ → Option Bool
meets up i zero at = none
meets up i (suc fuel) none = some false
meets up i (suc fuel) (some p) =
    let rest = meets up i fuel (up p) in if i == p then some true else rest

-- Whether the chain of parents from a node is at most `k` long.
unfoldable pub ends_in : (ℕ → Option ℕ) → ℕ → Option ℕ → Bool
ends_in up zero none = true
ends_in up zero (some p) = false
ends_in up (suc k) none = true
ends_in up (suc k) (some p) = ends_in up k (up p)

-- Every chain of parents comes to an end.
abbrev pub IsAcyclic : (ℕ → Option ℕ) → Type 0
IsAcyclic up = (n : ℕ) → (k : ℕ) × (ends_in up k (some n) ≡ true)

-- The links after the instance `i` has been given the parent `v`.
abbrev pub relink : (ℕ → Option ℕ) → ℕ → Option ℕ → ℕ → Option ℕ
relink up i v n = if n == i then v else up n
