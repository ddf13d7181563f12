-- ===== src/Newsfeed.antt =====
-- The newsfeed: apps/newsfeed/views.py, `merge_querysets`, the round-robin of several querysets.
pub mod Merge
mod Tests
use projects_backend.Base.{length, ℕ, zero, suc, Option, none, some, List, [], ◌∷◌, ◌++◌}
use Prim.Native.Nat.{max}

module _ {A : Type 0} where
  -- one step of an iterator, which is `None` when it has run out
  abbrev next_item : List A → Option A
  next_item [] = none
  next_item (x ∷ xs) = some x

  abbrev pub rest_of : List A → List A
  rest_of [] = []
  rest_of (x ∷ xs) = xs

  abbrev pub heads : List (List A) → List (Option A)
  heads [] = []
  heads (q ∷ qs) = next_item q ∷ heads qs

  abbrev pub tails : List (List A) → List (List A)
  tails [] = []
  tails (q ∷ qs) = rest_of q ∷ tails qs

  abbrev pub longest : List (List A) → ℕ
  longest [] = 0
  longest (q ∷ qs) = max (length q) (longest qs)

  -- `chain.from_iterable(zip_longest(*querysets, fillvalue=None))`, for a number of rounds
  abbrev pub rounds : ℕ → List (List A) → List (Option A)
  rounds zero qs = []
  rounds (suc n) qs = heads qs ++ rounds n (tails qs)

  -- `[item for item in merged if item is not None]`
  abbrev pub drop_none : List (Option A) → List A
  drop_none [] = []
  drop_none (none ∷ xs) = drop_none xs
  drop_none (some x ∷ xs) = x ∷ drop_none xs

  -- `merge_querysets`: there are as many rounds as the longest queryset has items
  unfoldable pub merge_querysets : List (List A) → List A
  merge_querysets qs = drop_none (rounds (longest qs) qs)
