-- ===== src/Newsfeed/Tests.antt =====
-- The example in the docstring of `merge_querysets`, with 1x for a, 2x for b and 3x for c.
use projects_backend.Base.{ltb, filter, ℕ, ◌≡◌, refl, Bool, ◌&&◌, List, [], ◌∷◌}
use projects_backend.Newsfeed.{merge_querysets}
use projects_backend.Newsfeed.Merge.{count_if, merge_querysets_count, merge_querysets_order}

abbrev querysets : List (List ℕ)
querysets = (11 ∷ 12 ∷ 13 ∷ []) ∷ (21 ∷ 22 ∷ 23 ∷ 24 ∷ 25 ∷ []) ∷ (31 ∷ 32 ∷ []) ∷ []

merge_querysets_test :
    merge_querysets querysets ≡ 11 ∷ 21 ∷ 31 ∷ 12 ∷ 22 ∷ 32 ∷ 13 ∷ 23 ∷ 24 ∷ 25 ∷ []
unfolding merge_querysets
merge_querysets_test = refl

abbrev is_b : ℕ → Bool
is_b n = ltb 20 n && ltb n 30

merge_querysets_count_test : count_if is_b (merge_querysets querysets) ≡ 5
merge_querysets_count_test = merge_querysets_count is_b querysets

merge_querysets_order_test : filter is_b (merge_querysets querysets) ≡ 21 ∷ 22 ∷ 23 ∷ 24 ∷ 25 ∷ []
merge_querysets_order_test =
    merge_querysets_order is_b ((11 ∷ 12 ∷ 13 ∷ []) ∷ []) ((31 ∷ 32 ∷ []) ∷ [])
      (21 ∷ 22 ∷ 23 ∷ 24 ∷ 25 ∷ []) refl refl refl
