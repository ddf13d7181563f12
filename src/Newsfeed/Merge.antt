-- ===== src/Newsfeed/Merge.antt =====
-- `merge_querysets` of apps/newsfeed/views.py loses nothing and keeps the order of each queryset.
use projects_backend.Base.{
  if◌then◌else◌, length, all, filter, filter-append, ℕ, zero, suc, ◌+◌, ◌≤◌, ◌≡◌, refl, sym, Bool,
  true, false, not, Option, none, some, List, [], ◌∷◌, ◌++◌, arith,
}
use projects_backend.Newsfeed.{rest_of, heads, tails, longest, rounds, drop_none, merge_querysets}

module _ {A : Type 0} (p : A → Bool) where
  -- how many items pass a test
  abbrev pub count_if : List A → ℕ
  count_if [] = 0
  count_if (x ∷ xs) = (if p x then 1 else 0) + count_if xs

  abbrev count_all : List (List A) → ℕ
  count_all [] = 0
  count_all (q ∷ qs) = count_if q + count_all qs

  count-drop_none-append :
      (xs ys : List (Option A))
      → count_if (drop_none (xs ++ ys)) ≡ count_if (drop_none xs) + count_if (drop_none ys)
  count-drop_none-append [] ys = omega arith
  count-drop_none-append (none ∷ xs) ys = count-drop_none-append xs ys
  count-drop_none-append (some x ∷ xs) ys = omega (arith, count-drop_none-append xs ys)

  -- One round takes the heads and leaves the tails.
  count-heads-tails :
      (qs : List (List A)) → count_if (drop_none (heads qs)) + count_all (tails qs) ≡ count_all qs
  count-heads-tails [] = omega arith
  count-heads-tails ([] ∷ qs) = omega (arith, count-heads-tails qs)
  count-heads-tails ((x ∷ q) ∷ qs) = omega (arith, count-heads-tails qs)

  none_left : (qs : List (List A)) → longest qs ≤ 0 → count_all qs ≡ 0
  none_left [] h = refl
  none_left ([] ∷ qs) h = let rest = none_left qs (omega arith) in omega (arith, rest)
  none_left ((x ∷ q) ∷ qs) h = absurd (omega arith)

  longest-tails : (n : ℕ) (qs : List (List A)) → longest qs ≤ suc n → longest (tails qs) ≤ n
  longest-tails n [] h = omega arith
  longest-tails n ([] ∷ qs) h = let rest = longest-tails n qs (omega arith) in omega (arith, rest)
  longest-tails n ((x ∷ q) ∷ qs) h =
      let rest = longest-tails n qs (omega arith) in omega (arith, rest)

  count-rounds :
      (n : ℕ) (qs : List (List A))
      → longest qs ≤ n
      → count_if (drop_none (rounds n qs)) ≡ count_all qs
  count-rounds zero qs h = sym (none_left qs h)
  count-rounds (suc n) qs h =
      let rest = count-rounds n (tails qs) (longest-tails n qs h) in
      omega
        (arith, count-drop_none-append (heads qs) (rounds n (tails qs)), rest, count-heads-tails qs)

  -- Whatever the test, as many items of the merged list pass it as of the querysets together: nothing
  -- is lost and nothing comes twice.
  pub merge_querysets_count : (qs : List (List A)) → count_if (merge_querysets qs) ≡ count_all qs
  unfolding merge_querysets
  merge_querysets_count qs = count-rounds (longest qs) qs (omega arith)

  drop_none-append : (xs ys : List (Option A)) → drop_none (xs ++ ys) ≡ drop_none xs ++ drop_none ys
  drop_none-append [] ys = refl
  drop_none-append (none ∷ xs) ys = drop_none-append xs ys
  drop_none-append (some x ∷ xs) ys = rw (drop_none-append xs ys) refl

  -- No item of these querysets passes the test.
  abbrev pass_none : List (List A) → Bool
  pass_none qs = all (all (λ x. not (p x))) qs

  heads_fail : (qs : List (List A)) → pass_none qs ≡ true → filter p (drop_none (heads qs)) ≡ []
  heads_fail [] h = refl
  heads_fail ([] ∷ qs) h = heads_fail qs h
  heads_fail ((x ∷ q) ∷ qs) h =
      let skipped : p x ≡ false = ground arith in rw skipped (heads_fail qs (ground arith))

  tails_fail : (qs : List (List A)) → pass_none qs ≡ true → pass_none (tails qs) ≡ true
  tails_fail [] h = refl
  tails_fail ([] ∷ qs) h = tails_fail qs h
  tails_fail ((x ∷ q) ∷ qs) h = let rest = tails_fail qs (ground arith) in ground arith

  heads-append :
      (before after : List (List A)) → heads (before ++ after) ≡ heads before ++ heads after
  heads-append [] after = refl
  heads-append (q ∷ before) after = rw (heads-append before after) refl

  tails-append :
      (before after : List (List A)) → tails (before ++ after) ≡ tails before ++ tails after
  tails-append [] after = refl
  tails-append (q ∷ before) after = rw (tails-append before after) refl

  -- What one round brings of the items that pass: the head of the one queryset that has them.
  round_passes :
      (before after : List (List A)) (q : List A)
      → pass_none before ≡ true
      → pass_none after ≡ true
      → all p q ≡ true
      → filter p (drop_none (heads (before ++ q ∷ after))) ++ rest_of q ≡ q
  round_passes before after [] hb ha hq =
      rw
        (
          heads-append before ([] ∷ after),
          drop_none-append (heads before) (heads ([] ∷ after)),
          filter-append p (drop_none (heads before)) (drop_none (heads after)),
          heads_fail before hb,
          heads_fail after ha,
        )
        refl
  round_passes before after (x ∷ q) hb ha hq =
      let passes : p x ≡ true = ground arith in
      rw
        (
          heads-append before ((x ∷ q) ∷ after),
          drop_none-append (heads before) (heads ((x ∷ q) ∷ after)),
          filter-append p (drop_none (heads before)) (x ∷ drop_none (heads after)),
          heads_fail before hb,
          passes,
          heads_fail after ha,
        )
        refl

  rest_passes : (q : List A) → all p q ≡ true → all p (rest_of q) ≡ true
  rest_passes [] h = refl
  rest_passes (x ∷ q) h = ground arith

  length-rest_of : (n : ℕ) (q : List A) → length q ≤ suc n → length (rest_of q) ≤ n
  length-rest_of n [] h = omega arith
  length-rest_of n (x ∷ q) h = omega arith

  filter-rounds :
      (n : ℕ) (before after : List (List A)) (q : List A)
      → length q ≤ n
      → pass_none before ≡ true
      → pass_none after ≡ true
      → all p q ≡ true
      → filter p (drop_none (rounds n (before ++ q ∷ after))) ≡ q
  filter-rounds zero before after [] short hb ha hq = refl
  filter-rounds zero before after (x ∷ q) short hb ha hq = absurd (omega arith)
  filter-rounds (suc n) before after q short hb ha hq =
      let rest =
        filter-rounds n (tails before) (tails after) (rest_of q) (length-rest_of n q short)
          (tails_fail before hb) (tails_fail after ha) (rest_passes q hq) in
      rw
        (
          drop_none-append (heads (before ++ q ∷ after)) (rounds n (tails (before ++ q ∷ after))),
          filter-append p (drop_none (heads (before ++ q ∷ after)))
              (drop_none (rounds n (tails (before ++ q ∷ after)))),
          tails-append before (q ∷ after),
          rest,
        )
        (round_passes before after q hb ha hq)

  length-le-longest :
      (before after : List (List A)) (q : List A) → length q ≤ longest (before ++ q ∷ after)
  length-le-longest [] after q = omega arith
  length-le-longest (b ∷ before) after q =
      let rest = length-le-longest before after q in omega (arith, rest)

  -- The items of one queryset, told from those of the others by a test, stand in the merged list in
  -- the order that they have in the queryset.
  pub merge_querysets_order :
      (before after : List (List A)) (q : List A)
      → pass_none before ≡ true
      → pass_none after ≡ true
      → all p q ≡ true
      → filter p (merge_querysets (before ++ q ∷ after)) ≡ q
  unfolding merge_querysets
  merge_querysets_order before after q hb ha hq =
      filter-rounds (longest (before ++ q ∷ after)) before after q
        (length-le-longest before after q) hb ha hq
