-- ===== src/Notifications/Context.antt =====
-- apps/notifications/utils.py: `merge_context_lists` keeps one entry for each "id".
-- the last entry with an id
use projects_backend.Base.{
  ltb, ◌==◌, if◌then◌else◌, ==_iff, Bool-cases, length, all, ℕ, ◌+◌, ◌≤◌, ◌<◌, ◌≡◌, refl, ◌∙◌, inl,
  inr, true, false, Option, none, some, List, [], ◌∷◌, ◌++◌, arith,
}
use projects_backend.Notifications.{by_id, merge_context_lists}
use projects_backend.Notifications.{put, Item, has_key, same_id, scalar, dict}

abbrev pub last_with : ℕ → List Item → Option Item
last_with i [] = none
last_with i (x ∷ xs) = elim (last_with i xs) [
  | some y ↦ some y
  | none ↦ if same_id i x then some x else none
]

abbrev pub count_id : ℕ → List Item → ℕ
count_id i [] = 0
count_id i (x ∷ xs) = (if same_id i x then 1 else 0) + count_id i xs

-- the first entry with an id
abbrev pub first_with : ℕ → List Item → Option Item
first_with i [] = none
first_with i (y ∷ ys) = let later = first_with i ys in if same_id i y then some y else later

abbrev pub or_else : Option Item → Option Item → Option Item
or_else (some x) o = some x
or_else none o = o

same_id_eq : (i j : ℕ) (y : Item) → same_id j y ≡ true → same_id i y ≡ (i == j)
same_id_eq i j (scalar v) h = cc
same_id_eq i j (dict none c) h = cc
same_id_eq i j (dict (some k) c) h = ground arith

put-count :
    (i j b : ℕ) (ys : List Item)
    → count_id i ys ≤ 1
    → count_id i (put (dict (some j) b) ys) ≡ (if i == j then 1 else count_id i ys)
put-count i j b [] h = ground arith
put-count i j b (y ∷ ys) h = elim (Bool-cases (same_id j y)) [
  | inl e ↦ rw e (ground (arith, same_id_eq i j y e))
  | inr e ↦ rw e (elim (Bool-cases (i == j)) [
    | inl same ↦
        let other : same_id i y ≡ false = rw ((==_iff i j).0 same) e in
        ground (arith, put-count i j b ys)
    | inr differ ↦ rw differ (ground (arith, put-count i j b ys))
  ])
]

put-first :
    (i j b : ℕ) (ys : List Item)
    → first_with i (put (dict (some j) b) ys)
      ≡ (if i == j then some (dict (some j) b) else first_with i ys)
put-first i j b [] = ground arith
put-first i j b (y ∷ ys) = elim (Bool-cases (same_id j y)) [
  | inl e ↦ rw e (ground (arith, same_id_eq i j y e))
  | inr e ↦ rw e (elim (Bool-cases (i == j)) [
    | inl same ↦
        let other : same_id i y ≡ false = rw ((==_iff i j).0 same) e in
        rw (other, same) (put-first i j b ys ∙ rw same)
    | inr differ ↦ rw differ (ground (arith, put-first i j b ys))
  ])
]

by_id-count : (i : ℕ) (xs done : List Item) → count_id i done ≤ 1 → count_id i (by_id done xs) ≤ 1
unfolding by_id
by_id-count i [] done h = h
by_id-count i (scalar v ∷ xs) done h = by_id-count i xs done h
by_id-count i (dict none b ∷ xs) done h = by_id-count i xs done h
by_id-count i (dict (some j) b ∷ xs) done h =
    by_id-count i xs (put (dict (some j) b) done) (ground (arith, put-count i j b done))

by_id-first :
    (i : ℕ) (xs done : List Item)
    → first_with i (by_id done xs) ≡ or_else (last_with i xs) (first_with i done)
unfolding by_id
by_id-first i [] done = refl
by_id-first i (scalar v ∷ xs) done = by_id-first i xs done ∙ ground arith
by_id-first i (dict none b ∷ xs) done = by_id-first i xs done ∙ ground arith
by_id-first i (dict (some j) b ∷ xs) done =
    by_id-first i xs (put (dict (some j) b) done) ∙ ground (arith, put-first i j b done)

last_with-append :
    (i : ℕ) (xs ys : List Item) → last_with i (xs ++ ys) ≡ or_else (last_with i ys) (last_with i xs)
last_with-append i [] ys = ground arith
last_with-append i (x ∷ xs) ys = ground (arith, last_with-append i xs ys)

-- Merging lists of dicts that all have their "id", the new one not empty, gives a list that holds no
-- id twice; the entry for an id is the last one of the new list that has it, or else the last one of
-- the current list.
pub merge_context_lists_entries :
    (current new : List Item)
    → 0 < length new
    → all has_key new ≡ true
    → all has_key current ≡ true
    → (r : List Item) × (merge_context_lists current new ≡ some r)
      × ((i : ℕ)
          → (count_id i r ≤ 1) × (first_with i r ≡ or_else (last_with i new) (last_with i current)))
unfolding merge_context_lists
merge_context_lists_entries current new more new_ids current_ids =
    let some_new : ltb 0 (length new) ≡ true = ground arith in
    (
      by_id [] (current ++ new),
      rw (some_new, new_ids, current_ids),
      λ i. (
        by_id-count i (current ++ new) [] (omega arith),
        by_id-first i (current ++ new) [] ∙ ground (arith, last_with-append i current new),
      ),
    )
