-- ===== src/Hierarchy/Organizations/Reach.antt =====
-- What `get_below_hierarchy_codes` and `get_below_categories_hierarchy_ids` of
-- apps/organizations/utils.py return: the descendants, in finitely many rounds.
use projects_backend.Base.{
  ◌==◌, ==_iff, Bool-cases, Option-cases, is_some, mem, mem-filter, ℕ, zero, suc, ◌≤◌, ◌<◌, ◌≡◌,
  refl, sym, ap, subst, ◌∙◌, ◌↔◌, inl, inr, Bool, true, false, Option, none, some, List, [], ◌∷◌,
  arith,
}
use Prim.Native.Nat.{max}
use projects_backend.Hierarchy.{ends_in, IsAcyclic}
use projects_backend.Hierarchy.Rows.{Node, find_row, parent_of, parent_link}
use projects_backend.Hierarchy.Organizations.{
  ids_of, parent_in, children_of, get_below_hierarchy_codes, get_below_categories_hierarchy_ids,
}
use projects_backend.Hierarchy.Organizations.Levels.{level, loop_sound, loop_complete, loop_total}

-- a test of the parent, where there is one
abbrev through : Option ℕ → (ℕ → Bool) → Bool
through none test = false
through (some p) test = test p

parent_in-through : (ids : List ℕ) (o : Option ℕ) → parent_in ids o ≡ through o (λ p. mem p ids)
parent_in-through ids none = refl
parent_in-through ids (some p) = refl

-- Whether `x` is `k` steps below one of some identifiers.
pub descends : List Node → ℕ → ℕ → List ℕ → Bool
descends rows zero x ids = mem x ids
descends rows (suc k) x ids = through (parent_of rows x) (λ p. descends rows k p ids)

mem-ids_of : (x : ℕ) (rows : List Node) → mem x (ids_of rows) ≡ is_some (find_row x rows)
unfolding find_row
mem-ids_of x [] = refl
mem-ids_of x (r ∷ rs) = ground (arith, mem-ids_of x rs)

-- Only a row has a parent.
child_is_row :
    (rows : List Node) (x : ℕ) (ids : List ℕ)
    → parent_in ids (parent_of rows x) ≡ true
    → mem x (ids_of rows) ≡ true
unfolding parent_of
child_is_row rows x ids h = elim (Option-cases (find_row x rows)) [
  | inl e ↦ cc (ap (λ o. parent_in ids (parent_link o)) e)
  | inr (r, e) ↦ mem-ids_of x rows ∙ rw e
]

mem-children_of :
    (rows : List Node) (ids : List ℕ) (x : ℕ)
    → mem x (children_of rows ids) ≡ parent_in ids (parent_of rows x)
unfolding children_of
mem-children_of rows ids x = elim (Bool-cases (parent_in ids (parent_of rows x))) [
  | inl e ↦
      mem-filter (λ y. parent_in ids (parent_of rows y)) x (ids_of rows)
      ∙ rw (e, child_is_row rows x ids e)
  | inr e ↦ mem-filter (λ y. parent_in ids (parent_of rows y)) x (ids_of rows) ∙ rw e
]

-- One step down from the children is two steps down.
descends-children_of :
    (rows : List Node) (k x : ℕ) (ids : List ℕ)
    → descends rows k x (children_of rows ids) ≡ descends rows (suc k) x ids
unfolding descends
descends-children_of rows zero x ids =
    mem-children_of rows ids x ∙ parent_in-through ids (parent_of rows x)
descends-children_of rows (suc k) x ids = elim (Option-cases (parent_of rows x)) [
  | inl e ↦ rw e
  | inr (p, e) ↦ rw e (descends-children_of rows k p ids)
]

mem-level :
    (rows : List Node) (k : ℕ) (ids : List ℕ) (x : ℕ)
    → mem x (level (children_of rows) k ids) ≡ descends rows k x ids
unfolding level descends
mem-level rows zero ids x = refl
mem-level rows (suc k) ids x =
    mem-level rows k (children_of rows ids) x ∙ descends-children_of rows k x ids

parent_in-nil : (o : Option ℕ) → parent_in [] o ≡ false
parent_in-nil none = refl
parent_in-nil (some p) = refl

no_parent : false ≡ true → ⊥
no_parent h = cc

-- A chain to the top is longer than the way down to its start.
descends_lt :
    (rows : List Node) (k n x : ℕ) (ids : List ℕ)
    → ends_in (parent_of rows) n (some x) ≡ true
    → descends rows k x ids ≡ true
    → k < n
unfolding descends ends_in
descends_lt rows k zero x ids ends h = cc
descends_lt rows zero (suc n) x ids ends h = omega arith
descends_lt rows (suc k) (suc n) x ids ends h = elim (Option-cases (parent_of rows x)) [
  | inl e ↦ absurd (no_parent (rw e at h))
  | inr (p, e) ↦ omega (arith, descends_lt rows k n p ids (rw e at ends) (rw e at h))
]

module _ (rows : List Node) (ends : IsAcyclic (parent_of rows)) where
  -- A bound on the chains from some identifiers.
  longest : List ℕ → ℕ
  longest [] = 0
  longest (x ∷ xs) = max (ends x).0 (longest xs)

  chain-le-longest : (x : ℕ) (xs : List ℕ) → mem x xs ≡ true → (ends x).0 ≤ longest xs
  unfolding longest
  chain-le-longest x [] h = cc
  chain-le-longest x (y ∷ ys) h = elim (Bool-cases (x == y)) [
    | inl e ↦
        subst (λ z. (ends z).0 ≤ max (ends y).0 (longest ys)) (sym ((==_iff x y).0 e)) (omega arith)
    | inr e ↦ let below = chain-le-longest x ys (ground arith) in omega (arith, below)
  ]

  nobody : (xs : List ℕ) → ((x : ℕ) → mem x xs ≡ true → ⊥) → xs ≡ []
  nobody [] h = refl
  nobody (x ∷ xs) h = absurd (h x (ground arith))

  descendant_is_row :
      (k x : ℕ) (ids : List ℕ) → descends rows (suc k) x ids ≡ true → mem x (ids_of rows) ≡ true
  unfolding descends parent_of
  descendant_is_row k x ids h = elim (Option-cases (find_row x rows)) [
    | inl e ↦ absurd (no_parent (rw e at h))
    | inr (r, e) ↦ mem-ids_of x rows ∙ rw e
  ]

  -- Below the longest chain of the rows there is nobody.
  last_level : (ids : List ℕ) → level (children_of rows) (suc (longest (ids_of rows))) ids ≡ []
  last_level ids = nobody _ λ x there.
      let down = sym (mem-level rows (suc (longest (ids_of rows))) ids x) ∙ there in
      let short = descends_lt rows (suc (longest (ids_of rows))) (ends x).0 x ids (ends x).1 down in
      let long : (ends x).0 ≤ longest (ids_of rows) =
        chain-le-longest x (ids_of rows) (descendant_is_row (longest (ids_of rows)) x ids down) in
      omega (arith, short, long)

  none_below : children_of rows [] ≡ []
  none_below = nobody _ λ x h.
      no_parent (sym (parent_in-nil (parent_of rows x)) ∙ sym (mem-children_of rows [] x) ∙ h)

  -- On rows without a loop, with any fuel above some bound, the search below returns, and what it
  -- returns are exactly the given identifiers and all that are some steps below one of them.
  pub below_hierarchy_exact :
      (ids : List ℕ)
      → (k : ℕ) × ((fuel : ℕ)
          → k < fuel
          → (out : List ℕ) × (get_below_hierarchy_codes rows fuel ids ≡ some out)
            × (get_below_categories_hierarchy_ids rows fuel ids ≡ some out)
            × ((x : ℕ) → (mem x out ≡ true) ↔ ((d : ℕ) × (descends rows d x ids ≡ true))))
  unfolding get_below_hierarchy_codes get_below_categories_hierarchy_ids
  below_hierarchy_exact ids = (
    suc (longest (ids_of rows)),
    λ fuel enough.
        let (out, done) =
          loop_total (children_of rows) (suc (longest (ids_of rows))) fuel ids (last_level ids)
            enough in
        (
          out,
          done,
          done,
          λ x. (
            λ there.
                let (d, at) = loop_sound (children_of rows) fuel ids out x done there in
                (d, sym (mem-level rows d ids x) ∙ at),
            λ (d, down).
                loop_complete (children_of rows) fuel ids out x d none_below done
                  (mem-level rows d ids x ∙ down),
          ),
        ),
  )
