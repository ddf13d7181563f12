-- ===== src/Hierarchy/Rows/Laws.antt =====
-- How the writes to the table of a model with parents change the parent links.
use projects_backend.Base.{
  ◌==◌, if◌then◌else◌, ==_iff, Bool-cases, Option-cases, is_some, ℕ, zero, suc, ◌<◌, ◌≡◌, refl, sym,
  ap, fun_ext, subst, ◌∙◌, inl, inr, true, false, Option, none, some, List, [], ◌∷◌, ◌++◌, arith,
}
use projects_backend.Hierarchy.{ends_in, relink, IsAcyclic, meets}
use projects_backend.Hierarchy.Loops.{accepted_parent-IsAcyclic, meets_total}
use projects_backend.Hierarchy.Rows.{
  parent_link, Node, Table, find_row, parent_of, new_row, set_parent,
}

-- The integrity of the table: identifiers in use are below the next one, a parent is a row of the
-- table, and no chain of parents loops.
pub record IsForest (t : Table) : Type 0 where
  pub fresh : (n : ℕ) → is_some (find_row n t.rows) ≡ true → n < t.next_id
  pub closed : (n p : ℕ) → parent_of t.rows n ≡ some p → p < t.next_id
  pub acyclic : IsAcyclic (parent_of t.rows)

set_parent_other :
    (i : ℕ) (v : Option ℕ) (rows : List Node) (n : ℕ)
    → (n == i) ≡ false
    → parent_of (set_parent i v rows) n ≡ parent_of rows n
unfolding parent_of find_row set_parent
set_parent_other i v [] n h = refl
set_parent_other i v (x ∷ xs) n h = elim (Bool-cases (x.id == i)) [
  | inl e ↦ rw e (ground (arith, set_parent_other i v xs n h))
  | inr e ↦ rw e (ground (arith, set_parent_other i v xs n h))
]

set_parent_self :
    (i : ℕ) (v : Option ℕ) (rows : List Node) (r : Node)
    → find_row i rows ≡ some r
    → parent_of (set_parent i v rows) i ≡ v
unfolding parent_of find_row set_parent
set_parent_self i v [] r h = cc
set_parent_self i v (x ∷ xs) r h = elim (Bool-cases (x.id == i)) [
  | inl e ↦ rw e (rw e)
  | inr e ↦ rw e (rw e (set_parent_self i v xs r (ground arith)))
]

parent_of-set_parent_at :
    (i : ℕ) (v : Option ℕ) (rows : List Node) (r : Node) (n : ℕ)
    → find_row i rows ≡ some r
    → parent_of (set_parent i v rows) n ≡ relink (parent_of rows) i v n
parent_of-set_parent_at i v rows r n h = elim (Bool-cases (n == i)) [
  | inl e ↦ rw e (
      subst (λ x. parent_of (set_parent i v rows) x ≡ v) (sym ((==_iff n i).0 e))
        (set_parent_self i v rows r h))
  | inr e ↦ rw e (set_parent_other i v rows n e)
]

-- Giving a parent to a row of the table relinks that row alone.
parent_of-set_parent :
    (i : ℕ) (v : Option ℕ) (rows : List Node) (r : Node)
    → find_row i rows ≡ some r
    → parent_of (set_parent i v rows) ≡ relink (parent_of rows) i v
parent_of-set_parent i v rows r h = fun_ext (λ n. parent_of-set_parent_at i v rows r n h)

pub find_row-append :
    (n : ℕ) (xs : List Node) (x : Node)
    → find_row n (xs ++ x ∷ [])
      ≡ (if is_some (find_row n xs) then find_row n xs else if x.id == n then some x else none)
unfolding find_row
find_row-append n [] x = refl
find_row-append n (y ∷ xs) x = ground (arith, find_row-append n xs x)

is_some-find_row-set_parent :
    (n i : ℕ) (v : Option ℕ) (rows : List Node)
    → is_some (find_row n (set_parent i v rows)) ≡ is_some (find_row n rows)
unfolding find_row set_parent
is_some-find_row-set_parent n i v [] = refl
is_some-find_row-set_parent n i v (x ∷ xs) = elim (Bool-cases (x.id == i)) [
  | inl e ↦ rw e (ground (arith, is_some-find_row-set_parent n i v xs))
  | inr e ↦ rw e (ground (arith, is_some-find_row-set_parent n i v xs))
]

-- A parent that the walk accepts keeps the table a forest.
pub set_parent-IsForest :
    (t : Table) (i : ℕ) (v : Option ℕ) (r : Node) (fuel : ℕ)
    → IsForest t
    → find_row i t.rows ≡ some r
    → ((p : ℕ) → v ≡ some p → p < t.next_id)
    → meets (parent_of t.rows) i fuel v ≡ some false
    → IsForest (record t { rows = set_parent i v t.rows })
set_parent-IsForest t i v r fuel f found below accepted = record {
  fresh = λ n h. f.fresh n (sym (is_some-find_row-set_parent n i v t.rows) ∙ h);
  closed = λ n p h. elim (Bool-cases (n == i)) [
    | inl e ↦ below p (relink_at n e ∙ h)
    | inr e ↦ f.closed n p (sym (set_parent_other i v t.rows n e) ∙ h)
  ];
  acyclic =
      subst IsAcyclic (sym (parent_of-set_parent i v t.rows r found))
        (accepted_parent-IsAcyclic (parent_of t.rows) i v fuel f.acyclic accepted);
}
  where
    relink_at : (n : ℕ) → (n == i) ≡ true → v ≡ parent_of (set_parent i v t.rows) n
    relink_at n e = sym (
        subst (λ x. parent_of (set_parent i v t.rows) x ≡ v) (sym ((==_iff n i).0 e))
          (set_parent_self i v t.rows r found))

-- The next identifier names no row yet.
next_id_free : (t : Table) → IsForest t → find_row t.next_id t.rows ≡ none
next_id_free t f = elim (Option-cases (find_row t.next_id t.rows)) [
  | inl e ↦ e
  | inr (r, e) ↦ absurd (lt_irrefl (f.fresh t.next_id (rw e)))
]
  where
    lt_irrefl : t.next_id < t.next_id → ⊥
    lt_irrefl h = omega arith

parent_of-new_row :
    (t : Table) (r : Node)
    → IsForest t
    → r.id ≡ t.next_id
    → parent_of (new_row r t).rows ≡ relink (parent_of t.rows) t.next_id r.parent
unfolding parent_of
parent_of-new_row t r f e = fun_ext λ n. elim (Bool-cases (n == t.next_id)) [
  | inl same ↦ rw same (ap parent_link (new_found n same))
  | inr other ↦ rw other (ap parent_link (old_found n other))
]
  where
    new_found : (n : ℕ) → (n == t.next_id) ≡ true → find_row n (t.rows ++ r ∷ []) ≡ some r
    new_found n same =
        let absent : find_row n t.rows ≡ none =
          subst (λ x. find_row x t.rows ≡ none) (sym ((==_iff n t.next_id).0 same))
            (next_id_free t f) in
        find_row-append n t.rows r ∙ rw absent (ground arith)

    old_found :
        (n : ℕ) → (n == t.next_id) ≡ false → find_row n (t.rows ++ r ∷ []) ≡ find_row n t.rows
    old_found n other = ground (arith, find_row-append n t.rows r)

-- A walk from an identifier in use never meets the next one.
meets_next_id :
    (t : Table) (fuel : ℕ) (at : Option ℕ)
    → IsForest t
    → ((p : ℕ) → at ≡ some p → p < t.next_id)
    → meets (parent_of t.rows) t.next_id fuel at ≡ some true
    → ⊥
unfolding meets
meets_next_id t zero at f below h = cc
meets_next_id t (suc fuel) none f below h = cc
meets_next_id t (suc fuel) (some p) f below h =
    meets_next_id t fuel (parent_of t.rows p) f (f.closed p) (ground (arith, below p refl))

pub chain_ends :
    (up : ℕ → Option ℕ) (at : Option ℕ) → IsAcyclic up → (k : ℕ) × (ends_in up k at ≡ true)
unfolding ends_in
chain_ends up none h = (0, refl)
chain_ends up (some p) h = h p

-- A walk to the top from an identifier in use answers that it does not meet the next one.
unmet_next_id :
    (t : Table) (at : Option ℕ)
    → IsForest t
    → ((p : ℕ) → at ≡ some p → p < t.next_id)
    → (fuel : ℕ) × (meets (parent_of t.rows) t.next_id fuel at ≡ some false)
unmet_next_id t at f below =
    let (k, ends) = chain_ends (parent_of t.rows) at f.acyclic in
    let (b, answer) = meets_total (parent_of t.rows) t.next_id k (suc k) at ends (omega arith) in
    (
      suc k,
      elim (Bool-cases b) [
        | inl yes_b ↦ absurd (meets_next_id t (suc k) at f below (answer ∙ ap some yes_b))
        | inr no_b ↦ answer ∙ ap some no_b
      ],
    )

-- A new row whose parent is a row of the table keeps the table a forest.
pub new_row-IsForest :
    (t : Table) (r : Node)
    → IsForest t
    → r.id ≡ t.next_id
    → ((p : ℕ) → r.parent ≡ some p → p < t.next_id)
    → IsForest (new_row r t)
new_row-IsForest t r f e below = record {
  fresh = λ n h. ground (arith, find_row-append n t.rows r, f.fresh n);
  closed = λ n p h. elim (Bool-cases (n == t.next_id)) [
    | inl same ↦ omega (arith, below p (at_new n same ∙ h))
    | inr other ↦ omega (arith, f.closed n p (at_old n other ∙ h))
  ];
  acyclic =
      let (fuel, unmet) = unmet_next_id t r.parent f below in
      subst IsAcyclic (sym (parent_of-new_row t r f e))
        (accepted_parent-IsAcyclic (parent_of t.rows) t.next_id r.parent fuel f.acyclic unmet);
}
  where
    at_link :
        (n : ℕ) → relink (parent_of t.rows) t.next_id r.parent n ≡ parent_of (new_row r t).rows n
    at_link n = ap (λ (up : ℕ → Option ℕ). up n) (sym (parent_of-new_row t r f e))

    at_new : (n : ℕ) → (n == t.next_id) ≡ true → r.parent ≡ parent_of (new_row r t).rows n
    at_new n same = rw same at (at_link n)

    at_old :
        (n : ℕ) → (n == t.next_id) ≡ false → parent_of t.rows n ≡ parent_of (new_row r t).rows n
    at_old n other = rw other at (at_link n)
