-- ===== src/Hierarchy/Parents/Validation.antt =====
-- The parent checks of people groups and of project categories keep the two hierarchies forests.
use projects_backend.Base.{
  if◌then◌else◌, Bool-cases, is_some, Result, ok, err, ℕ, ◌<◌, ◌≡◌, refl, ap, subst₂, inl, inr,
  Bool, true, false, not, ◌&&◌, Option, none, some, List,
}
use projects_backend.Hierarchy.Parents.{
  other_organization, is_non_root_row, is_root_row, ParentErrors, walk, default_parent,
  check_parent, validate_parent, save_parent, organization_code, loop_answer,
}
use projects_backend.Hierarchy.{ends_in}
use projects_backend.Hierarchy.Rows.{Node, Table, find_row, parent_of}
use projects_backend.Hierarchy.Rows.Laws.{
  IsForest, chain_ends, new_row-IsForest, set_parent-IsForest,
}
use projects_backend.Hierarchy.Parents.Roots.{
  walk_total, update_or_create_root_keeps, IsKnown, default_parent-IsForest,
}

module _ {E : Type 0} (errors : ParentErrors E) where
  loop_answer_total :
      (v : Option ℕ) (answer : Option Bool) (b : Bool)
      → answer ≡ some b
      → (r : Result E (Option ℕ)) × (loop_answer errors v answer ≡ some r)
  loop_answer_total v answer true h = (err errors.hierarchy_loop, rw h)
  loop_answer_total v answer false h = (ok v, rw h)

  check_parent_total :
      (code k fuel : ℕ) (instance_row : Option Node) (v : Option ℕ) (rows : List Node)
      → ends_in (parent_of rows) k v ≡ true
      → k < fuel
      → (r : Result E (Option ℕ)) × (check_parent errors fuel code instance_row v rows ≡ some r)
  unfolding check_parent
  check_parent_total code k fuel instance_row v rows ends enough =
      elim (Bool-cases (is_some v && is_root_row instance_row)) [
        | inl e ↦ (err errors.root_parent, rw e)
        | inr e ↦ elim (Bool-cases (not (is_some v) && is_non_root_row instance_row)) [
          | inl e2 ↦ (err errors.non_root_parent, rw (e, e2))
          | inr e2 ↦ elim (Bool-cases (other_organization code rows v)) [
            | inl e3 ↦ (err errors.parent_organization, rw (e, e2, e3))
            | inr e3 ↦
                let (b, answer) = walk_total rows instance_row k fuel v ends enough in
                let (r, done) = loop_answer_total v (walk rows instance_row fuel v) b answer in
                (r, rw (e, e2, e3) done)
          ]
        ]
      ]

  -- On a forest the validation of a known parent comes to an answer, a parent or an exception,
  -- whatever the fuel above some bound.
  pub validate_parent_total :
      (initial : ℕ) (instance_row : Option Node) (v : Option ℕ) (t : Table)
      → IsForest t
      → IsKnown v t
      → (k : ℕ) × ((fuel : ℕ)
          → k < fuel
          → (r : Result E (Option ℕ)) × ((validate_parent errors fuel initial instance_row v t).0
              ≡ some r))
  unfolding validate_parent
  validate_parent_total initial instance_row v t f known =
      let code = organization_code initial instance_row in
      let (forest, _, _) = default_parent-IsForest code instance_row v t f known in
      let (k, ends) =
        chain_ends (parent_of (default_parent code instance_row v t).1.rows)
          (default_parent code instance_row v t).0 forest.acyclic in
      (k, λ fuel enough. check_parent_total code k fuel instance_row _ _ ends enough)

  loop_answer_ok :
      (v w : Option ℕ) (answer : Option Bool)
      → loop_answer errors v answer ≡ some (ok w)
      → (v ≡ w) × (answer ≡ some false)
  loop_answer_ok v w none h = cc
  loop_answer_ok v w (some true) h = cc
  loop_answer_ok v w (some false) h = (cc, refl)

  -- A check that returns has passed its three guards.
  past_guards :
      (a b c : Bool) (e1 e2 e3 : E) (rest : Option (Result E (Option ℕ))) (w : Option ℕ)
      → (if a
          then some (err e1)
          else if b
          then some (err e2)
          else if c
          then some (err e3)
          else rest)
        ≡ some (ok w)
      → (a ≡ false) × (b ≡ false) × (c ≡ false) × (rest ≡ some (ok w))
  past_guards true b c e1 e2 e3 rest w h = cc
  past_guards false true c e1 e2 e3 rest w h = cc
  past_guards false false true e1 e2 e3 rest w h = cc
  past_guards false false false e1 e2 e3 rest w h = (refl, refl, refl, h)

  -- A parent that the checks return is the one they were given, it lies in the organization, a root
  -- has none and any other row has one, and the walk to the top did not meet the row.
  check_parent_ok :
      (fuel code : ℕ) (instance_row : Option Node) (v w : Option ℕ) (rows : List Node)
      → check_parent errors fuel code instance_row v rows ≡ some (ok w)
      → (v ≡ w)
        × (walk rows instance_row fuel v ≡ some false)
        × (other_organization code rows v ≡ false)
        × ((is_some v && is_root_row instance_row) ≡ false)
        × ((not (is_some v) && is_non_root_row instance_row) ≡ false)
  unfolding check_parent
  check_parent_ok fuel code instance_row v w rows h =
      let (a, b, c, rest) =
        past_guards (is_some v && is_root_row instance_row)
          (not (is_some v) && is_non_root_row instance_row) (other_organization code rows v)
          errors.root_parent errors.non_root_parent errors.parent_organization
          (loop_answer errors v (walk rows instance_row fuel v)) w h in
      let (same, unmet) = loop_answer_ok v w (walk rows instance_row fuel v) rest in
      (same, unmet, c, a, b)

  -- The row that is written is there, or it is a new one.
  abbrev IsPresent : Option Node → Table → Type 0
  IsPresent none t = Unit
  IsPresent (some i) t = find_row i.id t.rows ≡ some i

  save_parent-IsForest :
      (fuel code : ℕ) (instance_row : Option Node) (v : Option ℕ) (t : Table)
      → IsForest t
      → IsPresent instance_row t
      → IsKnown v t
      → walk t.rows instance_row fuel v ≡ some false
      → IsForest (save_parent code instance_row v t)
  save_parent-IsForest fuel code none v t f present known unmet = new_row-IsForest t _ f refl known
  save_parent-IsForest fuel code (some i) v t f present known unmet =
      set_parent-IsForest t i.id v i fuel f present known unmet

  default_parent-IsPresent :
      (code : ℕ) (instance_row : Option Node) (v : Option ℕ) (t : Table)
      → IsPresent instance_row t
      → IsPresent instance_row (default_parent code instance_row v t).1
  unfolding default_parent
  default_parent-IsPresent code none v t present = tt
  default_parent-IsPresent code (some i) (some v) t present = present
  default_parent-IsPresent code (some i) none t present = elim (Bool-cases i.is_root) [
    | inl root ↦ simp root present
    | inr other ↦ simp other (update_or_create_root_keeps code i.id t i present)
  ]

  -- A validated parent that is saved, of a new row or of a row of the table, keeps the hierarchy a
  -- forest. It is a row of the same organization, and a root has no parent.
  pub validated_parent-IsForest :
      (fuel initial : ℕ) (instance_row : Option Node) (v w : Option ℕ) (t t' : Table)
      → IsForest t
      → IsPresent instance_row t
      → IsKnown v t
      → validate_parent errors fuel initial instance_row v t ≡ (some (ok w), t')
      → IsForest (save_parent (organization_code initial instance_row) instance_row w t')
        × (other_organization (organization_code initial instance_row) t'.rows w ≡ false)
        × ((is_some w && is_root_row instance_row) ≡ false)
        × ((not (is_some w) && is_non_root_row instance_row) ≡ false)
  unfolding validate_parent
  validated_parent-IsForest fuel initial instance_row v w t t' f present known h =
      let code = organization_code initial instance_row in
      let d = default_parent code instance_row v t in
      let (forest, known', _) = default_parent-IsForest code instance_row v t f known in
      let (same, unmet, there, a, b) =
        check_parent_ok fuel code instance_row d.0 w d.1.rows (ap (λ p. p.0) h) in
      let saved =
        save_parent-IsForest fuel code instance_row d.0 d.1 forest
          (default_parent-IsPresent code instance_row v t present) known' unmet in
      subst₂
        (λ (x : Option ℕ) (y : Table).
          IsForest (save_parent code instance_row x y)
          × (other_organization code y.rows x ≡ false)
          × ((is_some x && is_root_row instance_row) ≡ false)
          × ((not (is_some x) && is_non_root_row instance_row) ≡ false))
        same (ap (λ p. p.1) h) (saved, there, a, b)
