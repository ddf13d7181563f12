-- ===== src/Hierarchy/Organizations/Levels.antt =====
-- The loop of apps/organizations/utils.py lists the levels of a search, one after the other.
use projects_backend.Base.{
  Bool-cases, mem, mem-append, ℕ, zero, suc, ◌<◌, ◌≡◌, refl, ap, inl, inr, true, Option, none, some,
  List, [], ◌∷◌, ◌++◌, arith,
}
use projects_backend.Hierarchy.Organizations.{hierarchy_loop}

round_of :
    (xs out : List ℕ) (later : Option (List ℕ))
    → ◌≡◌ {A = Option (List ℕ)}
        (elim later [ none ↦ none | some rest ↦ some (xs ++ rest) ])
        (some out)
    → (rest : List ℕ) × (later ≡ some rest) × (out ≡ xs ++ rest)
round_of xs out none h = cc
round_of xs out (some rest) h = (rest, refl, cc)

module _ (next : List ℕ → List ℕ) where
  -- the identifiers that the loop holds in round `k`
  unfoldable pub level : ℕ → List ℕ → List ℕ
  level zero ids = ids
  level (suc k) ids = level k (next ids)

  -- One round of the loop that returns.
  loop_round :
      (fuel y : ℕ) (ys out : List ℕ)
      → hierarchy_loop next (suc fuel) (y ∷ ys) ≡ some out
      → (rest : List ℕ) × (hierarchy_loop next fuel (next (y ∷ ys)) ≡ some rest)
        × (out ≡ (y ∷ ys) ++ rest)
  unfolding hierarchy_loop
  loop_round fuel y ys out h = round_of (y ∷ ys) out _ h

  -- What the loop returns stands in one of the levels.
  pub loop_sound :
      (fuel : ℕ) (ids out : List ℕ) (x : ℕ)
      → hierarchy_loop next fuel ids ≡ some out
      → mem x out ≡ true
      → (k : ℕ) × (mem x (level k ids) ≡ true)
  unfolding hierarchy_loop level
  loop_sound zero ids out x h m = cc
  loop_sound (suc fuel) [] out x h m = (0, ground arith)
  loop_sound (suc fuel) (y ∷ ys) out x h m =
      let (rest, later, e) = loop_round fuel y ys out h in
      elim (Bool-cases (mem x (y ∷ ys))) [
        | inl now ↦ (0, now)
        | inr not_now ↦
            let in_rest : mem x rest ≡ true = ground (arith, mem-append x (y ∷ ys) rest) in
            let (k, there) = loop_sound fuel (next (y ∷ ys)) rest x later in_rest in (suc k, there)
      ]

  level_of_none : next [] ≡ [] → (k : ℕ) → level k [] ≡ []
  unfolding level
  level_of_none h zero = refl
  level_of_none h (suc k) = rw h (level_of_none h k)

  -- Whatever stands in one of the levels is returned.
  pub loop_complete :
      (fuel : ℕ) (ids out : List ℕ) (x k : ℕ)
      → next [] ≡ []
      → hierarchy_loop next fuel ids ≡ some out
      → mem x (level k ids) ≡ true
      → mem x out ≡ true
  unfolding hierarchy_loop level
  loop_complete zero ids out x k stop h m = cc
  loop_complete (suc fuel) [] out x k stop h m = cc (ap (mem x) (level_of_none stop k))
  loop_complete (suc fuel) (y ∷ ys) out x zero stop h m =
      let (rest, later, e) = loop_round fuel y ys out h in
      rw e (ground (arith, mem-append x (y ∷ ys) rest))
  loop_complete (suc fuel) (y ∷ ys) out x (suc k) stop h m =
      let (rest, later, e) = loop_round fuel y ys out h in
      let there = loop_complete fuel (next (y ∷ ys)) rest x k stop later m in
      rw e (ground (arith, mem-append x (y ∷ ys) rest))

  -- A level with nobody in it ends the loop: as much fuel as the levels before it, and one more, is
  -- enough.
  pub loop_total :
      (k fuel : ℕ) (ids : List ℕ)
      → level k ids ≡ []
      → k < fuel
      → (out : List ℕ) × (hierarchy_loop next fuel ids ≡ some out)
  unfolding hierarchy_loop level
  loop_total k zero ids h enough = elim enough [ ]
  loop_total k (suc fuel) [] h enough = ([], refl)
  loop_total zero (suc fuel) (y ∷ ys) h enough = absurd (cc)
  loop_total (suc k) (suc fuel) (y ∷ ys) h enough =
      let (rest, later) = loop_total k fuel (next (y ∷ ys)) h (omega arith) in
      ((y ∷ ys) ++ rest, rw later)
