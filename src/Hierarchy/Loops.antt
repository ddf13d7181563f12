-- ===== src/Hierarchy/Loops.antt =====
-- The walk to the top terminates on links without a loop, and it refuses exactly the new parents that
-- would close one.
use projects_backend.Base.{
  ◌==◌, ==_iff, Bool-cases, ℕ, zero, suc, ◌≤◌, ◌<◌, ◌≡◌, refl, sym, subst, inl, inr, Bool, true,
  false, Option, none, some, arith,
}
use projects_backend.Hierarchy.{meets, ends_in, IsAcyclic, relink}

-- On a chain that ends, as much fuel as the chain is long, and one more, gives an answer.
pub meets_total :
    (up : ℕ → Option ℕ) (i k fuel : ℕ) (at : Option ℕ)
    → ends_in up k at ≡ true
    → k < fuel
    → (b : Bool) × (meets up i fuel at ≡ some b)
unfolding meets ends_in
meets_total up i k zero at ends enough = elim enough [ ]
meets_total up i zero (suc fuel) none ends enough = (false, refl)
meets_total up i zero (suc fuel) (some p) ends enough = cc
meets_total up i (suc k) (suc fuel) none ends enough = (false, refl)
meets_total up i (suc k) (suc fuel) (some p) ends enough = elim (Bool-cases (i == p)) [
  | inl e ↦ (true, rw e)
  | inr e ↦ let (b, rest) = meets_total up i k fuel (up p) ends (omega arith) in (b, rw (e, rest))
]

relink_self : (up : ℕ → Option ℕ) (i : ℕ) (v : Option ℕ) → relink up i v i ≡ v
relink_self up i v = ground arith

relink_other :
    (up : ℕ → Option ℕ) (i : ℕ) (v : Option ℕ) (p : ℕ) → (i == p) ≡ false → relink up i v p ≡ up p
relink_other up i v p e = ground arith

-- A walk that does not meet the instance is a walk over the new links too, so it ends.
unmet_ends :
    (up : ℕ → Option ℕ) (i : ℕ) (v : Option ℕ) (fuel : ℕ) (at : Option ℕ)
    → meets up i fuel at ≡ some false
    → ends_in (relink up i v) fuel at ≡ true
unfolding meets ends_in
unmet_ends up i v zero at h = cc
unmet_ends up i v (suc fuel) none h = refl
unmet_ends up i v (suc fuel) (some p) h = elim (Bool-cases (i == p)) [
  | inl e ↦ ground arith
  | inr e ↦ rw (relink_other up i v p e) (unmet_ends up i v fuel (up p) (ground arith))
]

-- Any chain that ended ends over the new links, at the latest after a detour through the instance.
still_ends :
    (up : ℕ → Option ℕ) (i : ℕ) (v : Option ℕ) (rest k : ℕ) (at : Option ℕ)
    → ends_in (relink up i v) rest v ≡ true
    → ends_in up k at ≡ true
    → (m : ℕ) × (ends_in (relink up i v) m at ≡ true)
unfolding ends_in
still_ends up i v rest zero none hv h = (0, refl)
still_ends up i v rest zero (some p) hv h = cc
still_ends up i v rest (suc k) none hv h = (0, refl)
still_ends up i v rest (suc k) (some p) hv h = elim (Bool-cases (i == p)) [
  | inl e ↦ (suc rest, subst (λ x. ends_in (relink up i v) rest x ≡ true) (sym (ground arith)) hv)
  | inr e ↦
      let (m, ends) = still_ends up i v rest k (up p) hv h in
      (suc m, rw (relink_other up i v p e) ends)
]

-- A parent that the walk accepts closes no loop.
pub accepted_parent-IsAcyclic :
    (up : ℕ → Option ℕ) (i : ℕ) (v : Option ℕ) (fuel : ℕ)
    → IsAcyclic up
    → meets up i fuel v ≡ some false
    → IsAcyclic (relink up i v)
accepted_parent-IsAcyclic up i v fuel ends accepted n =
    let (k, chain) = ends n in
    still_ends up i v fuel k (some n) (unmet_ends up i v fuel v accepted) chain

-- Over the new links, a chain that the walk follows to the instance goes on through it.
reaches_instance :
    (up : ℕ → Option ℕ) (i : ℕ) (v : Option ℕ) (fuel m : ℕ) (at : Option ℕ)
    → meets up i fuel at ≡ some true
    → ends_in (relink up i v) m at ≡ true
    → (m' : ℕ) × (m' ≤ m) × (ends_in (relink up i v) m' (some i) ≡ true)
unfolding meets ends_in
reaches_instance up i v zero m at h ends = cc
reaches_instance up i v (suc fuel) m none h ends = cc
reaches_instance up i v (suc fuel) zero (some p) h ends = cc
reaches_instance up i v (suc fuel) (suc m) (some p) h ends = elim (Bool-cases (i == p)) [
  | inl e ↦ (
    suc m,
    omega arith,
    subst (λ x. ends_in (relink up i v) (suc m) (some x) ≡ true) (sym ((==_iff i p).0 e)) ends,
  )
  | inr e ↦
      let (m', le, rest) =
        reaches_instance up i v fuel m (up p) (ground arith)
          (rw (relink_other up i v p e) at ends) in
      (m', omega arith, rest)
]

no_end :
    (up : ℕ → Option ℕ) (i : ℕ) (v : Option ℕ) (fuel bound m : ℕ)
    → meets up i fuel v ≡ some true
    → m < bound
    → ends_in (relink up i v) m (some i) ≡ true
    → ⊥
unfolding ends_in
no_end up i v fuel zero m h lt ends = elim lt [ ]
no_end up i v fuel (suc bound) zero h lt ends = cc
no_end up i v fuel (suc bound) (suc m) h lt ends =
    let (m', le, again) = reaches_instance up i v fuel m v h (rw (relink_self up i v) at ends) in
    no_end up i v fuel bound m' h (omega arith) again

-- A parent that the walk refuses would close a loop.
pub refused_parent_loops :
    (up : ℕ → Option ℕ) (i : ℕ) (v : Option ℕ) (fuel : ℕ)
    → meets up i fuel v ≡ some true
    → ¬ IsAcyclic (relink up i v)
refused_parent_loops up i v fuel refused ends =
    let (k, chain) = ends i in no_end up i v fuel (suc k) k refused (omega arith) chain
