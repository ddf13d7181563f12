-- ===== src/Projects/Links/Counts.antt =====
-- apps/projects/views.py: how often the table of links joins two projects, and has an id.
use projects_backend.Base.{
  ◌==◌, if◌then◌else◌, ==_iff, Bool-cases, any, filter, ok, ℕ, ◌+◌, ◌≤◌, ◌≡◌, refl, subst₂, inl,
  inr, Bool, false, List, [], ◌∷◌, ◌++◌, arith,
}
use projects_backend.Projects.Links.{Link, LinkUser, joins, validate_pair, validate_ends, except}

abbrev pub pair_count : ℕ → ℕ → List Link → ℕ
pair_count p t [] = 0
pair_count p t (l ∷ ls) = (if joins p t l then 1 else 0) + pair_count p t ls

abbrev pub id_count : ℕ → List Link → ℕ
id_count k [] = 0
id_count k (l ∷ ls) = (if l.id == k then 1 else 0) + id_count k ls

pub pair_count-filter :
    (p t : ℕ) (f : Link → Bool) (ls : List Link) → pair_count p t (filter f ls) ≤ pair_count p t ls
pair_count-filter p t f [] = omega arith
pair_count-filter p t f (l ∷ ls) = ground (arith, pair_count-filter p t f ls)

pub id_count-filter :
    (k : ℕ) (f : Link → Bool) (ls : List Link) → id_count k (filter f ls) ≤ id_count k ls
id_count-filter k f [] = omega arith
id_count-filter k f (l ∷ ls) = ground (arith, id_count-filter k f ls)

pub pair_count-append :
    (p t : ℕ) (xs ys : List Link)
    → pair_count p t (xs ++ ys) ≡ pair_count p t xs + pair_count p t ys
pair_count-append p t [] ys = omega arith
pair_count-append p t (x ∷ xs) ys = omega (arith, pair_count-append p t xs ys)

pub id_count-append :
    (k : ℕ) (xs ys : List Link) → id_count k (xs ++ ys) ≡ id_count k xs + id_count k ys
id_count-append k [] ys = omega arith
id_count-append k (x ∷ xs) ys = omega (arith, id_count-append k xs ys)

unjoined : (p t : ℕ) (ls : List Link) → any (joins p t) ls ≡ false → pair_count p t ls ≡ 0
unjoined p t [] h = refl
unjoined p t (l ∷ ls) h = ground (arith, unjoined p t ls)

pub id_count-except : (k : ℕ) (ls : List Link) → id_count k (except k ls) ≡ 0
id_count-except k [] = refl
id_count-except k (l ∷ ls) = ground (arith, id_count-except k ls)

-- The table with one row that joins two projects, apart and not yet joined.
pub one_more :
    (l : Link) (ls : List Link) (p t : ℕ)
    → any (joins l.project l.target) ls ≡ false
    → pair_count p t ls ≤ 1
    → pair_count p t (l ∷ ls) ≤ 1
one_more l ls p t h few = elim (Bool-cases (joins p t l)) [
  | inl e ↦
      let same : (l.project ≡ p) × (l.target ≡ t) =
        ((==_iff l.project p).0 (ground arith), (==_iff l.target t).0 (ground arith)) in
      let none_yet = unjoined l.project l.target ls h in
      let left : pair_count p t ls ≡ 0 =
        subst₂ (λ x y. pair_count x y ls ≡ 0) same.0 same.1 none_yet in
      rw e (omega (arith, left))
  | inr e ↦ rw e (omega (arith, few))
]

pub none_self :
    (l : Link) (ls : List Link) (p : ℕ)
    → (l.project == l.target) ≡ false
    → pair_count p p ls ≡ 0
    → pair_count p p (l ∷ ls) ≡ 0
none_self l ls p h e = ground arith

pub validated_pair :
    (others : List Link) (p t : ℕ) (x : Unit {0})
    → validate_pair others p t ≡ ok x
    → (any (joins p t) others ≡ false) × ((p == t) ≡ false)
validated_pair others p t x h = (ground arith, ground arith)

pub validated :
    (u : LinkUser) (others : List Link) (p t : ℕ) (x : Unit {0})
    → validate_ends u others p t ≡ ok x
    → (any (joins p t) others ≡ false) × ((p == t) ≡ false)
validated u others p t x h = (ground arith, ground arith)
