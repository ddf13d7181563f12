-- ===== src/Mentoring/Reach.antt =====
-- The stores that requests to apps/skills/views.py lead to, and what holds in all of them.
use projects_backend.Base.{
  ltb, ◌==◌, if◌then◌else◌, Bool-cases, any, all, filter, any-append, ok-injective, err-ne-ok, ok,
  ℕ, ◌≡◌, refl, subst, ◌∙◌, inl, inr, Bool, true, false, not, ◌&&◌, ◌||◌, List, [], ◌∷◌, ◌++◌, map,
  arith,
}
use projects_backend.Mentoring.{
  Skill, Mentoring, Store, Answer, keep_mentorings, same_pair, find_mentoring, save_mentoring,
  Request, handle,
}

-- A store that some requests led to from one without mentorings. Between the requests the rest of the
-- program may change the organizations and the skills as it likes, and deleting organizations, skills
-- and users takes any of the mentorings away.
pub data Reaches : Store → Type 0 where
  start :
      (organizations : List ℕ) (skills : List Skill)
      → Reaches (record {
        organizations = organizations;
        skills = skills;
        mentorings = [];
        messages = [];
        next_mentoring = 1;
      })
  step :
      (r : Request) (a : Answer) (s s' : Store) → Reaches s → handle r s ≡ ok (a, s') → Reaches s'
  elsewhere :
      (organizations : List ℕ) (skills : List Skill) (keep : Mentoring → Bool) (s : Store)
      → Reaches s
      → Reaches (keep_mentorings keep (record s { organizations = organizations; skills = skills }))

-- the creator is the mentor or the mentoree
abbrev pub has_creator : Mentoring → Bool
has_creator m = m.created_by == m.mentor || m.created_by == m.mentoree

-- Two rows that the database does not let be: the same identifier, or the same pair on the same skill.
abbrev clash : Mentoring → Mentoring → Bool
clash m n = m.id == n.id || same_pair m.mentor m.mentoree m.skill n

abbrev IsApart : List Mentoring → Type 0
IsApart [] = Unit
IsApart (m ∷ ms) = (any (clash m) ms ≡ false) × IsApart ms

abbrev pub is_old : ℕ → Mentoring → Bool
is_old next m = ltb m.id next

pub record IsSound (s : Store) : Type 0 where
  pub creators : all has_creator s.mentorings ≡ true
  pub apart : IsApart s.mentorings
  pub fresh : all (is_old s.next_mentoring) s.mentorings ≡ true

pub all-append :
    {A : Type 0} (p : A → Bool) (xs : List A) (y : A) → all p (xs ++ y ∷ []) ≡ (all p xs && p y)
all-append p [] y = ground arith
all-append p (x ∷ xs) y = ground (arith, all-append p xs y)

pub IsApart-append :
    (next : ℕ) (ms : List Mentoring) (n : Mentoring)
    → IsApart ms
    → all (is_old next) ms ≡ true
    → n.id ≡ next
    → any (same_pair n.mentor n.mentoree n.skill) ms ≡ false
    → IsApart (ms ++ n ∷ [])
IsApart-append next [] n apart old new unique = (refl, tt)
IsApart-append next (m ∷ ms) n (first, apart) old new unique = (
  any-append (clash m) ms (n ∷ []) ∙ ground arith,
  IsApart-append next ms n apart (ground arith) new (ground arith),
)

filter-all :
    (p keep : Mentoring → Bool) (ms : List Mentoring)
    → all p ms ≡ true
    → all p (filter keep ms) ≡ true
filter-all p keep [] h = refl
filter-all p keep (m ∷ ms) h = elim (Bool-cases (keep m)) [
  | inl e ↦ let rest = filter-all p keep ms (ground arith) in rw e (ground arith)
  | inr e ↦ rw e (filter-all p keep ms (ground arith))
]

filter-none_clash :
    (p keep : Mentoring → Bool) (ms : List Mentoring)
    → any p ms ≡ false
    → any p (filter keep ms) ≡ false
filter-none_clash p keep [] h = refl
filter-none_clash p keep (m ∷ ms) h = elim (Bool-cases (keep m)) [
  | inl e ↦ let rest = filter-none_clash p keep ms (ground arith) in rw e (ground arith)
  | inr e ↦ rw e (filter-none_clash p keep ms (ground arith))
]

filter-IsApart :
    (keep : Mentoring → Bool) (ms : List Mentoring) → IsApart ms → IsApart (filter keep ms)
filter-IsApart keep [] apart = tt
filter-IsApart keep (m ∷ ms) (first, apart) = elim (Bool-cases (keep m)) [
  | inl e ↦ rw e (filter-none_clash (clash m) keep ms first, filter-IsApart keep ms apart)
  | inr e ↦ rw e (filter-IsApart keep ms apart)
]

-- Mentorings that are deleted leave the others as they should be.
pub keep_mentorings-IsSound :
    (keep : Mentoring → Bool) (s : Store) → IsSound s → IsSound (keep_mentorings keep s)
keep_mentorings-IsSound keep s sound = record {
  creators = filter-all has_creator keep s.mentorings sound.creators;
  apart = filter-IsApart keep s.mentorings sound.apart;
  fresh = filter-all (is_old s.next_mentoring) keep s.mentorings sound.fresh;
}

-- What holds of all rows holds of the one that is found.
pub found-holds :
    (p : Mentoring → Bool) (user i : ℕ) (ms : List Mentoring) (m : Mentoring)
    → find_mentoring user i ms ≡ ok m
    → all p ms ≡ true
    → p m ≡ true
found-holds p user i [] m h every = absurd (err-ne-ok _ m h)
found-holds p user i (x ∷ ms) m h every =
    elim (Bool-cases (x.id == i && (x.mentoree == user || x.mentor == user))) [
      | inl e ↦ subst (λ z. p z ≡ true) (ok-injective x m (rw e at h)) (ground arith)
      | inr e ↦ found-holds p user i ms m (rw e at h) (ground arith)
    ]

abbrev same_key : Mentoring → Mentoring → Bool
same_key x m =
    x.id == m.id && x.mentor == m.mentor && x.mentoree == m.mentoree && x.skill == m.skill

-- The only row of that identifier is the one that is found.
abbrev only : Mentoring → Mentoring → Bool
only m x = not (x.id == m.id) || same_key x m

only-others :
    (m : Mentoring) (ms : List Mentoring) → any (clash m) ms ≡ false → all (only m) ms ≡ true
only-others m [] h = refl
only-others m (x ∷ ms) h = let rest = only-others m ms (ground arith) in ground arith

not_clashing :
    (m : Mentoring) (ms : List Mentoring)
    → any (clash m) ms ≡ false
    → all (λ x. not (clash m x)) ms ≡ true
not_clashing m [] h = refl
not_clashing m (x ∷ ms) h = let rest = not_clashing m ms (ground arith) in ground arith

pub found-only :
    (user i : ℕ) (ms : List Mentoring) (m : Mentoring)
    → IsApart ms
    → find_mentoring user i ms ≡ ok m
    → all (only m) ms ≡ true
found-only user i [] m apart h = refl
found-only user i (x ∷ ms) m (first, apart) h =
    elim (Bool-cases (x.id == i && (x.mentoree == user || x.mentor == user))) [
      | inl e ↦
          subst (λ z. all (only z) (x ∷ ms) ≡ true) (ok-injective x m (rw e at h))
            (let rest = only-others x ms first in ground arith)
      | inr e ↦
          let rest = found-only user i ms m apart (rw e at h) in
          let other : not (clash x m) ≡ true =
            found-holds (λ y. not (clash x y)) user i ms m (rw e at h) (not_clashing x ms first) in
          ground arith
    ]

abbrev saved : Mentoring → Mentoring → Mentoring
saved r m = if m.id == r.id then r else m

clash-saved :
    (r x y : Mentoring)
    → only r x ≡ true
    → only r y ≡ true
    → clash (saved r x) (saved r y) ≡ clash x y
clash-saved r x y kx ky = elim (Bool-cases (x.id == r.id)) [
  | inl ex ↦ elim (Bool-cases (y.id == r.id)) [
    | inl ey ↦ rw (ex, ey) (ground arith)
    | inr ey ↦ rw (ex, ey) (ground arith)
  ]
  | inr ex ↦ elim (Bool-cases (y.id == r.id)) [
    | inl ey ↦ rw (ex, ey) (ground arith)
    | inr ey ↦ rw (ex, ey) (ground arith)
  ]
]

any-clash-saved :
    (r x : Mentoring) (ms : List Mentoring)
    → only r x ≡ true
    → all (only r) ms ≡ true
    → any (clash (saved r x)) (map (saved r) ms) ≡ any (clash x) ms
any-clash-saved r x [] kx ks = refl
any-clash-saved r x (y ∷ ms) kx ks =
    rw (clash-saved r x y kx (ground arith), any-clash-saved r x ms kx (ground arith)) refl

pub save_mentoring-IsApart :
    (r : Mentoring) (ms : List Mentoring)
    → all (only r) ms ≡ true
    → IsApart ms
    → IsApart (save_mentoring r ms)
save_mentoring-IsApart r [] ks apart = tt
save_mentoring-IsApart r (x ∷ ms) ks (first, apart) = (
  any-clash-saved r x ms (ground arith) (ground arith) ∙ first,
  save_mentoring-IsApart r ms (ground arith) apart,
)
