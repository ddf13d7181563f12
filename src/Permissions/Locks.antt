-- ===== src/Permissions/Locks.antt =====
-- `ProjectIsNotLocked` of apps/projects/permissions.py.
use projects_backend.Base.{
  ◌==◌, ==_iff, Bool-cases, mem, any, Result, ◌>>◌, raise_if, err-ne-ok, ok, ℕ, ◌≡◌, refl, subst,
  ◌↔◌, inl, inr, Bool, true, false, not, ◌&&◌, ◌||◌, Option, none, some, List, [], ◌∷◌, arith,
}
use projects_backend.Permissions.{
  Action, list, retrieve, create, update, partial_update, destroy, add_member, remove_member, other,
  within, nothing, project, organization, User, Request, is_create,
}

-- A project of a view: its identifier, `is_locked` and its related organizations.
pub record Project : Type 0 where
  pub id : ℕ
  pub is_locked : Bool
  pub organizations : List ℕ

pub data LockError : Type 0 where
  locked_project : LockError

-- `change_locked_project` and the apps `projects` and `organizations`
abbrev change_locked_project : ℕ
change_locked_project = 1

abbrev projects_app : ℕ
projects_app = 1

abbrev organizations_app : ℕ
organizations_app = 2

-- `user_can_modify_locked_project`
abbrev pub user_can_modify_locked_project : Project → User → Bool
user_can_modify_locked_project p u =
    u.has_perm (within projects_app change_locked_project) nothing
    || u.has_perm (within projects_app change_locked_project) (project p.id)
    || any (λ o. u.has_perm (within organizations_app change_locked_project) (organization o))
        p.organizations

abbrev changes_object : Action → Bool
changes_object update = true
changes_object partial_update = true
changes_object destroy = true
changes_object add_member = true
changes_object remove_member = true
changes_object list = false
changes_object retrieve = false
changes_object create = false
changes_object (other n) = false

abbrev bars : Option Project → Bool → User → Bool
bars none concerned u = false
bars (some p) concerned u = concerned && p.is_locked && not (user_can_modify_locked_project p u)

-- `has_permission`, which raises or answers `True`
pub has_permission : Option Project → Request → Result LockError Bool
has_permission related r =
    raise_if (bars related (is_create r.action) r.user) locked_project >> ok true

-- `has_object_permission`
pub has_object_permission : Option Project → Request → Result LockError Bool
has_object_permission related r =
    raise_if (bars related (changes_object r.action) r.user) locked_project >> ok true

raised : (b : Bool) → ((raise_if b locked_project >> ok true) ≡ ok true) ↔ (b ≡ false)
raised true = (λ h. absurd (err-ne-ok _ true h), λ h. cc)
raised false = (λ h. refl, λ h. refl)

-- The actions that a lock is there to stop.
pub data Changes : Action → Type 0 where
  by_create : Changes create
  by_update : Changes update
  by_partial_update : Changes partial_update
  by_destroy : Changes destroy
  by_add_member : Changes add_member
  by_remove_member : Changes remove_member

-- The rights that let a user change a locked project.
pub data MayChange (p : Project) (u : User) : Type 0 where
  everywhere : u.has_perm (within projects_app change_locked_project) nothing ≡ true → MayChange p u
  on_project :
      u.has_perm (within projects_app change_locked_project) (project p.id) ≡ true → MayChange p u
  in_organization :
      (o : ℕ)
      → mem o p.organizations ≡ true
      → u.has_perm (within organizations_app change_locked_project) (organization o) ≡ true
      → MayChange p u

any_of : (f : ℕ → Bool) (o : ℕ) (os : List ℕ) → mem o os ≡ true → f o ≡ true → any f os ≡ true
any_of f o [] m h = cc
any_of f o (x ∷ os) m h = elim (Bool-cases (o == x)) [
  | inl e ↦ let here : f x ≡ true = subst (λ z. f z ≡ true) ((==_iff o x).0 e) h in ground arith
  | inr e ↦ let later = any_of f o os (ground arith) h in ground arith
]

one_of : (f : ℕ → Bool) (os : List ℕ) → any f os ≡ true → (o : ℕ) × (mem o os ≡ true) × (f o ≡ true)
one_of f [] h = cc
one_of f (x ∷ os) h = elim (Bool-cases (f x)) [
  | inl e ↦ let same = (==_iff x x).1 refl in (x, ground arith, e)
  | inr e ↦ let (o, m, k) = one_of f os (ground arith) in (o, ground arith, k)
]

modify-MayChange :
    (p : Project) (u : User) → user_can_modify_locked_project p u ≡ true → MayChange p u
modify-MayChange p u h =
    elim (Bool-cases (u.has_perm (within projects_app change_locked_project) nothing)) [
      | inl e ↦ everywhere e
      | inr e ↦
          elim (Bool-cases
            (u.has_perm (within projects_app change_locked_project) (project p.id))) [
              | inl e2 ↦ on_project e2
              | inr e2 ↦
                  let (o, m, k) =
                    one_of
                      (λ z.
                        u.has_perm (within organizations_app change_locked_project)
                          (organization z))
                      p.organizations (ground arith) in
                  in_organization o m k
            ]
    ]

MayChange-modify :
    (p : Project) (u : User) → MayChange p u → user_can_modify_locked_project p u ≡ true
MayChange-modify p u (everywhere h) = ground arith
MayChange-modify p u (on_project h) = ground arith
MayChange-modify p u (in_organization o m h) =
    let some_right =
      any_of (λ z. u.has_perm (within organizations_app change_locked_project) (organization z)) o
        p.organizations m h in
    ground arith

stops : (a : Action) → Changes a → (is_create a || changes_object a) ≡ true
stops _ by_create = refl
stops _ by_update = refl
stops _ by_partial_update = refl
stops _ by_destroy = refl
stops _ by_add_member = refl
stops _ by_remove_member = refl

stopped : (a : Action) → (is_create a || changes_object a) ≡ true → Changes a
stopped list h = cc
stopped retrieve h = cc
stopped create h = by_create
stopped update h = by_update
stopped partial_update h = by_partial_update
stopped destroy h = by_destroy
stopped add_member h = by_add_member
stopped remove_member h = by_remove_member
stopped (other n) h = cc

bars_both :
    (p : Project) (r : Request)
    → ((has_permission (some p) r ≡ ok true) × (has_object_permission (some p) r ≡ ok true)) ↔ (
        (not p.is_locked
          || not (is_create r.action || changes_object r.action)
          || user_can_modify_locked_project p r.user)
        ≡ true)
unfolding has_permission has_object_permission
bars_both p r = (
  λ (first, second).
      let a = (raised (bars (some p) (is_create r.action) r.user)).0 first in
      let b = (raised (bars (some p) (changes_object r.action) r.user)).0 second in ground arith,
  λ free. (
    (raised (bars (some p) (is_create r.action) r.user)).1 (ground arith),
    (raised (bars (some p) (changes_object r.action) r.user)).1 (ground arith),
  ),
)

no_project :
    (r : Request) → (has_permission none r ≡ ok true) × (has_object_permission none r ≡ ok true)
unfolding has_permission has_object_permission
no_project r = (refl, refl)

-- When a lock lets a request about a project through.
pub data IsFree (p : Project) (r : Request) : Type 0 where
  unlocked : p.is_locked ≡ false → IsFree p r
  idle : ¬ Changes r.action → IsFree p r
  allowed : MayChange p r.user → IsFree p r

pass_to_free :
    (p : Project) (r : Request)
    → (not p.is_locked
        || not (is_create r.action || changes_object r.action)
        || user_can_modify_locked_project p r.user)
      ≡ true
    → IsFree p r
pass_to_free p r h = elim (Bool-cases p.is_locked) [
  | inr e ↦ unlocked e
  | inl e ↦ elim (Bool-cases (is_create r.action || changes_object r.action)) [
    | inr e2 ↦ idle (λ c. let stop = stops r.action c in cc)
    | inl e2 ↦ allowed (modify-MayChange p r.user (ground arith))
  ]
]

free_to_pass :
    (p : Project) (r : Request)
    → IsFree p r
    → (not p.is_locked
        || not (is_create r.action || changes_object r.action)
        || user_can_modify_locked_project p r.user)
      ≡ true
free_to_pass p r (unlocked e) = ground arith
free_to_pass p r (idle f) = elim (Bool-cases (is_create r.action || changes_object r.action)) [
  | inl e ↦ absurd (f (stopped r.action e))
  | inr e ↦ ground arith
]
free_to_pass p r (allowed m) = let right = MayChange-modify p r.user m in ground arith

-- A request about a project gets through both checks if and only if the project is not locked, or the
-- action is none of the six that a lock stops (create, update, partial update, destroy, and adding and
-- removing members), or the user may change locked projects everywhere, this one, or those of one of
-- its organizations. Without a project it always gets through.
pub lock_bars_changes :
    (p : Project) (r : Request)
    → (((has_permission (some p) r ≡ ok true) × (has_object_permission (some p) r ≡ ok true))
        ↔ IsFree p r)
      × (has_permission none r ≡ ok true)
      × (has_object_permission none r ≡ ok true)
lock_bars_changes p r = (
  (
    λ through. pass_to_free p r ((bars_both p r).0 through),
    λ free. (bars_both p r).1 (free_to_pass p r free),
  ),
  (no_project r).0,
  (no_project r).1,
)
