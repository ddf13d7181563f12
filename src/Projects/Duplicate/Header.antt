-- ===== src/Projects/Duplicate/Header.antt =====
-- apps/projects/models.py: what the copy of a header image leaves alone, and the keys in use.
use projects_backend.Base.{
  ltb, ◌==◌, Bool-cases, all, ℕ, suc, ◌≤◌, ◌<◌, ◌≡◌, refl, inl, inr, true, false, Option, none,
  some, List, [], ◌∷◌, arith,
}
use projects_backend.Projects.Library.{Image, Kind, same_kind, Attached, Project, Library}
use projects_backend.Projects.Duplicate.{add_image, rows_of, copy_header, header_of, with_header}

-- Every row names a project whose key was drawn before.
pub record IsKeyed (s : Library) : Type 0 where
  pub attached : all (λ r. ltb r.project s.next_pk) s.attached ≡ true
  pub stats : all (λ st. ltb st.project s.next_pk) s.stats ≡ true

copy_header_keeps :
    {A : Type 0} (part : Library → A)
    → ((n : ℕ) (is : List Image) (s : Library)
        → part (record s { images = is; next_pk = n }) ≡ part s)
    → (owner : Option ℕ) (is : List Image) (s : Library) → part (copy_header owner is s).1 ≡ part s
copy_header_keeps part k owner [] s = refl
copy_header_keeps part k owner (i ∷ is) s =
    elim i.content
      as (λ c.
        part
          (elim c as (λ z. Option ℕ × Library) [
            | none ↦ (none, s)
            | some x ↦ (some s.next_pk, add_image owner x s)
          ]).1
        ≡ part s) [ none ↦ refl | some x ↦ k (suc s.next_pk) (add_image owner x s).images s ]

copy_header_draws :
    (owner : Option ℕ) (is : List Image) (s : Library)
    → s.next_pk ≤ (copy_header owner is s).1.next_pk
copy_header_draws owner [] s = omega arith
copy_header_draws owner (i ∷ is) s =
    elim i.content
      as (λ c.
        s.next_pk
        ≤ (elim c as (λ z. Option ℕ × Library) [
          | none ↦ (none, s)
          | some x ↦ (some s.next_pk, add_image owner x s)
        ]).1.next_pk) [ none ↦ omega arith | some x ↦ omega arith ]

module _ (owner : Option ℕ) (p : Project) (s : Library) where
  pub header_keeps_attached : (with_header owner p s).1.attached ≡ s.attached
  header_keeps_attached =
      copy_header_keeps (λ x. x.attached) (λ n is x. refl) owner (header_of p.header_image s) s

  pub header_keeps_stats : (with_header owner p s).1.stats ≡ s.stats
  header_keeps_stats =
      copy_header_keeps (λ x. x.stats) (λ n is x. refl) owner (header_of p.header_image s) s

  pub header_draws : s.next_pk ≤ (with_header owner p s).1.next_pk
  header_draws = copy_header_draws owner (header_of p.header_image s) s

-- A key that is drawn later has no rows yet.
pub new_rows :
    (k : Kind) (m n : ℕ) (rows : List Attached)
    → m ≤ n
    → all (λ r. ltb r.project m) rows ≡ true
    → rows_of k n rows ≡ []
new_rows k m n [] le h = refl
new_rows k m n (r ∷ rows) le h =
    let later : rows_of k n rows ≡ [] = new_rows k m n rows le (ground arith) in
    let apart : (r.project == n) ≡ false = ground arith in
    elim (Bool-cases (same_kind r.kind k)) [ inl e ↦ rw (e, apart) later | inr e ↦ rw e later ]

pub fresh_key : (a m n : ℕ) → a < m → m ≤ n → (n == a) ≡ false
fresh_key a m n lt le = ground arith
