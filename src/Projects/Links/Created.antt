-- ===== src/Projects/Links/Created.antt =====
-- apps/projects/views.py: the table of links when links are created, or removed by any test.
use projects_backend.Base.{
  ◌==◌, Bool-cases, any, filter, Result, ◌>>◌, raise_if, ok-injective, bind_ok, ok, ℕ, ◌≤◌, ◌≡◌,
  subst, inl, inr, Bool, false, not, List, [], ◌∷◌, arith,
}
use projects_backend.Projects.Links.{
  Link, LinkTable, LinkUser, LinkError, Entry, joins, validate_ends, insert_link, create_link,
  create_each, linked_project_permission_denied,
}
use projects_backend.Projects.Links.Counts.{
  pair_count, id_count, pair_count-filter, id_count-filter, pair_count-append, id_count-append,
  one_more, none_self, validated,
}

-- No two links join the same projects, none joins a project with itself, and no two have one id.
pub record IsLinkTable (s : LinkTable) : Type 0 where
  pub single : (p t : ℕ) → pair_count p t s.links ≤ 1
  pub apart : (p : ℕ) → pair_count p p s.links ≡ 0
  pub ids : (k : ℕ) → id_count k s.links ≤ 1
  pub below : (k : ℕ) → s.next_id ≤ k → id_count k s.links ≡ 0

-- What a request leaves, when it returns.
abbrev pub ReturnsTable : Result LinkError LinkTable → Type 0
ReturnsTable r = (t : LinkTable) → r ≡ ok t → IsLinkTable t

pub filter-IsLinkTable :
    (f : Link → Bool) (s : LinkTable)
    → IsLinkTable s
    → IsLinkTable (record s { links = filter f s.links })
filter-IsLinkTable f s h = record {
  single = λ p t. let few = h.single p t in omega (arith, pair_count-filter p t f s.links);
  apart = λ p. let none_yet = h.apart p in omega (arith, pair_count-filter p p f s.links);
  ids = λ k. let few = h.ids k in omega (arith, id_count-filter k f s.links);
  below = λ k le. let none_yet = h.below k le in omega (arith, id_count-filter k f s.links);
}

insert_link-IsLinkTable :
    (e : Entry) (s : LinkTable)
    → any (joins e.project e.target) s.links ≡ false
    → (e.project == e.target) ≡ false
    → IsLinkTable s
    → IsLinkTable (insert_link e s)
insert_link-IsLinkTable e s new distinct h =
    let l : Link = record { id = s.next_id; project = e.project; target = e.target } in
    record {
      single = λ p t.
          let few = one_more l s.links p t new (h.single p t) in
          omega (arith, pair_count-append p t s.links (l ∷ []));
      apart = λ p.
          let none_yet = none_self l s.links p distinct (h.apart p) in
          omega (arith, pair_count-append p p s.links (l ∷ []));
      ids = λ k. elim (Bool-cases (s.next_id == k)) [
        | inl same ↦
            let fresh = h.below k (ground arith) in
            ground (arith, id_count-append k s.links (l ∷ []))
        | inr other ↦ let few = h.ids k in ground (arith, id_count-append k s.links (l ∷ []))
      ];
      below = λ k le.
          let none_yet = h.below k (omega arith) in
          ground (arith, id_count-append k s.links (l ∷ []));
    }

pub create_link-IsLinkTable :
    (u : LinkUser) (e : Entry) (s : LinkTable) → IsLinkTable s → ReturnsTable (create_link u e s)
unfolding create_link
create_link-IsLinkTable u e s h t run =
    let (a, checks, done) =
      bind_ok
        (validate_ends u s.links e.project e.target
          >> raise_if (not (u.can_see_project e.project)) linked_project_permission_denied)
        (λ _. ok (insert_link e s)) t run in
    let (b, valid, seen) =
      bind_ok (validate_ends u s.links e.project e.target)
        (λ _. raise_if (not (u.can_see_project e.project)) linked_project_permission_denied) a
        checks in
    let ends = validated u s.links e.project e.target b valid in
    subst IsLinkTable (ok-injective (insert_link e s) t done)
      (insert_link-IsLinkTable e s ends.0 ends.1 h)

pub create_each-IsLinkTable :
    (u : LinkUser) (es : List Entry) (s : LinkTable)
    → IsLinkTable s
    → ReturnsTable (create_each u es s)
unfolding create_each
create_each-IsLinkTable u [] s h t run = subst IsLinkTable (ok-injective s t run) h
create_each-IsLinkTable u (e ∷ es) s h t run =
    let (s1, first, rest) = bind_ok (create_link u e s) (create_each u es) t run in
    create_each-IsLinkTable u es s1 (create_link-IsLinkTable u e s h s1 first) t rest
