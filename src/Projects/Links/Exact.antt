-- ===== src/Projects/Links/Exact.antt =====
-- apps/projects/views.py: what `add_many` adds, and when.
use projects_backend.Base.{
  ◌==◌, length, any, append_next, append_nil, raise_if, ok-injective, bind_ok, raise_if_ok, ok, ℕ,
  ◌+◌, ◌≡◌, refl, sym, ap, subst, ◌∙◌, ◌↔◌, true, false, not, ◌&&◌, List, [], ◌∷◌, ◌++◌, arith,
}
use projects_backend.Projects.Links.{add_many, permission_denied}
use projects_backend.Projects.Links.{create_each}
use projects_backend.Projects.Links.{
  Link, LinkTable, LinkUser, Entry, joins, insert_link, create_link,
}
use projects_backend.Projects.Links.Unlinked.{create_link_ok}

-- the rows of some entries
abbrev rows_from : ℕ → List Entry → List Link
rows_from n [] = []
rows_from n (e ∷ es) =
    record { id = n; project = e.project; target = e.target } ∷ rows_from (n + 1) es

abbrev row : ℕ → Entry → Link
row n e = record { id = n; project = e.project; target = e.target }

-- The user may link the projects of some entries one after the other, whatever the URL names: both ends
-- exist and differ, the user sees the project, and nothing links them yet, earlier entries included.
abbrev pub IsAddable : LinkUser → ℕ → List Link → List Entry → Type 0
IsAddable u n ls [] = Unit {0}
IsAddable u n ls (e ∷ es) =
    (u.is_project e.project ≡ true)
    × (u.is_project e.target ≡ true)
    × ((e.project == e.target) ≡ false)
    × (u.can_see_project e.project ≡ true)
    × (any (joins e.project e.target) ls ≡ false)
    × IsAddable u (n + 1) (ls ++ row n e ∷ []) es

-- the table with one new row for each entry
abbrev pub grown : List Entry → LinkTable → LinkTable
grown es s = record { links = s.links ++ rows_from s.next_id es; next_id = s.next_id + length es }

table_eq :
    (ls ms : List Link) (n m : ℕ)
    → ls ≡ ms
    → n ≡ m
    → ◌≡◌ {A = LinkTable} (record { links = ls; next_id = n }) (record { links = ms; next_id = m })
table_eq ls ms n m e f = rw (e, f) refl

grown_more :
    (e : Entry) (es : List Entry) (s : LinkTable) → grown es (insert_link e s) ≡ grown (e ∷ es) s
grown_more e es s =
    table_eq ((s.links ++ row s.next_id e ∷ []) ++ rows_from (s.next_id + 1) es)
      (s.links ++ rows_from s.next_id (e ∷ es)) (s.next_id + 1 + length es)
      (s.next_id + length (e ∷ es))
      (append_next s.links (row s.next_id e) (rows_from (s.next_id + 1) es)) (omega arith)

create_each_ok :
    (u : LinkUser) (es : List Entry) (s t : LinkTable)
    → create_each u es s ≡ ok t
    → IsAddable u s.next_id s.links es × (t ≡ grown es s)
unfolding create_each
create_each_ok u [] s t run = (
  tt,
  sym (ok-injective s t run)
      ∙ table_eq s.links (s.links ++ []) s.next_id (s.next_id + 0) (sym (append_nil s.links))
          (omega arith),
)
create_each_ok u (e ∷ es) s t run =
    let (s1, first, rest) = bind_ok (create_link u e s) (create_each u es) t run in
    let c = create_link_ok u e s s1 first in
    let now : create_each u es (insert_link e s) ≡ ok t =
      subst (λ z. create_each u es z ≡ ok t) c.now rest in
    let (addable, table) = create_each_ok u es (insert_link e s) t now in
    ((c.known, c.target_known, c.other, c.seen, c.new, addable), table ∙ grown_more e es s)

created_ok :
    (u : LinkUser) (es : List Entry) (s : LinkTable)
    → IsAddable u s.next_id s.links es
    → create_each u es s ≡ ok (grown es s)
unfolding create_each create_link
created_ok u [] s h = ap ok (
    table_eq s.links (s.links ++ []) s.next_id (s.next_id + 0) (sym (append_nil s.links))
      (omega arith))
created_ok u (e ∷ es) s (known, target_known, other, seen, new, later) =
    let rest = created_ok u es (insert_link e s) later in
    rw (known, target_known, new, other, seen) (rest ∙ ap ok (grown_more e es s))

-- `add_many` returns if and only if the user may change the project of the URL and each entry can be
-- added after those before it: both ends exist and differ, the user sees the project that is linked,
-- and they are not linked yet. The table then has one new row for each entry, with the target that the
-- entry names. So the URL decides nothing else, and nothing asks whether the user sees the targets or
-- may change them.
pub add_many_exact :
    (u : LinkUser) (url : ℕ) (es : List Entry) (s t : LinkTable)
    → (add_many u url es s ≡ ok t)
      ↔ ((u.may_change url ≡ true) × IsAddable u s.next_id s.links es × (t ≡ grown es s))
unfolding add_many
add_many_exact u url es s t = (
  λ run.
      let (a, allowed, each) =
        bind_ok (raise_if (not (u.may_change url)) permission_denied) (λ _. create_each u es s) t
          run in
      let may = raise_if_ok (not (u.may_change url)) permission_denied a allowed in
      let (addable, table) = create_each_ok u es s t each in (ground arith, addable, table),
  λ (may, addable, table). rw may (created_ok u es s addable ∙ ap ok (sym table)),
)

-- Whatever project the URL names, as long as the user may change it: `add_many` links a project that
-- the user sees to any other project, with which it is not linked yet. Nothing asks whether the user
-- may change the project that it is linked to.
pub add_many_reaches :
    (u : LinkUser) (url : ℕ) (e : Entry) (s : LinkTable)
    → u.may_change url ≡ true
    → (u.is_project e.project && u.is_project e.target) ≡ true
    → u.can_see_project e.project ≡ true
    → (e.project == e.target) ≡ false
    → any (joins e.project e.target) s.links ≡ false
    → add_many u url (e ∷ []) s ≡ ok (insert_link e s)
unfolding add_many create_each create_link
add_many_reaches u url e s may known sees other new = rw (may, known, new, other, sees) refl
