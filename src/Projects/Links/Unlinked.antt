-- ===== src/Projects/Links/Unlinked.antt =====
-- apps/projects/views.py: links that are added and removed again.
use projects_backend.Base.{
  ◌==◌, ==_iff, mem, any, all, filter, all-weaken, append_nil, filter-append, any-append,
  filter_all, ◌>>◌, raise_if, ok-injective, bind_ok, raise_if_ok, ok, ℕ, ◌≡◌, refl, sym, ap, subst,
  ◌∙◌, true, false, not, ◌&&◌, ◌||◌, List, [], ◌∷◌, map, arith,
}
use projects_backend.Projects.Links.{add_many, delete_many, permission_denied}
use projects_backend.Projects.Links.{create_each, is_unlinked}
use projects_backend.Projects.Links.{
  Link, LinkTable, LinkUser, Entry, joins, validate_ends, insert_link, create_link,
  linked_project_permission_denied,
}

abbrev projects_of : List Entry → List ℕ
projects_of = map (λ e. e.project)

-- What a link that was created tells of the table.
pub record Created (u : LinkUser) (e : Entry) (s t : LinkTable) : Type 0 where
  pub known : u.is_project e.project ≡ true
  pub target_known : u.is_project e.target ≡ true
  pub other : (e.project == e.target) ≡ false
  pub seen : u.can_see_project e.project ≡ true
  pub new : any (joins e.project e.target) s.links ≡ false
  pub now : t ≡ insert_link e s

pub create_link_ok :
    (u : LinkUser) (e : Entry) (s t : LinkTable) → create_link u e s ≡ ok t → Created u e s t
unfolding create_link
create_link_ok u e s t run =
    let (a, checks, done) =
      bind_ok
        (validate_ends u s.links e.project e.target
          >> raise_if (not (u.can_see_project e.project)) linked_project_permission_denied)
        (λ _. ok (insert_link e s)) t run in
    record {
      known = ground arith;
      target_known = ground arith;
      other = ground arith;
      seen = ground arith;
      new = ground arith;
      now = sym (ok-injective _ t done);
    }

all_known :
    (u : LinkUser) (es : List Entry) (s t : LinkTable)
    → create_each u es s ≡ ok t
    → all u.is_project (projects_of es) ≡ true
unfolding create_each
all_known u [] s t run = refl
all_known u (e ∷ es) s t run =
    let (s1, first, rest) = bind_ok (create_link u e s) (create_each u es) t run in
    let known = (create_link_ok u e s s1 first).known in rw known (all_known u es s1 t rest)

nothing_unlinked : (url : ℕ) (ls : List Link) → any (is_unlinked url []) ls ≡ false
nothing_unlinked url [] = refl
nothing_unlinked url (l ∷ ls) = nothing_unlinked url ls

one_more_unlinked :
    (url p : ℕ) (ps : List ℕ) (ls : List Link)
    → any (joins p url) ls ≡ false
    → any (is_unlinked url ps) ls ≡ false
    → any (is_unlinked url (p ∷ ps)) ls ≡ false
one_more_unlinked url p ps [] h k = refl
one_more_unlinked url p ps (l ∷ ls) h k =
    let later = one_more_unlinked url p ps ls (ground arith) (ground arith) in ground arith

-- The links that are created were not there.
none_there :
    (u : LinkUser) (url : ℕ) (es : List Entry) (s t : LinkTable)
    → all (λ e. e.target == url) es ≡ true
    → create_each u es s ≡ ok t
    → any (is_unlinked url (projects_of es)) s.links ≡ false
unfolding create_each
none_there u url [] s t here run = nothing_unlinked url s.links
none_there u url (e ∷ es) s t here run =
    let (s1, first, rest) = bind_ok (create_link u e s) (create_each u es) t run in
    let c = create_link_ok u e s s1 first in
    let later = none_there u url es s1 t (ground arith) rest in
    let before : any (is_unlinked url (projects_of es)) (insert_link e s).links ≡ false =
      subst (λ (z : LinkTable). any (is_unlinked url (projects_of es)) z.links ≡ false) c.now
        later in
    let l : Link = record { id = s.next_id; project = e.project; target = e.target } in
    let split = any-append (is_unlinked url (projects_of es)) s.links (l ∷ []) in
    let old : any (is_unlinked url (projects_of es)) s.links ≡ false = ground arith in
    let is_url : e.target ≡ url = (==_iff e.target url).0 (ground arith) in
    one_more_unlinked url e.project (projects_of es) s.links
      (subst (λ z. any (joins e.project z) s.links ≡ false) is_url c.new) old

only_new :
    (u : LinkUser) (url : ℕ) (ps : List ℕ) (es : List Entry) (s t : LinkTable)
    → all (λ e. mem e.project ps && e.target == url) es ≡ true
    → create_each u es s ≡ ok t
    → filter (λ l. not (is_unlinked url ps l)) t.links
      ≡ filter (λ l. not (is_unlinked url ps l)) s.links
unfolding create_each
only_new u url ps [] s t here run =
    ap (λ (z : LinkTable). filter (λ l. not (is_unlinked url ps l)) z.links)
      (sym (ok-injective s t run))
only_new u url ps (e ∷ es) s t here run =
    let (s1, first, rest) = bind_ok (create_link u e s) (create_each u es) t run in
    let l : Link = record { id = s.next_id; project = e.project; target = e.target } in
    let ours : is_unlinked url ps l ≡ true = ground arith in
    let c = create_link_ok u e s s1 first in
    only_new u url ps es s1 t (ground arith) rest
    ∙ ap (λ (z : LinkTable). filter (λ l. not (is_unlinked url ps l)) z.links) c.now
    ∙ filter-append (λ l. not (is_unlinked url ps l)) s.links (l ∷ [])
    ∙ rw ours (append_nil (filter (λ x. not (is_unlinked url ps x)) s.links))

among_them :
    (url : ℕ) (ps : List ℕ) (es : List Entry)
    → all (λ e. e.target == url) es ≡ true
    → all (λ e. mem e.project ps) es ≡ true
    → all (λ e. mem e.project ps && e.target == url) es ≡ true
among_them url ps [] h k = refl
among_them url ps (e ∷ es) h k =
    let later = among_them url ps es (ground arith) (ground arith) in ground arith

all_listed : (es : List Entry) → all (λ e. mem e.project (projects_of es)) es ≡ true
all_listed [] = refl
all_listed (e ∷ es) =
    let first : (e.project == e.project) ≡ true = (==_iff e.project e.project).1 refl in
    rw first (
      all-weaken (λ x. mem x.project (projects_of es))
        (λ x. x.project == e.project || mem x.project (projects_of es)) (λ x h. rw h (ground arith))
        es (all_listed es))

-- When projects are linked to the project of the URL by `add_many`, and the call returns, then
-- `delete_many` of these projects returns too, and leaves exactly the links that were there before.
pub delete_many-add_many :
    (u : LinkUser) (url : ℕ) (es : List Entry) (s t : LinkTable)
    → all (λ e. e.target == url) es ≡ true
    → add_many u url es s ≡ ok t
    → delete_many u url (projects_of es) t ≡ ok (record t { links = s.links })
unfolding add_many delete_many
delete_many-add_many u url es s t here run =
    let (a, allowed, each) =
      bind_ok (raise_if (not (u.may_change url)) permission_denied) (λ _. create_each u es s) t
        run in
    let may = raise_if_ok (not (u.may_change url)) permission_denied a allowed in
    let known = all_known u es s t each in
    let left =
      only_new u url (projects_of es) es s t
        (among_them url (projects_of es) es here (all_listed es)) each
      ∙ filter_all (is_unlinked url (projects_of es)) s.links (none_there u url es s t here each) in
    rw (may, known) (ap (λ z. ok (record t { links = z })) left)
