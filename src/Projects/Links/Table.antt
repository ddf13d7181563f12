-- ===== src/Projects/Links/Table.antt =====
-- apps/projects/views.py: what holds of the table of links whatever is requested.
use projects_backend.Base.{
  ◌==◌, ==_iff, Bool-cases, any, all, filter, Result, ◌>>◌, raise_if, ok-injective, err-ne-ok,
  bind_ok, ok, err, ℕ, ◌≤◌, ◌≡◌, refl, subst, inl, inr, Bool, false, not, ◌&&◌, Option, List, [],
  ◌∷◌, arith,
}
use projects_backend.Projects.Links.{
  Link, LinkTable, LinkUser, LinkError, joins, validate_given, validate_pair, is_given, create_link,
  create_each, add_many, has_id, get_object_or_404, get_link, except, given_or, sees_given,
  write_link, partial_update, destroy, is_unlinked, delete_many, LinkRequest, answer_request,
  kept_table, serve, permission_denied, not_found, does_not_exist, linked_project_permission_denied,
  create, add, patch, delete, unlink,
}
use projects_backend.Projects.Links.Counts.{
  id_count, id_count-except, one_more, none_self, validated_pair,
}
use projects_backend.Projects.Links.Created.{
  IsLinkTable, ReturnsTable, filter-IsLinkTable, create_link-IsLinkTable, create_each-IsLinkTable,
}

moved-IsLinkTable :
    (l : Link) (p t : ℕ) (s : LinkTable)
    → id_count l.id s.links ≡ 1
    → any (joins p t) (except l.id s.links) ≡ false
    → (p == t) ≡ false
    → IsLinkTable s
    → IsLinkTable
        (record s { links = record { id = l.id; project = p; target = t } ∷ except l.id s.links })
moved-IsLinkTable l p t s one new distinct h =
    let moved : Link = record { id = l.id; project = p; target = t } in
    let others = filter-IsLinkTable (λ x. not (x.id == l.id)) s h in
    record {
      single = λ a b. one_more moved (except l.id s.links) a b new (others.single a b);
      apart = λ a. none_self moved (except l.id s.links) a distinct (others.apart a);
      ids = λ k. elim (Bool-cases (l.id == k)) [
        | inl same ↦
            let gone : id_count k (except l.id s.links) ≡ 0 =
              subst (λ z. id_count z (except l.id s.links) ≡ 0) ((==_iff l.id k).0 same)
                (id_count-except l.id s.links) in
            rw same (omega (arith, gone))
        | inr other ↦ let few = others.ids k in rw other (omega (arith, few))
      ];
      below = λ k le. elim (Bool-cases (l.id == k)) [
        | inl same ↦
            let none_yet = h.below k le in
            let one_here : id_count k s.links ≡ 1 =
              subst (λ z. id_count z s.links ≡ 1) ((==_iff l.id k).0 same) one in
            absurd (omega arith)
        | inr other ↦ let none_yet = others.below k le in rw other (omega (arith, none_yet))
      ];
    }

found_once :
    (f : Link → Bool) (ls : List Link) (l : Link)
    → get_object_or_404 (filter f ls) ≡ ok l
    → 1 ≤ id_count l.id ls
found_once f [] l h = absurd (err-ne-ok not_found l h)
found_once f (x ∷ ls) l h = elim (Bool-cases (f x)) [
  | inl e ↦
      let same : x ≡ l = ok-injective x l (rw e at h) in
      subst (λ (z : Link). 1 ≤ id_count z.id (x ∷ ls)) same (ground arith)
  | inr e ↦ let later = found_once f ls l (rw e at h) in omega (arith, later)
]

get_link_once :
    (u : LinkUser) (url k : ℕ) (s : LinkTable) (l : Link)
    → get_link u url k s ≡ ok l
    → IsLinkTable s
    → id_count l.id s.links ≡ 1
get_link_once u url k s l run h =
    let (a, allowed, found) =
      bind_ok (raise_if (not (u.may_change url)) permission_denied)
        (λ _. get_object_or_404 (filter (has_id u url k) s.links)) l run in
    let few = h.ids l.id in omega (arith, found_once (has_id u url k) s.links l found)

write_link-IsLinkTable :
    (u : LinkUser) (project target : Option ℕ) (l : Link) (s : LinkTable)
    → id_count l.id s.links ≡ 1
    → IsLinkTable s
    → ReturnsTable (write_link u project target l s)
write_link-IsLinkTable u project target l s one h t run =
    let p = given_or project l.project in
    let q = given_or target l.target in
    let written : LinkTable = record s {
      links = record { id = l.id; project = p; target = q } ∷ except l.id s.links;
    } in
    let (a, checks, done) =
      bind_ok
        (validate_given u project target l (except l.id s.links)
          >> raise_if (not (sees_given u project)) linked_project_permission_denied)
        (λ _. ok written) t run in
    let (b, valid, seen) =
      bind_ok (validate_given u project target l (except l.id s.links))
        (λ _. raise_if (not (sees_given u project)) linked_project_permission_denied) a checks in
    let (c, _, pair) =
      bind_ok (raise_if (not (is_given u project && is_given u target)) does_not_exist)
        (λ _. validate_pair (except l.id s.links) p q) b valid in
    let ends = validated_pair (except l.id s.links) p q b pair in
    subst IsLinkTable (ok-injective written t done) (moved-IsLinkTable l p q s one ends.0 ends.1 h)

module _ (u : LinkUser) (url : ℕ) (s : LinkTable) (h : IsLinkTable s) where
  partial_update-IsLinkTable :
      (k : ℕ) (project target : Option ℕ) → ReturnsTable (partial_update u url k project target s)
  unfolding partial_update
  partial_update-IsLinkTable k project target t run =
      let (l, found, done) =
        bind_ok (get_link u url k s) (λ l. write_link u project target l s) t run in
      write_link-IsLinkTable u project target l s (get_link_once u url k s l found h) h t done

  destroy-IsLinkTable : (k : ℕ) → ReturnsTable (destroy u url k s)
  unfolding destroy
  destroy-IsLinkTable k t run =
      let (l, found, done) =
        bind_ok (get_link u url k s) (λ (l : Link). ok (record s { links = except l.id s.links })) t
          run in
      subst IsLinkTable (ok-injective (record s { links = except l.id s.links }) t done)
        (filter-IsLinkTable (λ x. not (x.id == l.id)) s h)

  delete_many-IsLinkTable : (ps : List ℕ) → ReturnsTable (delete_many u url ps s)
  unfolding delete_many
  delete_many-IsLinkTable ps t run =
      let left : LinkTable = record s {
        links = filter (λ l. not (is_unlinked url ps l)) s.links;
      } in
      let (a, checks, done) =
        bind_ok
          (raise_if (not (u.may_change url)) permission_denied
            >> raise_if (not (all u.is_project ps)) does_not_exist)
          (λ _. ok left) t run in
      subst IsLinkTable (ok-injective left t done)
        (filter-IsLinkTable (λ l. not (is_unlinked url ps l)) s h)

  answer_request-IsLinkTable :
      (request : LinkRequest) → ReturnsTable (answer_request u url request s)
  unfolding answer_request add_many
  answer_request-IsLinkTable (create e) t run =
      let (a, allowed, done) =
        bind_ok (raise_if (not (u.may_change url)) permission_denied) (λ _. create_link u e s) t
          run in
      create_link-IsLinkTable u e s h t done
  answer_request-IsLinkTable (add es) t run =
      let (a, allowed, done) =
        bind_ok (raise_if (not (u.may_change url)) permission_denied) (λ _. create_each u es s) t
          run in
      create_each-IsLinkTable u es s h t done
  answer_request-IsLinkTable (patch k project target) t run =
      partial_update-IsLinkTable k project target t run
  answer_request-IsLinkTable (delete k) t run = destroy-IsLinkTable k t run
  answer_request-IsLinkTable (unlink ps) t run = delete_many-IsLinkTable ps t run

kept_table-IsLinkTable :
    (s : LinkTable) (r : Result LinkError LinkTable)
    → IsLinkTable s
    → ReturnsTable r
    → IsLinkTable (kept_table s r)
kept_table-IsLinkTable s (ok t) h f = f t refl
kept_table-IsLinkTable s (err e) h f = h

-- Whatever is requested, by whomever and whether it is refused or not: when no two links join the
-- same projects, none joins a project with itself and their ids are distinct and drawn before, it is
-- still so afterwards.
pub serve-IsLinkTable :
    (requests : List (LinkUser × ℕ × LinkRequest)) (s : LinkTable)
    → IsLinkTable s
    → IsLinkTable (serve requests s)
unfolding serve
serve-IsLinkTable [] s h = h
serve-IsLinkTable ((u, url, request) ∷ rest) s h =
    serve-IsLinkTable rest (kept_table s (answer_request u url request s)) (
      kept_table-IsLinkTable s (answer_request u url request s) h
        (answer_request-IsLinkTable u url s h request))
