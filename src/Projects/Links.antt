-- ===== src/Projects/Links.antt =====
-- apps/projects/views.py, `LinkedProjectViewSet`, with `LinkedProjectSerializer` of
-- apps/projects/serializers.py: the table of the projects that are linked to a project.
-- Outside are the permission classes of the view, `can_see_project` and `Project.objects`; the
-- framework refuses a request that breaks `unique_together`. The order of the rows has no meaning.
pub mod Counts
pub mod Created
pub mod Table
pub mod Unlinked
pub mod Exact
mod Tests
use projects_backend.Base.{
  ◌==◌, mem, any, all, filter, Result, ◌>>=◌, ◌>>◌, raise_if, ok, err, ℕ, ◌+◌, Bool, true, not,
  ◌&&◌, Option, none, some, List, [], ◌∷◌, ◌++◌,
}

pub record Link : Type 0 where
  pub id : ℕ
  pub project : ℕ
  pub target : ℕ

pub record LinkTable : Type 0 where
  pub links : List Link
  pub next_id : ℕ

-- What the outside answers about the user of a request: whether the permission classes let it change
-- the project of the URL, which projects it sees, and which projects there are.
pub record LinkUser : Type 0 where
  pub may_change : ℕ → Bool
  pub can_see_project : ℕ → Bool
  pub is_project : ℕ → Bool

pub data LinkError : Type 0 where
  permission_denied not_found does_not_exist not_unique : LinkError
  link_project_to_self linked_project_permission_denied : LinkError

-- the data of a link: `project_id` and `target_id`
pub record Entry : Type 0 where
  pub project : ℕ
  pub target : ℕ

abbrev pub joins : ℕ → ℕ → Link → Bool
joins p t l = l.project == p && l.target == t

-- `unique_together` among the other rows, and `validate`
abbrev pub validate_pair : List Link → (project target : ℕ) → Result LinkError (Unit {0})
validate_pair others p t =
    raise_if (any (joins p t) others) not_unique >> raise_if (p == t) link_project_to_self

-- `is_valid` of a new link
abbrev pub validate_ends : LinkUser → List Link → (project target : ℕ) → Result LinkError (Unit {0})
validate_ends u others p t =
    raise_if (not (u.is_project p && u.is_project t)) does_not_exist >> validate_pair others p t

abbrev pub insert_link : Entry → LinkTable → LinkTable
insert_link e s = record {
  links = s.links ++ record { id = s.next_id; project = e.project; target = e.target } ∷ [];
  next_id = s.next_id + 1;
}

-- a valid serializer and `perform_create`
unfoldable pub create_link : LinkUser → Entry → LinkTable → Result LinkError LinkTable
create_link u e s =
    validate_ends u s.links e.project e.target
    >> raise_if (not (u.can_see_project e.project)) linked_project_permission_denied
    >> ok (insert_link e s)

unfoldable pub create_each : LinkUser → List Entry → LinkTable → Result LinkError LinkTable
create_each u [] s = ok s
create_each u (e ∷ es) s = create_link u e s >>= λ t. create_each u es t

-- `add_many`, in one transaction
unfoldable pub add_many : LinkUser → (url : ℕ) → List Entry → LinkTable → Result LinkError LinkTable
add_many u url es s = raise_if (not (u.may_change url)) permission_denied >> create_each u es s

-- `get_object`: the rows of `get_queryset` are those whose target is the project of the URL
abbrev pub has_id : LinkUser → (url id : ℕ) → Link → Bool
has_id u url k l = l.id == k && l.target == url && u.can_see_project l.target

abbrev pub get_object_or_404 : List Link → Result LinkError Link
get_object_or_404 [] = err not_found
get_object_or_404 (l ∷ ls) = ok l

abbrev pub get_link : LinkUser → (url id : ℕ) → LinkTable → Result LinkError Link
get_link u url k s =
    raise_if (not (u.may_change url)) permission_denied
    >> get_object_or_404 (filter (has_id u url k) s.links)

abbrev pub except : ℕ → List Link → List Link
except k = filter (λ l. not (l.id == k))

abbrev pub given_or : Option ℕ → ℕ → ℕ
given_or none old = old
given_or (some new) old = new

abbrev pub sees_given : LinkUser → Option ℕ → Bool
sees_given u none = true
sees_given u (some p) = u.can_see_project p

-- the queryset of `project_id` and `target_id`
abbrev pub is_given : LinkUser → Option ℕ → Bool
is_given u none = true
is_given u (some p) = u.is_project p

-- `is_valid` of a partial update, in which only the ends that are given are looked up
abbrev pub validate_given :
    LinkUser → Option ℕ → Option ℕ → Link → List Link → Result LinkError (Unit {0})
validate_given u project target l others =
    raise_if (not (is_given u project && is_given u target)) does_not_exist
    >> validate_pair others (given_or project l.project) (given_or target l.target)

abbrev pub write_link :
    LinkUser → Option ℕ → Option ℕ → Link → LinkTable → Result LinkError LinkTable
write_link u project target l s =
    let p = given_or project l.project in
    let t = given_or target l.target in
    validate_given u project target l (except l.id s.links)
    >> raise_if (not (sees_given u project)) linked_project_permission_denied
    >> ok (record s { links = record { id = l.id; project = p; target = t } ∷ except l.id s.links })

-- a PATCH request
unfoldable pub partial_update :
    LinkUser → (url id : ℕ) → (project target : Option ℕ) → LinkTable → Result LinkError LinkTable
partial_update u url k project target s =
    get_link u url k s >>= λ l. write_link u project target l s

unfoldable pub destroy : LinkUser → (url id : ℕ) → LinkTable → Result LinkError LinkTable
destroy u url k s = get_link u url k s >>= λ l. ok (record s { links = except l.id s.links })

abbrev pub is_unlinked : (url : ℕ) → List ℕ → Link → Bool
is_unlinked url ps l = mem l.project ps && l.target == url

unfoldable pub delete_many : LinkUser → (url : ℕ) → List ℕ → LinkTable → Result LinkError LinkTable
delete_many u url ps s =
    raise_if (not (u.may_change url)) permission_denied
    >> raise_if (not (all u.is_project ps)) does_not_exist
    >> ok (record s { links = filter (λ l. not (is_unlinked url ps l)) s.links })

pub data LinkRequest : Type 0 where
  create : Entry → LinkRequest
  add : List Entry → LinkRequest
  patch : (id : ℕ) → (project target : Option ℕ) → LinkRequest
  delete : (id : ℕ) → LinkRequest
  unlink : List ℕ → LinkRequest

unfoldable pub answer_request :
    LinkUser → (url : ℕ) → LinkRequest → LinkTable → Result LinkError LinkTable
answer_request u url (create e) s =
    raise_if (not (u.may_change url)) permission_denied >> create_link u e s
answer_request u url (add es) s = add_many u url es s
answer_request u url (patch k project target) s = partial_update u url k project target s
answer_request u url (delete k) s = destroy u url k s
answer_request u url (unlink ps) s = delete_many u url ps s

-- An exception leaves the table as it was.
abbrev pub kept_table : LinkTable → Result LinkError LinkTable → LinkTable
kept_table s (ok t) = t
kept_table s (err e) = s

unfoldable pub serve : List (LinkUser × ℕ × LinkRequest) → LinkTable → LinkTable
serve [] s = s
serve ((u, url, request) ∷ rest) s = serve rest (kept_table s (answer_request u url request s))
