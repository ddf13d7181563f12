-- ===== src/Visibility/Compare.antt =====
-- The querysets of different visitors compared: anonymous visitors, users without rights, superusers.
use projects_backend.Base.{
  ◌==◌, Bool-cases, filter, ℕ, ◌≡◌, refl, inl, inr, Bool, true, false, ◌||◌, List, [], ◌∷◌, arith,
}
use projects_backend.Visibility.{
  is_public, Project, Announced, Profile, PeopleGroup, OrgPermission, view_org_project,
  view_project, view_news, view_instruction, view_event, view_org_projectuser, view_projectuser,
  view_org_peoplegroup, view_peoplegroup, Viewer, Visitor, anonymous, user, sees_project,
  sees_announced, sees_user, sees_people_group, get_project_queryset, get_news_queryset,
  get_instruction_queryset, get_event_queryset, get_user_queryset, get_people_group_queryset,
  meets_list,
}

module _ {A : Type 0} where
  filter-filter :
      (p q : A → Bool)
      → ((a : A) → p a ≡ true → q a ≡ true)
      → (rows : List A) → filter p (filter q rows) ≡ filter p rows
  filter-filter p q weaker [] = refl
  filter-filter p q weaker (a ∷ rows) = elim (Bool-cases (p a)) [
    | inl e ↦ rw (weaker a e, e, filter-filter p q weaker rows) refl
    | inr e ↦ elim (Bool-cases (q a)) [
      | inl f ↦ rw (f, e, filter-filter p q weaker rows) refl
      | inr f ↦ rw (f, e, filter-filter p q weaker rows) refl
    ]
  ]

  filter-every : (p : A → Bool) → ((a : A) → p a ≡ true) → (rows : List A) → filter p rows ≡ rows
  filter-every p every [] = refl
  filter-every p every (a ∷ rows) = rw (every a, filter-every p every rows) refl

  filter-same :
      (p q : A → Bool) → ((a : A) → p a ≡ q a) → (rows : List A) → filter p rows ≡ filter q rows
  filter-same p q same [] = refl
  filter-same p q same (a ∷ rows) = rw (same a, filter-same p q same rows) refl

-- The tables that the querysets filter.
pub record Tables : Type 0 where
  pub projects : List Project
  pub news : List Announced
  pub instructions : List Announced
  pub events : List Announced
  pub users : List Profile
  pub people_groups : List PeopleGroup

-- All six querysets of a visitor.
abbrev pub seen_by : Visitor → Tables → Tables
seen_by v t = record {
  projects = get_project_queryset v t.projects;
  news = get_news_queryset v t.news;
  instructions = get_instruction_queryset v t.instructions;
  events = get_event_queryset v t.events;
  users = get_user_queryset v t.users;
  people_groups = get_people_group_queryset v t.people_groups;
}

same_tables :
    (s t : Tables)
    → s.projects ≡ t.projects
    → s.news ≡ t.news
    → s.instructions ≡ t.instructions
    → s.events ≡ t.events
    → s.users ≡ t.users
    → s.people_groups ≡ t.people_groups
    → s ≡ t
same_tables s t a b c d e f = cc

-- Whatever an anonymous visitor sees, every user sees too: what is left of a user's view for the
-- anonymous visitor is the anonymous view.
pub anonymous_sees_less :
    (v : Viewer) (t : Tables) → seen_by anonymous (seen_by (user v) t) ≡ seen_by anonymous t
unfolding get_project_queryset get_news_queryset get_instruction_queryset get_event_queryset
    get_user_queryset get_people_group_queryset
anonymous_sees_less v t =
    same_tables _ _
      (filter-filter (sees_project anonymous) (sees_project (user v)) (λ p h. ground arith)
        t.projects)
      (filter-filter (sees_announced view_news anonymous) (sees_announced view_news (user v))
        (λ p h. ground arith) t.news)
      (filter-filter (sees_announced view_instruction anonymous)
        (sees_announced view_instruction (user v)) (λ p h. ground arith) t.instructions)
      (filter-filter (sees_announced view_event anonymous) (sees_announced view_event (user v))
        (λ p h. ground arith) t.events)
      (filter-filter (sees_user anonymous) (sees_user (user v)) (λ p h. ground arith) t.users)
      (filter-filter (sees_people_group anonymous) (sees_people_group (user v))
        (λ p h. ground arith) t.people_groups)

-- A superuser sees every row of every table.
superuser_sees_all : (v : Viewer) (t : Tables) → v.is_superuser ≡ true → seen_by (user v) t ≡ t
unfolding get_project_queryset get_news_queryset get_instruction_queryset get_event_queryset
    get_user_queryset get_people_group_queryset
superuser_sees_all v t super =
    same_tables _ _ (filter-every _ (λ p. rw super refl) t.projects)
      (filter-every _ (λ p. rw super refl) t.news)
      (filter-every _ (λ p. rw super refl) t.instructions)
      (filter-every _ (λ p. rw super refl) t.events) (filter-every _ (λ p. rw super refl) t.users)
      (filter-every _ (λ p. rw super refl) t.people_groups)

-- A user in no organization and no people group, to whom no permission was given.
pub record HasNoRights (v : Viewer) : Type 0 where
  pub plain : v.is_superuser ≡ false
  pub no_orgs_with : (permission : OrgPermission) → v.orgs_with permission ≡ []
  pub no_project_rights : v.project_rights ≡ []
  pub no_group_rights : v.group_rights ≡ []
  pub no_people_groups : v.people_groups ≡ []
  pub no_organizations : v.organizations ≡ []

meets_list-nil : (xs : List ℕ) → meets_list xs [] ≡ false
meets_list-nil [] = refl
meets_list-nil (x ∷ xs) = meets_list-nil xs

module _ (v : Viewer) (nothing : HasNoRights v) where
  plain_project : (p : Project) → sees_project (user v) p ≡ sees_project anonymous p
  plain_project p =
      rw
        (
          nothing.plain,
          nothing.no_orgs_with view_org_project,
          nothing.no_orgs_with view_project,
          nothing.no_project_rights,
          meets_list-nil p.organizations,
        )
        (ground arith)

  plain_announced :
      (permission : OrgPermission) (a : Announced)
      → sees_announced permission (user v) a ≡ sees_announced permission anonymous a
  plain_announced permission a =
      rw
        (
          nothing.plain,
          nothing.no_orgs_with permission,
          nothing.no_people_groups,
          nothing.no_organizations,
          meets_list-nil a.people_groups,
        )
        (ground arith)

  plain_user : (u : Profile) → sees_user (user v) u ≡ (u.id == v.id || sees_user anonymous u)
  plain_user u =
      rw
        (
          nothing.plain,
          nothing.no_orgs_with view_org_projectuser,
          nothing.no_orgs_with view_projectuser,
          meets_list-nil u.organizations,
        )
        (ground arith)

  plain_people_group :
      (g : PeopleGroup) → sees_people_group (user v) g ≡ sees_people_group anonymous g
  plain_people_group g =
      rw
        (
          nothing.plain,
          nothing.no_orgs_with view_org_peoplegroup,
          nothing.no_orgs_with view_peoplegroup,
          nothing.no_group_rights,
        )
        (ground arith)

  -- A user without any rights sees what an anonymous visitor sees, and its own profile.
  pub no_rights_sees_public :
      (t : Tables)
      → seen_by (user v) t ≡ (record (seen_by anonymous t) {
        users = filter (λ u. u.id == v.id || is_public u.publication_status) t.users;
      })
  unfolding get_project_queryset get_news_queryset get_instruction_queryset get_event_queryset
      get_user_queryset get_people_group_queryset
  no_rights_sees_public t =
      same_tables _ _ (filter-same _ _ plain_project t.projects)
        (filter-same _ _ (plain_announced view_news) t.news)
        (filter-same _ _ (plain_announced view_instruction) t.instructions)
        (filter-same _ _ (plain_announced view_event) t.events) (filter-same _ _ plain_user t.users)
        (filter-same _ _ plain_people_group t.people_groups)
