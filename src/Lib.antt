-- ===== src/Lib.antt =====
-- projects-backend is a Django application. Organizations hold projects, people groups and
-- categories; users hold roles in them, follow them, are mentored, and are let in by access requests.
-- This library models the parts of it that decide something, and leaves Django, the REST framework,
-- the database and the remote services as parameters or as plain tables of rows.
--
-- Base: Boolean tests, lists, strings as lists of code points, raised exceptions as results, signed
--   numbers, and Base/Roster, the rows of a many-to-many relation between users and the permission
--   groups of an object.
-- Pagination: apps/commons/pagination.py. `PageInfo` is the state of the paginator.
-- Projects/Team: the groups of a project in apps/projects/models.py (`set_role_group_members`,
--   `set_role_groups_members`) and the serializers of apps/projects/serializers.py that add and
--   remove members. A `Team` has a list of users and a list of people groups for each of the six
--   roles. `PeopleGroup.get_all_members` is a parameter.
-- Projects/Fields: the field validators of apps/projects/serializers.py and the update that they
--   guard. `Payload` has the validated fields of a request.
-- Projects/Duplicate: `Project.duplicate` of apps/projects/models.py, with the copies of images, files,
--   blog entries and other rows, and the counts of apps/analytics/models.py. Projects/Library has the
--   tables.
-- Projects/Links: the table of linked projects, `LinkedProjectViewSet` of apps/projects/views.py.
-- Hierarchy: the parent links of people groups and of project categories. `meets` is the loop of
--   `validate_parent`; Hierarchy/Rows is the table, Hierarchy/Parents the validation and the write
--   of apps/accounts/serializers.py and apps/organizations/serializers.py.
--   Hierarchy/Organizations has the searches of apps/organizations/utils.py, up and down, on the same
--   rows. A walk and a search take fuel, and a theorem gives a bound above which the fuel is enough.
-- Slugs: `HasMultipleIDs` of apps/commons/mixins.py, with `SlugRow` for a row and `SlugClass` for the
--   class attributes and for `slugify`. Slugs/Query is apps/commons/queryset.py. The two loops of
--   `get_slug` take fuel; the bound comes from the numbers at the end of the slugs that are taken.
-- Visibility: the querysets of `ProjectUser` and `AnonymousUser` in apps/accounts/models.py, as
--   filters of tables. The objects for which a user holds a permission are fields of `Viewer`.
-- Permissions: the permission classes of apps/commons, apps/accounts, apps/organizations and
--   apps/projects (`permissions.py` of each). `has_perm` is a field of `User`, and the objects that a
--   view relates to are arguments.
-- Invitations: access requests, apps/invitations/models.py, the bulk actions of
--   apps/invitations/views.py and the validators of apps/invitations/serializers.py. The outside calls
--   of a request are an `Outcome` of exceptions.
-- Threads: replies to project messages and comments, `validate_reply_on` of
--   apps/projects/serializers.py and `validate_reply_on_id` of apps/feedbacks/serializers.py.
-- Mentoring: apps/skills/models.py and the requests of `MentoringViewSet` in apps/skills/views.py.
--   `Reaches` are the stores that they lead to, whatever happens to the skills meanwhile.
-- Teams: the teams of people groups and organizations, from the serializers of
--   apps/accounts/serializers.py and apps/organizations/serializers.py. `Groups` holds the people
--   groups and the projects that they are in, so that Projects/Team and Teams meet there.
--   `OrganizationTeam` has an organization's groups and its group in Keycloak; `accounts` tells which
--   users have an account there, and a call that raises keeps what it has written.
-- GroupPermissions: `HasPermissionsSetup` of apps/commons/mixins.py, on guardian's table of rows.
-- Newsfeed: the round-robin of apps/newsfeed/views.py.
-- Notifications: apps/notifications/utils.py (a notification is merged into the last that matches
--   it) and the reminder of apps/notifications/tasks.py. The rows are kept with the last saved first.
-- Deploys: `PostDeployProcess` of apps/deploys/models.py. The tasks and Celery are fields of
--   `Environment`.
-- Translator: services/translator. Translator/Content splits a plain text, on fuel (the length of the
--   text and one more is enough), Translator/Field has the chunks translated. BeautifulSoup and Azure
--   are fields of `Outside`. Translator/Marks is the record of what is out of date.
-- Crisalid: services/crisalid/populates (researchers and their identifiers) and
--   services/crisalid/manager.py, on a store that an exception keeps as far as it was saved.
-- Google: services/google/models.py. Google/Ledger is the record of failed calls, Google/Sync the
--   operations; which calls Google refuses is an argument. `update_or_create_error` takes a bound on
--   its calls of itself, for which 2 is enough.
--   `PermissionGroup` is a Django group, by which users and people groups are joined.
--
-- Identifiers, codes, contents and times are natural numbers. A transaction that raises has no
-- effect, so an exception either carries no store or goes with the store as it was. Not modelled:
-- HTTP routing, serialization, mail texts, search indexes, remote services, migrations and the
-- administration pages, which are I/O or configuration; and, left for later, the soft deletion of
-- projects, announcements, reviews, follows, invitation links and the documents of CRISalid.
pub mod Base
pub mod Pagination
pub mod Projects
pub mod Teams
pub mod Threads
pub mod Crisalid
pub mod Deploys
pub mod Google
pub mod GroupPermissions
pub mod Hierarchy
pub mod Invitations
pub mod Slugs
pub mod Translator
pub mod Visibility
pub mod Mentoring
pub mod Newsfeed
pub mod Notifications
pub mod Permissions
