-- ===== src/Projects/Library.antt =====
-- apps/projects/models.py, apps/files/models.py, apps/announcements/models.py and
-- apps/analytics/models.py: the rows that belong to a project, as `Project.duplicate` reads them.
-- A text is read as pieces, a text between URLs or the URL of an image. All tables draw their keys
-- from one counter. Versions and the length of the description are left out of `Stat`, with the
-- counts of rows that the library has not.
use projects_backend.Base.{◌==◌, ℕ, Bool, true, false, Option, List}
use projects_backend.Projects.Fields.{ProjectStatus}

-- How a URL names a project. A slug is never as long as a key (`get_id_field_name`).
pub data ProjectName : Type 0 where
  by_pk by_slug : ℕ → ProjectName

abbrev pub same_name : ProjectName → ProjectName → Bool
same_name (by_pk a) (by_pk b) = a == b
same_name (by_slug a) (by_slug b) = a == b
same_name _ _ = false

-- `/image/` and `/blog-entry-image/`
pub data ImageRoute : Type 0 where
  project_image blog_entry_image : ImageRoute

abbrev pub same_route : ImageRoute → ImageRoute → Bool
same_route project_image project_image = true
same_route blog_entry_image blog_entry_image = true
same_route _ _ = false

pub data Piece : Type 0 where
  words : ℕ → Piece
  -- f"/v1/project/{identifier}/image/{image.pk}/"
  picture : ImageRoute → (identifier : ProjectName) → (image : ℕ) → Piece

pub record Image : Type 0 where
  pub pk : ℕ
  pub owner : Option ℕ
  -- what the storage holds for its file: `none` where reading raises `ResourceNotFoundError`
  pub content : Option ℕ

pub record BlogEntry : Type 0 where
  pub pk : ℕ
  pub project : ℕ
  pub title : ℕ
  pub content : List Piece
  pub images : List ℕ

-- The related rows of which only `project` is changed in a copy.
pub data Kind : Type 0 where
  announcement location goal link : Kind

abbrev kind_index : Kind → ℕ
kind_index announcement = 0
kind_index location = 1
kind_index goal = 2
kind_index link = 3

abbrev pub same_kind : Kind → Kind → Bool
same_kind j k = kind_index j == kind_index k

pub record Attached : Type 0 where
  pub kind : Kind
  pub pk : ℕ
  pub project : ℕ
  -- the other fields
  pub fields : ℕ

pub record AttachmentFile : Type 0 where
  pub pk : ℕ
  pub project : ℕ
  pub title : ℕ
  pub content : Option ℕ

pub record Stat : Type 0 where
  pub project : ℕ
  pub links : ℕ
  pub files : ℕ
  pub blog_entries : ℕ
  pub goals : ℕ

pub record Project : Type 0 where
  pub pk : ℕ
  pub slug : ℕ
  pub outdated_slugs : List ℕ
  pub title : ℕ
  pub description : List Piece
  pub header_image : Option ℕ
  pub publication_status : ProjectStatus
  pub duplicated_from : Option ℕ
  pub categories : List ℕ
  pub organizations : List ℕ
  pub tags : List ℕ
  pub images : List ℕ
  -- the users of the owners' group, and those of the five other groups
  pub owners : List ℕ
  pub others : List ℕ

pub record Library : Type 0 where
  pub projects : List Project
  pub images : List Image
  pub blog_entries : List BlogEntry
  pub attached : List Attached
  pub files : List AttachmentFile
  pub stats : List Stat
  pub next_pk : ℕ
