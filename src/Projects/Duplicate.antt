-- ===== src/Projects/Duplicate.antt =====
-- apps/projects/models.py: `Project.duplicate`, with the `duplicate` of the rows that belong to a
-- project. Each table appends its new rows. The slug of the copy is what `HasMultipleIDs.save` gives
-- (Slugs), an argument.
pub mod Pictures
pub mod Rows
pub mod Header
pub mod Exact
pub mod Counted
mod Tests
use projects_backend.Base.{
  ◌==◌, if◌then◌else◌, mem, length, filter, ℕ, suc, ◌&&◌, Option, none, some, List, [], ◌∷◌, ◌++◌,
  map,
}
use projects_backend.Projects.Fields.{private}
use projects_backend.Projects.Library.{
  ProjectName, same_name, ImageRoute, same_route, Piece, Image, BlogEntry, Kind, same_kind,
  Attached, AttachmentFile, Stat, Project, Library, by_pk, by_slug, project_image, blog_entry_image,
  words, picture, announcement, location, goal, link,
}

-- `str.replace` of one URL by another
abbrev replace_piece : ImageRoute → (old new : ProjectName) → (image copy : ℕ) → Piece → Piece
replace_piece route old new image copy (words t) = words t
replace_piece route old new image copy (picture r a k) =
    if same_route r route && same_name a old && k == image
    then picture r new copy
    else picture r a k

-- `for identifier in [self.pk, self.slug]`
abbrev pub repoint : ImageRoute → Project → (new image copy : ℕ) → Piece → Piece
repoint route p new image copy piece =
    replace_piece route (by_slug p.slug) (by_pk new) image copy
      (replace_piece route (by_pk p.pk) (by_pk new) image copy piece)

-- `Image.duplicate`, for an image that can be read
abbrev pub add_image : Option ℕ → ℕ → Library → Library
add_image owner c s =
    let i : Image = record { pk = s.next_pk; owner = owner; content = some c } in
    record s { images = s.images ++ i ∷ []; next_pk = suc s.next_pk }

pub record Copied : Type 0 where
  pub text : List Piece
  pub images : List ℕ
  pub library : Library

-- the loop over the images of a project or of a blog entry
unfoldable pub copy_images :
    ImageRoute
    → Project
    → (new : ℕ) → (owner : Option ℕ) → List Image
    → List Piece
    → Library
    → Copied
copy_images route p new owner [] t s = record { text = t; images = []; library = s }
copy_images route p new owner (i ∷ is) t s = elim i.content [
  | none ↦ copy_images route p new owner is t s
  | some c ↦
      let rest =
        copy_images route p new owner is (map (repoint route p new i.pk s.next_pk) t)
          (add_image owner c s) in
      record rest { images = s.next_pk ∷ rest.images }
]

abbrev pub images_of : List ℕ → Library → List Image
images_of ks s = filter (λ i. mem i.pk ks) s.images

abbrev pub rows_of : Kind → ℕ → List Attached → List Attached
rows_of k p rows = filter (λ r. same_kind r.kind k && r.project == p) rows

-- `if create and hasattr(self.project, "stat")`: the counts of the project, if it has any
abbrev pub on_stat : ℕ → (Stat → Stat) → List Stat → List Stat
on_stat p f stats = map (λ st. if st.project == p then f st else st) stats

abbrev pub recount : Kind → ℕ → List Attached → Stat → Stat
recount goal p rows st = record st { goals = length (rows_of goal p rows) }
recount link p rows st = record st { links = length (rows_of link p rows) }
recount announcement p rows st = st
recount location p rows st = st

-- `save` of a new row
abbrev pub save_row : Attached → Library → Library
save_row r s =
    let rows = s.attached ++ r ∷ [] in
    record s {
      attached = rows;
      stats = on_stat r.project (recount r.kind r.project rows) s.stats;
      next_pk = suc s.next_pk;
    }

unfoldable pub copy_rows : (new : ℕ) → List Attached → Library → Library
copy_rows new [] s = s
copy_rows new (r ∷ rs) s =
    copy_rows new rs (save_row (record r { pk = s.next_pk; project = new }) s)

-- `for goal in self.goals.all()`, and the loops like it
abbrev pub copy_kind : Kind → (new : ℕ) → Project → Library → Library
copy_kind k new p s = copy_rows new (rows_of k p.pk s.attached) s

abbrev pub entries_of : ℕ → List BlogEntry → List BlogEntry
entries_of p entries = filter (λ e. e.project == p) entries

-- the row and its images; `count` is taken when the row is saved first
abbrev save_entry : BlogEntry → Library → Library
save_entry e s =
    let entries = s.blog_entries ++ e ∷ [] in
    record s {
      blog_entries = entries;
      stats =
          on_stat e.project
            (λ st. record st { blog_entries = length (entries_of e.project entries) }) s.stats;
    }

-- `BlogEntry.duplicate`
abbrev pub copy_entry : Project → (new : ℕ) → (owner : Option ℕ) → BlogEntry → Library → Library
copy_entry p new owner e s =
    let r =
      copy_images blog_entry_image p new owner (images_of e.images s) e.content
        (record s { next_pk = suc s.next_pk }) in
    save_entry (record e { pk = s.next_pk; project = new; content = r.text; images = r.images })
      r.library

unfoldable pub copy_entries :
    Project → (new : ℕ) → (owner : Option ℕ) → List BlogEntry → Library → Library
copy_entries p new owner [] s = s
copy_entries p new owner (e ∷ es) s = copy_entries p new owner es (copy_entry p new owner e s)

abbrev pub files_of : ℕ → List AttachmentFile → List AttachmentFile
files_of p files = filter (λ f. f.project == p) files

abbrev pub save_file : AttachmentFile → Library → Library
save_file f s =
    let files = s.files ++ f ∷ [] in
    record s {
      files = files;
      stats =
          on_stat f.project (λ st. record st { files = length (files_of f.project files) }) s.stats;
      next_pk = suc s.next_pk;
    }

-- `AttachmentFile.duplicate`
abbrev pub copy_file : (new : ℕ) → AttachmentFile → Library → Library
copy_file new f s = elim f.content [
  | none ↦ s
  | some c ↦ save_file (record f { pk = s.next_pk; project = new }) s
]

unfoldable pub copy_files : (new : ℕ) → List AttachmentFile → Library → Library
copy_files new [] s = s
copy_files new (f ∷ fs) s = copy_files new fs (copy_file new f s)

-- the header image, from the rows that have its key
abbrev pub copy_header : (owner : Option ℕ) → List Image → Library → Option ℕ × Library
copy_header owner [] s = (none, s)
copy_header owner (i ∷ is) s = elim i.content [
  | none ↦ (none, s)
  | some c ↦ (some s.next_pk, add_image owner c s)
]

abbrev pub header_of : Option ℕ → Library → List Image
header_of none s = []
header_of (some k) s = filter (λ i. i.pk == k) s.images

abbrev pub with_header : (owner : Option ℕ) → Project → Library → Option ℕ × Library
with_header owner p s = copy_header owner (header_of p.header_image s) s

-- `owners.users.add(user)` of `setup_permissions`, on new groups
abbrev owner_list : Option ℕ → List ℕ
owner_list none = []
owner_list (some u) = u ∷ []

abbrev pub new_stat : ℕ → Stat
new_stat p = record { project = p; links = 0; files = 0; blog_entries = 0; goals = 0 }

-- the related rows, in the order of the source
abbrev pub copy_related : Project → (new : ℕ) → (owner : Option ℕ) → Library → Library
copy_related p new owner s =
    let s1 = copy_entries p new owner (entries_of p.pk s.blog_entries) s in
    let s2 = copy_kind announcement new p s1 in
    let s3 = copy_kind location new p s2 in
    let s4 = copy_kind goal new p s3 in
    let s5 = copy_kind link new p s4 in copy_files new (files_of p.pk s5.files) s5

-- `Project.duplicate`, from the copy of the header image. The row is appended at once, as the last
-- `save` leaves it.
abbrev duplicate_after :
    (owner : Option ℕ) → (slug : ℕ) → Project → Option ℕ → Library → Project × Library
duplicate_after owner slug p header s =
    let new = s.next_pk in
    let r =
      copy_images project_image p new owner (images_of p.images s) p.description
        (record s { next_pk = suc new }) in
    let q : Project = record p {
      pk = new;
      slug = slug;
      outdated_slugs = [];
      description = r.text;
      header_image = header;
      publication_status = private;
      duplicated_from = some p.pk;
      images = r.images;
      owners = owner_list owner;
      others = [];
    } in
    let t = copy_related p new owner r.library in
    (q, record t { projects = t.projects ++ q ∷ []; stats = t.stats ++ new_stat new ∷ [] })

unfoldable pub duplicate : (owner : Option ℕ) → (slug : ℕ) → Project → Library → Project × Library
duplicate owner slug p s = let h = with_header owner p s in duplicate_after owner slug p h.0 h.1
