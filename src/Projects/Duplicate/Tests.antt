-- ===== src/Projects/Duplicate/Tests.antt =====
-- Tests of `Project.duplicate`, on a project with two images of which one cannot be read.
use projects_backend.Base.{◌≡◌, refl, none, some, [], ◌∷◌, ◌++◌, map, arith}
use projects_backend.Projects.Duplicate.{
  copy_images, rows_of, copy_rows, copy_entries, copy_files, new_stat, duplicate,
}
use projects_backend.Projects.Fields.{public}
use projects_backend.Projects.Library.{
  Project, Library, by_pk, by_slug, project_image, blog_entry_image, words, picture, goal, link,
}
use projects_backend.Projects.Duplicate.Header.{IsKeyed}
use projects_backend.Projects.Duplicate.Rows.{data_of}
use projects_backend.Projects.Duplicate.Pictures.{duplicate-description, translated}
use projects_backend.Projects.Duplicate.Exact.{duplicate_copies_rows}
use projects_backend.Projects.Duplicate.Counted.{duplicate_counts_nothing}

abbrev original : Project
original = record {
  pk = 1;
  slug = 50;
  outdated_slugs = 49 ∷ [];
  title = 60;
  description =
      words 7
      ∷ picture project_image (by_pk 1) 2
      ∷ picture project_image (by_slug 50) 2
      ∷ picture project_image (by_slug 49) 2
      ∷ picture project_image (by_pk 1) 3
      ∷ [];
  header_image = none;
  publication_status = public;
  duplicated_from = none;
  categories = 70 ∷ [];
  organizations = 71 ∷ [];
  tags = [];
  images = 2 ∷ 3 ∷ [];
  owners = 80 ∷ [];
  others = 81 ∷ [];
}

abbrev library : Library
library = record {
  projects = original ∷ [];
  images =
      record { pk = 2; owner = some 80; content = some 90 }
      ∷ record { pk = 3; owner = some 80; content = none }
      ∷ [];
  blog_entries =
      record {
        pk = 4;
        project = 1;
        title = 61;
        content = picture blog_entry_image (by_pk 1) 2 ∷ [];
        images = 2 ∷ [];
      }
      ∷ [];
  attached =
      record { kind = goal; pk = 5; project = 1; fields = 91 }
      ∷ record { kind = link; pk = 6; project = 1; fields = 92 }
      ∷ record { kind = goal; pk = 7; project = 1; fields = 93 }
      ∷ [];
  files = record { pk = 8; project = 1; title = 62; content = some 94 } ∷ [];
  stats = record { project = 1; links = 1; files = 1; blog_entries = 1; goals = 2 } ∷ [];
  next_pk = 9;
}

-- The URL by an outdated slug, and the one of the image that cannot be read, stay.
description_test :
    (duplicate (some 82) 51 original library).0.description
    ≡ words 7
      ∷ picture project_image (by_pk 9) 10
      ∷ picture project_image (by_pk 9) 10
      ∷ picture project_image (by_slug 49) 2
      ∷ picture project_image (by_pk 1) 3
      ∷ []
unfolding duplicate copy_images
description_test = refl

entries_test :
    (duplicate (some 82) 51 original library).1.blog_entries
    ≡ library.blog_entries
      ++ record {
        pk = 11;
        project = 9;
        title = 61;
        content = picture blog_entry_image (by_pk 9) 12 ∷ [];
        images = 12 ∷ [];
      }
        ∷ []
unfolding duplicate copy_images copy_entries copy_rows copy_files
entries_test = refl

owners_test : (duplicate (some 82) 51 original library).0.owners ≡ 82 ∷ []
unfolding duplicate
owners_test = refl

library-IsKeyed : IsKeyed library
library-IsKeyed = record { attached = refl; stats = refl }

duplicate-description_example :
    (duplicate (some 82) 51 original library).0.description
    ≡ map (translated project_image original 9 ((2, 10) ∷ [])) original.description
duplicate-description_example = duplicate-description (some 82) 51 original library (omega arith)

duplicate_copies_rows_example :
    (data_of (
        rows_of goal
          (duplicate (some 82) 51 original library).0.pk
          (duplicate (some 82) 51 original library).1.attached)
      ≡ 91 ∷ 93 ∷ [])
    × (rows_of goal 1 (duplicate (some 82) 51 original library).1.attached
        ≡ rows_of goal 1 library.attached)
duplicate_copies_rows_example =
    duplicate_copies_rows (some 82) 51 original library goal 1 (omega arith) (omega arith)
      library-IsKeyed

duplicate_counts_nothing_example :
    (duplicate (some 82) 51 original library).1.stats
    ≡ library.stats ++ new_stat (duplicate (some 82) 51 original library).0.pk ∷ []
duplicate_counts_nothing_example =
    duplicate_counts_nothing (some 82) 51 original library library-IsKeyed
