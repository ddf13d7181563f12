-- ===== src/Projects/Duplicate/Exact.antt =====
-- apps/projects/models.py: the rows that `Project.duplicate` copies.
use projects_backend.Base.{◌==◌, ℕ, suc, ◌<◌, ◌≡◌, refl, ap, ◌∙◌, false, Option, []}
use projects_backend.Projects.Library.{
  Kind, Project, Library, project_image, announcement, location, goal, link,
}
use projects_backend.Projects.Duplicate.Rows.{
  data_of, copy_images_keep, copy_rows_other, copy_entries_keep_attached, copy_files_keep_attached,
  join_none, kind_kept, kind_other, kind_own,
}
use projects_backend.Projects.Duplicate.Header.{
  IsKeyed, header_keeps_attached, header_draws, new_rows, fresh_key,
}
use projects_backend.Projects.Duplicate.{
  copy_images, images_of, rows_of, copy_kind, entries_of, copy_entries, files_of, with_header,
  copy_related, duplicate,
}

module _ (p : Project) (new : ℕ) (fresh : (new == p.pk) ≡ false) where
  abbrev placed : Library → Library
  placed s = copy_kind location new p (copy_kind announcement new p s)

  abbrev with_goals : Library → Library
  with_goals s = copy_kind goal new p (placed s)

  abbrev four_kinds : Library → Library
  four_kinds s = copy_kind link new p (with_goals s)

  four_kinds-rows_of :
      (k : Kind) (s : Library)
      → data_of (rows_of k new s.attached) ≡ []
      → data_of (rows_of k new (four_kinds s).attached) ≡ data_of (rows_of k p.pk s.attached)
  four_kinds-rows_of announcement s h =
      kind_other p new fresh link announcement (with_goals s) refl
      ∙ kind_other p new fresh goal announcement (placed s) refl
      ∙ kind_other p new fresh location announcement (copy_kind announcement new p s) refl
      ∙ kind_own p new fresh announcement s
      ∙ join_none _ _ _ h refl
  four_kinds-rows_of location s h =
      let s1 = copy_kind announcement new p s in
      kind_other p new fresh link location (with_goals s) refl
      ∙ kind_other p new fresh goal location (placed s) refl
      ∙ kind_own p new fresh location s1
      ∙ join_none _ _ _ (kind_other p new fresh announcement location s refl ∙ h)
          (kind_kept p new fresh announcement location s)
  four_kinds-rows_of goal s h =
      let s1 = copy_kind announcement new p s in
      kind_other p new fresh link goal (with_goals s) refl
      ∙ kind_own p new fresh goal (placed s)
      ∙ join_none _ _ _
          (kind_other p new fresh location goal s1 refl
            ∙ kind_other p new fresh announcement goal s refl
            ∙ h)
          (kind_kept p new fresh location goal s1 ∙ kind_kept p new fresh announcement goal s)
  four_kinds-rows_of link s h =
      let s1 = copy_kind announcement new p s in
      kind_own p new fresh link (with_goals s)
      ∙ join_none _ _ _
          (kind_other p new fresh goal link (placed s) refl
            ∙ kind_other p new fresh location link s1 refl
            ∙ kind_other p new fresh announcement link s refl
            ∙ h)
          (kind_kept p new fresh goal link (placed s)
            ∙ kind_kept p new fresh location link s1
            ∙ kind_kept p new fresh announcement link s)

  four_kinds_other :
      (k : Kind) (q : ℕ) (s : Library)
      → (new == q) ≡ false
      → rows_of k q (four_kinds s).attached ≡ rows_of k q s.attached
  four_kinds_other k q s h =
      let s1 = copy_kind announcement new p s in
      copy_rows_other k q new (rows_of link p.pk (with_goals s).attached) (with_goals s) h
      ∙ copy_rows_other k q new (rows_of goal p.pk (placed s).attached) (placed s) h
      ∙ copy_rows_other k q new (rows_of location p.pk s1.attached) s1 h
      ∙ copy_rows_other k q new (rows_of announcement p.pk s.attached) s h

  module _ (owner : Option ℕ) (s : Library) where
    abbrev after_entries : Library
    after_entries = copy_entries p new owner (entries_of p.pk s.blog_entries) s

    related-attached : (copy_related p new owner s).attached ≡ (four_kinds after_entries).attached
    related-attached =
        copy_files_keep_attached new (files_of p.pk (four_kinds after_entries).files)
          (four_kinds after_entries)

    entries-attached : after_entries.attached ≡ s.attached
    entries-attached = copy_entries_keep_attached p new owner (entries_of p.pk s.blog_entries) s

    related-rows_of :
        (k : Kind)
        → rows_of k new s.attached ≡ []
        → data_of (rows_of k new (copy_related p new owner s).attached)
          ≡ data_of (rows_of k p.pk s.attached)
    related-rows_of k h =
        ap (λ z. data_of (rows_of k new z)) related-attached
        ∙ four_kinds-rows_of k after_entries
            (ap (λ z. data_of (rows_of k new z)) entries-attached ∙ ap data_of h)
        ∙ ap (λ z. data_of (rows_of k p.pk z)) entries-attached

    related_other :
        (k : Kind) (q : ℕ)
        → (new == q) ≡ false
        → rows_of k q (copy_related p new owner s).attached ≡ rows_of k q s.attached
    related_other k q h =
        ap (rows_of k q) related-attached
        ∙ four_kinds_other k q after_entries h
        ∙ ap (rows_of k q) entries-attached

module _ (owner : Option ℕ) (slug : ℕ) (p : Project) (s : Library) where
  -- the library from which the project itself is copied
  abbrev begun : Library
  begun = (with_header owner p s).1

  abbrev new_key : ℕ
  new_key = begun.next_pk

  abbrev pictured : Library
  pictured =
      (copy_images project_image p new_key owner (images_of p.images begun) p.description
        (record begun { next_pk = suc new_key })).library

  pictured-attached : pictured.attached ≡ s.attached
  pictured-attached =
      copy_images_keep (λ x. x.attached) (λ n is x. refl) project_image p new_key owner
        (images_of p.images begun) p.description (record begun { next_pk = suc new_key })
      ∙ header_keeps_attached owner p s

  -- For a project, another project and rows whose keys were drawn before: the announcements, the
  -- locations, the goals and the links of the copy have the data of those of the project, in their
  -- order, and each project that was there keeps its own rows as they are.
  pub duplicate_copies_rows :
      (k : Kind) (q : ℕ)
      → p.pk < s.next_pk
      → q < s.next_pk
      → IsKeyed s
      → (data_of (rows_of k (duplicate owner slug p s).0.pk (duplicate owner slug p s).1.attached)
          ≡ data_of (rows_of k p.pk s.attached))
        × (rows_of k q (duplicate owner slug p s).1.attached ≡ rows_of k q s.attached)
  unfolding duplicate
  duplicate_copies_rows k q lt old keyed =
      let le = header_draws owner p s in
      let fresh : (new_key == p.pk) ≡ false = fresh_key p.pk s.next_pk new_key lt le in
      let none_yet : rows_of k new_key s.attached ≡ [] =
        new_rows k s.next_pk new_key s.attached le keyed.attached in
      (
        related-rows_of p new_key fresh owner pictured k
              (ap (rows_of k new_key) pictured-attached ∙ none_yet)
            ∙ ap (λ z. data_of (rows_of k p.pk z)) pictured-attached,
        related_other p new_key fresh owner pictured k q (fresh_key q s.next_pk new_key old le)
            ∙ ap (rows_of k q) pictured-attached,
      )
