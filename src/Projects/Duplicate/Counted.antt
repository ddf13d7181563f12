-- ===== src/Projects/Duplicate/Counted.antt =====
-- apps/projects/models.py and apps/analytics/models.py: the counts of a copy.
use projects_backend.Base.{
  ltb, ◌==◌, any, all, ℕ, suc, ◌≤◌, ◌≡◌, refl, sym, ap, subst, ◌∙◌, true, false, Option, none, some,
  List, [], ◌∷◌, ◌++◌, arith,
}
use projects_backend.Projects.Library.{
  BlogEntry, Kind, Attached, AttachmentFile, Stat, Project, Library, project_image,
  blog_entry_image, announcement, location, goal, link,
}
use projects_backend.Projects.Duplicate.{
  copy_images, images_of, rows_of, on_stat, recount, save_row, copy_rows, copy_kind, entries_of,
  copy_entry, copy_entries, files_of, save_file, copy_file, copy_files, with_header, new_stat,
  copy_related, duplicate,
}
use projects_backend.Projects.Duplicate.Rows.{copy_images_keep}
use projects_backend.Projects.Duplicate.Header.{IsKeyed, header_keeps_stats, header_draws}

-- The project has no counts.
abbrev Uncounted : ℕ → List Stat → Type 0
Uncounted p stats = any (λ st. st.project == p) stats ≡ false

on_stat_absent :
    (p : ℕ) (f : Stat → Stat) (stats : List Stat) → Uncounted p stats → on_stat p f stats ≡ stats
on_stat_absent p f [] h = refl
on_stat_absent p f (st ∷ stats) h =
    let apart : (st.project == p) ≡ false = ground arith in
    rw apart (ap (λ z. st ∷ z) (on_stat_absent p f stats (ground arith)))

all_old :
    (m n : ℕ) (stats : List Stat)
    → m ≤ n
    → all (λ st. ltb st.project m) stats ≡ true
    → Uncounted n stats
all_old m n [] le h = refl
all_old m n (st ∷ stats) le h =
    let later = all_old m n stats le (ground arith) in
    let apart : (st.project == n) ≡ false = ground arith in rw apart later

module _ (new : ℕ) where
  -- A step that keeps the counts, for a project without any.
  abbrev KeepsStats : Library → Library → Type 0
  KeepsStats s t = Uncounted new s.stats → t.stats ≡ s.stats

  then_keeps : (s t u : Library) → KeepsStats s t → KeepsStats t u → KeepsStats s u
  then_keeps s t u f g h = g (subst (Uncounted new) (sym (f h)) h) ∙ f h

  copy_rows-KeepsStats : (rs : List Attached) (s : Library) → KeepsStats s (copy_rows new rs s)
  unfolding copy_rows
  copy_rows-KeepsStats [] s = λ h. refl
  copy_rows-KeepsStats (r ∷ rs) s =
      let row : Attached = record r { pk = s.next_pk; project = new } in
      then_keeps s (save_row row s) (copy_rows new rs (save_row row s))
        (on_stat_absent new (recount row.kind new (s.attached ++ row ∷ [])) s.stats)
        (copy_rows-KeepsStats rs (save_row row s))

  copy_entry-KeepsStats :
      (p : Project) (owner : Option ℕ) (e : BlogEntry) (s : Library)
      → KeepsStats s (copy_entry p new owner e s)
  copy_entry-KeepsStats p owner e s =
      then_keeps s
        (copy_images blog_entry_image p new owner (images_of e.images s) e.content
          (record s { next_pk = suc s.next_pk })).library
        (copy_entry p new owner e s)
        (λ h.
          copy_images_keep (λ x. x.stats) (λ n is x. refl) blog_entry_image p new owner
            (images_of e.images s) e.content (record s { next_pk = suc s.next_pk }))
        (λ h. on_stat_absent new _ _ h)

  copy_entries-KeepsStats :
      (p : Project) (owner : Option ℕ) (es : List BlogEntry) (s : Library)
      → KeepsStats s (copy_entries p new owner es s)
  unfolding copy_entries
  copy_entries-KeepsStats p owner [] s = λ h. refl
  copy_entries-KeepsStats p owner (e ∷ es) s =
      then_keeps s (copy_entry p new owner e s)
        (copy_entries p new owner es (copy_entry p new owner e s))
        (copy_entry-KeepsStats p owner e s)
        (copy_entries-KeepsStats p owner es (copy_entry p new owner e s))

  copy_file-KeepsStats : (f : AttachmentFile) (s : Library) → KeepsStats s (copy_file new f s)
  copy_file-KeepsStats f s h =
      elim f.content
        as (λ c.
          (elim c as (λ z. Library) [
            | none ↦ s
            | some x ↦ save_file (record f { pk = s.next_pk; project = new }) s
          ]).stats
          ≡ s.stats) [ none ↦ refl | some x ↦ on_stat_absent new _ s.stats h ]

  copy_files-KeepsStats :
      (fs : List AttachmentFile) (s : Library) → KeepsStats s (copy_files new fs s)
  unfolding copy_files
  copy_files-KeepsStats [] s = λ h. refl
  copy_files-KeepsStats (f ∷ fs) s =
      then_keeps s (copy_file new f s) (copy_files new fs (copy_file new f s))
        (copy_file-KeepsStats f s) (copy_files-KeepsStats fs (copy_file new f s))

  copy_kind-KeepsStats : (k : Kind) (p : Project) (s : Library) → KeepsStats s (copy_kind k new p s)
  copy_kind-KeepsStats k p s = copy_rows-KeepsStats (rows_of k p.pk s.attached) s

  copy_related-KeepsStats :
      (p : Project) (owner : Option ℕ) (s : Library) → KeepsStats s (copy_related p new owner s)
  copy_related-KeepsStats p owner s =
      let s1 = copy_entries p new owner (entries_of p.pk s.blog_entries) s in
      let s2 = copy_kind announcement new p s1 in
      let s3 = copy_kind location new p s2 in
      let s4 = copy_kind goal new p s3 in
      let s5 = copy_kind link new p s4 in
      let t = copy_related p new owner s in
      then_keeps s s1 t (copy_entries-KeepsStats p owner (entries_of p.pk s.blog_entries) s) (
        then_keeps s1 s2 t (copy_kind-KeepsStats announcement p s1) (
          then_keeps s2 s3 t (copy_kind-KeepsStats location p s2) (
            then_keeps s3 s4 t (copy_kind-KeepsStats goal p s3) (
              then_keeps s4 s5 t (copy_kind-KeepsStats link p s4)
                (copy_files-KeepsStats (files_of p.pk s5.files) s5)))))

-- For rows whose keys were drawn before, and whatever the project has: the links, files, blog entries
-- and goals of its copy are all counted as 0, and the counts of the other projects are as they were.
pub duplicate_counts_nothing :
    (owner : Option ℕ) (slug : ℕ) (p : Project) (s : Library)
    → IsKeyed s
    → (duplicate owner slug p s).1.stats ≡ s.stats ++ new_stat (duplicate owner slug p s).0.pk ∷ []
unfolding duplicate
duplicate_counts_nothing owner slug p s keyed =
    let t = (with_header owner p s).1 in
    let r =
      copy_images project_image p t.next_pk owner (images_of p.images t) p.description
        (record t { next_pk = suc t.next_pk }) in
    let same : r.library.stats ≡ s.stats =
      copy_images_keep (λ x. x.stats) (λ n is x. refl) project_image p t.next_pk owner
        (images_of p.images t) p.description (record t { next_pk = suc t.next_pk })
      ∙ header_keeps_stats owner p s in
    let uncounted : Uncounted t.next_pk s.stats =
      all_old s.next_pk t.next_pk s.stats (header_draws owner p s) keyed.stats in
    ap (λ z. z ++ new_stat t.next_pk ∷ [])
      (copy_related-KeepsStats t.next_pk p owner r.library
          (subst (Uncounted t.next_pk) (sym same) uncounted)
        ∙ same)
