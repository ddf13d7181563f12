-- ===== src/Projects/Duplicate/Rows.antt =====
-- apps/projects/models.py: the rows that are copied with a project.
use projects_backend.Base.{
  ◌==◌, ==_iff, Bool-cases, filter, append_next, append_nil, filter-append, ℕ, suc, ◌≡◌, refl, sym,
  ap, ◌∙◌, inl, inr, false, ◌&&◌, Option, none, some, List, [], ◌∷◌, ◌++◌, map, arith,
}
use projects_backend.Projects.Library.{
  ImageRoute, Piece, Image, BlogEntry, Kind, same_kind, Attached, AttachmentFile, Project, Library,
  blog_entry_image,
}
use projects_backend.Projects.Duplicate.{save_file}
use projects_backend.Projects.Duplicate.{
  images_of, copy_kind, copy_entry, copy_entries, copy_file, copy_files,
}
use projects_backend.Projects.Duplicate.{
  repoint, add_image, Copied, copy_images, rows_of, save_row, copy_rows,
}

abbrev pub data_of : List Attached → List ℕ
data_of = map (λ r. r.fields)

abbrev of_kind : Kind → List Attached → List Attached
of_kind k = filter (λ r. same_kind r.kind k)

data_of-append : (xs ys : List Attached) → data_of (xs ++ ys) ≡ data_of xs ++ data_of ys
data_of-append [] ys = refl
data_of-append (x ∷ xs) ys = ap (λ z. x.fields ∷ z) (data_of-append xs ys)

-- A part of the library that new images leave alone.
pub copy_images_keep :
    {A : Type 0} (part : Library → A)
    → ((n : ℕ) (is : List Image) (s : Library)
        → part (record s { images = is; next_pk = n }) ≡ part s)
    → (route : ImageRoute) (p : Project) (new : ℕ) (owner : Option ℕ) (is : List Image)
      (t : List Piece) (s : Library)
    → part (copy_images route p new owner is t s).library ≡ part s
unfolding copy_images
copy_images_keep part k route p new owner [] t s = refl
copy_images_keep part k route p new owner (i ∷ is) t s =
    elim i.content
      as (λ c.
        part
          (elim c as (λ z. Copied) [
            | none ↦ copy_images route p new owner is t s
            | some x ↦
                let rest =
                  copy_images route p new owner is (map (repoint route p new i.pk s.next_pk) t)
                    (add_image owner x s) in
                record rest { images = s.next_pk ∷ rest.images }
          ]).library
        ≡ part s) [
          | none ↦ copy_images_keep part k route p new owner is t s
          | some x ↦
              copy_images_keep part k route p new owner is
                (map (repoint route p new i.pk s.next_pk) t) (add_image owner x s)
              ∙ k (suc s.next_pk) (add_image owner x s).images s
        ]

-- Only the rows of the copy are new.
pub copy_rows_other :
    (k : Kind) (q new : ℕ) (rs : List Attached) (s : Library)
    → (new == q) ≡ false
    → rows_of k q (copy_rows new rs s).attached ≡ rows_of k q s.attached
unfolding copy_rows
copy_rows_other k q new [] s h = refl
copy_rows_other k q new (r ∷ rs) s h =
    let row : Attached = record r { pk = s.next_pk; project = new } in
    copy_rows_other k q new rs (save_row row s) h
    ∙ filter-append (λ x. same_kind x.kind k && x.project == q) s.attached (row ∷ [])
    ∙ elim (Bool-cases (same_kind r.kind k)) [
      | inl e ↦ rw (e, h) (append_nil (rows_of k q s.attached))
      | inr e ↦ rw e (append_nil (rows_of k q s.attached))
    ]

copy_rows_own :
    (k : Kind) (new : ℕ) (rs : List Attached) (s : Library)
    → data_of (rows_of k new (copy_rows new rs s).attached)
      ≡ data_of (rows_of k new s.attached) ++ data_of (of_kind k rs)
unfolding copy_rows
copy_rows_own k new [] s = sym (append_nil (data_of (rows_of k new s.attached)))
copy_rows_own k new (r ∷ rs) s =
    let row : Attached = record r { pk = s.next_pk; project = new } in
    copy_rows_own k new rs (save_row row s)
    ∙ ap (λ z. data_of z ++ data_of (of_kind k rs))
        (filter-append (λ x. same_kind x.kind k && x.project == new) s.attached (row ∷ []))
    ∙ elim (Bool-cases (same_kind r.kind k)) [
      | inl e ↦
          rw (e, (==_iff new new).1 refl)
            (ap (λ z. z ++ data_of (of_kind k rs))
                (data_of-append (rows_of k new s.attached) (row ∷ []))
              ∙ append_next (data_of (rows_of k new s.attached)) r.fields (data_of (of_kind k rs)))
      | inr e ↦
          rw e
            (ap (λ z. data_of z ++ data_of (of_kind k rs)) (append_nil (rows_of k new s.attached)))
    ]

kind_of_kind :
    (k : Kind) (q : ℕ) (rows : List Attached) → of_kind k (rows_of k q rows) ≡ rows_of k q rows
kind_of_kind k q [] = refl
kind_of_kind k q (r ∷ rows) = elim (Bool-cases (same_kind r.kind k)) [
  | inl e ↦ elim (Bool-cases (r.project == q)) [
    | inl f ↦ rw (e, f) (rw e (ap (λ z. r ∷ z) (kind_of_kind k q rows)))
    | inr f ↦ rw (e, f) (kind_of_kind k q rows)
  ]
  | inr e ↦ rw e (kind_of_kind k q rows)
]

other_kind :
    (k j : Kind) (q : ℕ) (rows : List Attached)
    → same_kind j k ≡ false
    → of_kind k (rows_of j q rows) ≡ []
other_kind k j q [] h = refl
other_kind k j q (r ∷ rows) h = elim (Bool-cases (same_kind r.kind j)) [
  | inl e ↦ elim (Bool-cases (r.project == q)) [
    | inl f ↦
        let apart : same_kind r.kind k ≡ false = ground arith in
        rw (e, f) (rw apart (other_kind k j q rows h))
    | inr f ↦ rw (e, f) (other_kind k j q rows h)
  ]
  | inr e ↦ rw e (other_kind k j q rows h)
]

pub copy_entries_keep_attached :
    (p : Project) (new : ℕ) (owner : Option ℕ) (es : List BlogEntry) (s : Library)
    → (copy_entries p new owner es s).attached ≡ s.attached
unfolding copy_entries
copy_entries_keep_attached p new owner [] s = refl
copy_entries_keep_attached p new owner (e ∷ es) s =
    copy_entries_keep_attached p new owner es (copy_entry p new owner e s)
    ∙ copy_images_keep (λ x. x.attached) (λ n is x. refl) blog_entry_image p new owner
        (images_of e.images s) e.content (record s { next_pk = suc s.next_pk })

copy_file_keeps_attached :
    (new : ℕ) (f : AttachmentFile) (s : Library) → (copy_file new f s).attached ≡ s.attached
copy_file_keeps_attached new f s =
    elim f.content
      as (λ c.
        (elim c as (λ z. Library) [
          | none ↦ s
          | some x ↦ save_file (record f { pk = s.next_pk; project = new }) s
        ]).attached
        ≡ s.attached) [ none ↦ refl | some x ↦ refl ]

pub copy_files_keep_attached :
    (new : ℕ) (fs : List AttachmentFile) (s : Library) → (copy_files new fs s).attached ≡ s.attached
unfolding copy_files
copy_files_keep_attached new [] s = refl
copy_files_keep_attached new (f ∷ fs) s =
    copy_files_keep_attached new fs (copy_file new f s) ∙ copy_file_keeps_attached new f s

pub join_none : (xs ys zs : List ℕ) → xs ≡ [] → ys ≡ zs → xs ++ ys ≡ zs
join_none xs ys zs e f = rw e f

module _ (p : Project) (new : ℕ) (fresh : (new == p.pk) ≡ false) where
  pub kind_kept :
      (j k : Kind) (s : Library)
      → data_of (rows_of k p.pk (copy_kind j new p s).attached)
        ≡ data_of (rows_of k p.pk s.attached)
  kind_kept j k s = ap data_of (copy_rows_other k p.pk new (rows_of j p.pk s.attached) s fresh)

  pub kind_other :
      (j k : Kind) (s : Library)
      → same_kind j k ≡ false
      → data_of (rows_of k new (copy_kind j new p s).attached) ≡ data_of (rows_of k new s.attached)
  kind_other j k s h =
      copy_rows_own k new (rows_of j p.pk s.attached) s
      ∙ ap (λ z. data_of (rows_of k new s.attached) ++ data_of z) (other_kind k j p.pk s.attached h)
      ∙ append_nil (data_of (rows_of k new s.attached))

  pub kind_own :
      (k : Kind) (s : Library)
      → data_of (rows_of k new (copy_kind k new p s).attached)
        ≡ data_of (rows_of k new s.attached) ++ data_of (rows_of k p.pk s.attached)
  kind_own k s =
      copy_rows_own k new (rows_of k p.pk s.attached) s
      ∙ ap (λ z. data_of (rows_of k new s.attached) ++ data_of z) (kind_of_kind k p.pk s.attached)
