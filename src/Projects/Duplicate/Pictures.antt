-- ===== src/Projects/Duplicate/Pictures.antt =====
-- apps/projects/models.py: the URLs of images in the texts of a copy.
use projects_backend.Base.{
  ◌==◌, if◌then◌else◌, Bool-cases, ℕ, suc, ◌<◌, ◌≡◌, refl, ap, ◌∙◌, inl, inr, Bool, false, ◌&&◌,
  ◌||◌, Option, none, some, List, [], ◌∷◌, map, arith,
}
use projects_backend.Projects.Library.{
  ProjectName, same_name, ImageRoute, same_route, Piece, Image, Project, Library, by_pk, by_slug,
  project_image, words, picture,
}
use projects_backend.Projects.Duplicate.{images_of, with_header, duplicate}
use projects_backend.Projects.Duplicate.Header.{header_draws, fresh_key}
use projects_backend.Projects.Duplicate.{Copied}
use projects_backend.Projects.Duplicate.{add_image}
use projects_backend.Projects.Duplicate.{repoint, copy_images}

-- The keys of images with those of their copies: an image that cannot be read has none.
abbrev copies_of : List Image → ℕ → List (ℕ × ℕ)
copies_of [] n = []
copies_of (i ∷ is) n = elim i.content [
  | none ↦ copies_of is n
  | some c ↦ (i.pk, n) ∷ copies_of is (suc n)
]

-- the first copy of an image
abbrev copy_in : List (ℕ × ℕ) → ℕ → Option ℕ
copy_in [] k = none
copy_in ((old, copy) ∷ rest) k = let later = copy_in rest k in if k == old then some copy else later

abbrev names : Project → ProjectName → Bool
names p a = same_name a (by_pk p.pk) || same_name a (by_slug p.slug)

abbrev renamed_picture : Piece → ℕ → ImageRoute → Option ℕ → Piece
renamed_picture piece new r none = piece
renamed_picture piece new r (some copy) = picture r (by_pk new) copy

-- A URL that names the project by its key or its slug, and an image that was copied, becomes the
-- URL of the copy; everything else stays.
abbrev pub translated : ImageRoute → Project → (new : ℕ) → List (ℕ × ℕ) → Piece → Piece
translated route p new copies (words t) = words t
translated route p new copies (picture r a k) =
    if same_route r route && names p a
    then renamed_picture (picture r a k) new r (copy_in copies k)
    else picture r a k

map_twice :
    {A : Type 0} (f g h : A → A)
    → ((x : A) → f (g x) ≡ h x)
    → (xs : List A) → map f (map g xs) ≡ map h xs
map_twice f g h e [] = refl
map_twice f g h e (x ∷ xs) = rw (e x, map_twice f g h e xs)

translated-repoint :
    (route : ImageRoute) (p : Project) (new image copy : ℕ) (copies : List (ℕ × ℕ))
    → (new == p.pk) ≡ false
    → (x : Piece)
    → translated route p new copies (repoint route p new image copy x)
      ≡ translated route p new ((image, copy) ∷ copies) x
translated-repoint route p new image copy copies fresh (words t) = refl
translated-repoint route p new image copy copies fresh (picture r (by_pk a) k) = ground arith
translated-repoint route p new image copy copies fresh (picture r (by_slug a) k) = ground arith

translated_none :
    (route : ImageRoute) (p : Project) (new : ℕ) (t : List Piece)
    → t ≡ map (translated route p new []) t
translated_none route p new [] = refl
translated_none route p new (words x ∷ t) = ap (λ z. words x ∷ z) (translated_none route p new t)
translated_none route p new (picture r a k ∷ t) =
    elim (Bool-cases (same_route r route && names p a)) [
      | inl e ↦ rw e (ap (λ z. picture r a k ∷ z) (translated_none route p new t))
      | inr e ↦ rw e (ap (λ z. picture r a k ∷ z) (translated_none route p new t))
    ]

-- The loop over the images leaves the text that one pass would give.
copy_images-text :
    (route : ImageRoute) (p : Project) (new : ℕ) (owner : Option ℕ) (is : List Image)
    (t : List Piece) (s : Library)
    → (new == p.pk) ≡ false
    → (copy_images route p new owner is t s).text
      ≡ map (translated route p new (copies_of is s.next_pk)) t
unfolding copy_images
copy_images-text route p new owner [] t s fresh = translated_none route p new t
copy_images-text route p new owner (i ∷ is) t s fresh =
    elim i.content
      as (λ c.
        (elim c as (λ z. Copied) [
          | none ↦ copy_images route p new owner is t s
          | some x ↦
              let rest =
                copy_images route p new owner is (map (repoint route p new i.pk s.next_pk) t)
                  (add_image owner x s) in
              record rest { images = s.next_pk ∷ rest.images }
        ]).text
        ≡ map
            (translated route p new (elim c [
              | none ↦ copies_of is s.next_pk
              | some x ↦ (i.pk, s.next_pk) ∷ copies_of is (suc s.next_pk)
            ]))
            t) [
              | none ↦ copy_images-text route p new owner is t s fresh
              | some x ↦
                  copy_images-text route p new owner is (map (repoint route p new i.pk s.next_pk) t)
                    (add_image owner x s) fresh
                  ∙ map_twice (translated route p new (copies_of is (suc s.next_pk)))
                      (repoint route p new i.pk s.next_pk)
                      (translated route p new ((i.pk, s.next_pk) ∷ copies_of is (suc s.next_pk)))
                      (translated-repoint route p new i.pk s.next_pk (copies_of is (suc s.next_pk))
                        fresh)
                      t
            ]

-- For a project whose key was drawn before: its copy has its description, in which each URL that
-- names the project by its key or current slug, and an image that was copied, is the URL of the
-- copy of that image, and all else is as it was.
pub duplicate-description :
    (owner : Option ℕ) (slug : ℕ) (p : Project) (s : Library)
    → p.pk < s.next_pk
    → (duplicate owner slug p s).0.description
      ≡ map
          (translated project_image p (with_header owner p s).1.next_pk (
            copies_of
              (images_of p.images (with_header owner p s).1)
              (suc (with_header owner p s).1.next_pk)))
          p.description
unfolding duplicate
duplicate-description owner slug p s lt =
    let t = (with_header owner p s).1 in
    copy_images-text project_image p t.next_pk owner (images_of p.images t) p.description
      (record t { next_pk = suc t.next_pk })
      (fresh_key p.pk s.next_pk t.next_pk lt (header_draws owner p s))
