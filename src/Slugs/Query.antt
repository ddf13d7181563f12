-- ===== src/Slugs/Query.antt =====
-- apps/commons/queryset.py, `MultipleIdsQuerySet`: the rows that some identifiers name, each an
-- identifier or a slug as `get_id_field_name` decides.
use projects_backend.Base.{
  ◌==◌, mem, all, filter, Text, same_text, mem_text, ℕ, ◌≡◌, refl, Bool, true, false, ◌&&◌, ◌||◌,
  List, [], ◌∷◌, arith,
}
use projects_backend.Slugs.{SlugRow, has_slug}
use projects_backend.Slugs.Fresh.{same_text_sym}

pub data Identifier : Type 0 where
  by_id : ℕ → Identifier
  by_slug : Text → Identifier

-- `query`: the values for the field `id`, and those for `slug` and `outdated_slugs`
abbrev id_values : List Identifier → List ℕ
id_values [] = []
id_values (by_id i ∷ rest) = i ∷ id_values rest
id_values (by_slug s ∷ rest) = id_values rest

abbrev slug_values : List Identifier → List Text
slug_values [] = []
slug_values (by_id i ∷ rest) = slug_values rest
slug_values (by_slug s ∷ rest) = s ∷ slug_values rest

-- `outdated_slugs__contains=list(values)`: every one of the values is in the array
abbrev contains_all : List Text → List Text → Bool
contains_all values slugs = all (λ s. mem_text s slugs) values

abbrev or_slugs : Bool → List Text → SlugRow → Bool
or_slugs picked [] r = picked
or_slugs picked (s ∷ ss) r =
    picked || mem_text r.slug (s ∷ ss) || contains_all (s ∷ ss) r.outdated_slugs

-- `build_identifiers_query`: an empty `Q` lets every row through
abbrev matches_query : List ℕ → List Text → SlugRow → Bool
matches_query [] [] r = true
matches_query [] (s ∷ ss) r = or_slugs false (s ∷ ss) r
matches_query (i ∷ is) ss r = or_slugs (mem r.id (i ∷ is)) ss r

abbrev build_identifiers_query : List Identifier → SlugRow → Bool
build_identifiers_query ids = matches_query (id_values ids) (slug_values ids)

pub slug_or_ids : List Identifier → List SlugRow → List SlugRow
slug_or_ids ids rows = filter (build_identifiers_query ids) rows

pub slug_or_id : Identifier → List SlugRow → List SlugRow
slug_or_id i = slug_or_ids (i ∷ [])

filter-ext :
    (p q : SlugRow → Bool)
    → ((r : SlugRow) → p r ≡ q r)
    → (rows : List SlugRow) → filter p rows ≡ filter q rows
filter-ext p q same [] = refl
filter-ext p q same (r ∷ rows) = rw (same r, filter-ext p q same rows) refl

-- One slug names the rows that have it or had it, and one identifier the rows of that identifier.
pub slug_or_id_exact :
    (rows : List SlugRow) (s : Text) (i : ℕ)
    → (slug_or_id (by_slug s) rows ≡ filter (has_slug s) rows)
      × (slug_or_id (by_id i) rows ≡ filter (λ r. r.id == i) rows)
unfolding slug_or_id slug_or_ids
slug_or_id_exact rows s i = (
  filter-ext _ (has_slug s) (λ r. ground arith) rows,
  filter-ext _ (λ r. r.id == i) (λ r. ground arith) rows,
)

-- Several slugs: a row is named by its current slug, but by outdated ones only if it had them all.
pub slug_or_ids_outdated :
    (rows : List SlugRow) (s t : Text)
    → slug_or_ids (by_slug s ∷ by_slug t ∷ []) rows
      ≡ filter
          (λ r.
            same_text s r.slug
            || same_text t r.slug
            || (mem_text s r.outdated_slugs && mem_text t r.outdated_slugs))
          rows
unfolding slug_or_ids
slug_or_ids_outdated rows s t =
    filter-ext _ _ (λ r. ground (arith, same_text_sym s r.slug, same_text_sym t r.slug)) rows
