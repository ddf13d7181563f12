-- ===== src/Slugs.antt =====
-- Slugs: apps/commons/mixins.py, `HasMultipleIDs`. A row has a current slug and the outdated ones
-- that still lead to it.
-- Django's `slugify` and the test of each model's `get_id_field_name` are arguments, the fields of
-- `SlugClass`; `project_class` is the one of `Project`. Both loops take fuel.
pub mod Rows
pub mod Nonempty
pub mod Fresh
pub mod Unique
pub mod Keyed
pub mod Resolve
pub mod Query
mod Tests
use projects_backend.Base.{
  ◌==◌, if◌then◌else◌, length, any, filter, Text, same_text, mem_text, dash, hyphenated, join_dash,
  take, str, ℕ, zero, suc, Bool, true, false, not, ◌&&◌, ◌||◌, Option, none, some, List, [], ◌∷◌,
  ◌++◌,
}

-- The class attributes of a model, `get_id_field_name(object_id) == "slug"`, and `slugify`.
pub record SlugClass : Type 0 where
  pub slug_prefix : Text
  pub reserved_slugs : List Text
  pub names_slug : Text → Bool
  pub slugify : Text → Text

-- `values` are those of the slugified fields; `deleted` marks a soft-deleted row.
pub record SlugRow : Type 0 where
  pub id : ℕ
  pub slug : Text
  pub outdated_slugs : List Text
  pub values : List Text
  pub deleted : Bool

abbrev pub is_empty : Text → Bool
is_empty [] = true
is_empty (c ∷ cs) = false

abbrev pub has_slug : Text → SlugRow → Bool
has_slug s r = same_text r.slug s || mem_text s r.outdated_slugs

-- `slug_exists`, which looks at the soft-deleted rows too
abbrev pub slug_exists : List SlugRow → Text → Bool
slug_exists rows s = any (has_slug s) rows

-- `Project.get_id_field_name`
abbrev project_names_slug : Text → Bool
project_names_slug s = not (length s == 8)

-- `slug in self.outdated_slugs or slug == self.slug`
abbrev pub is_own : SlugRow → Text → Bool
is_own self s = mem_text s self.outdated_slugs || same_text s self.slug

module _ (cls : SlugClass) where
  -- the first slug that is tried, before the clash with another identifier is ruled out
  abbrev pub base_slug : List Text → Text
  base_slug values =
      let raw = cls.slugify (take 46 (join_dash values)) in
      if is_empty raw || same_text raw (dash ∷ []) then cls.slug_prefix else raw

  -- `while self.get_id_field_name(raw_slug) != "slug"`
  unfoldable pub prefix_loop : ℕ → Text → Option Text
  prefix_loop zero raw = none
  prefix_loop (suc fuel) raw =
      let rest = prefix_loop fuel (hyphenated cls.slug_prefix raw) in
      if cls.names_slug raw then some raw else rest

  abbrev pub numbered : Text → ℕ → Text
  numbered raw count =
      let slug = hyphenated raw (str count) in
      if cls.names_slug slug then slug else hyphenated cls.slug_prefix slug

  -- `self.slug_exists(slug) or slug in [self.slug_prefix, *self.reserved_slugs]`
  abbrev pub is_taken : List SlugRow → Text → Bool
  is_taken rows s = slug_exists rows s || mem_text s (cls.slug_prefix ∷ cls.reserved_slugs)

  -- the loop that numbers the slug
  unfoldable pub number_loop : List SlugRow → SlugRow → Text → ℕ → ℕ → Text → Option Text
  number_loop rows self raw zero count slug = none
  number_loop rows self raw (suc fuel) count slug =
      let rest = number_loop rows self raw fuel (suc count) (numbered raw (suc count)) in
      if is_taken rows slug then if is_own self slug then some slug else rest else some slug

  abbrev pub number_from : List SlugRow → SlugRow → ℕ → Option Text → Option Text
  number_from rows self fuel none = none
  number_from rows self fuel (some raw) = number_loop rows self raw fuel 0 raw

  -- `get_slug`
  unfoldable pub get_slug : List SlugRow → SlugRow → ℕ → Option Text
  get_slug rows self fuel = number_from rows self fuel (prefix_loop fuel (base_slug self.values))

-- the outdated slugs when `new_slug` takes the place of the slug
abbrev outdate : SlugRow → Text → List Text
outdate self new_slug =
    if not (is_empty self.slug)
      && not (same_text new_slug self.slug)
      && not (mem_text self.slug self.outdated_slugs)
    then self.outdated_slugs ++ self.slug ∷ []
    else self.outdated_slugs

abbrev pub renamed : SlugRow → Text → SlugRow
renamed self new_slug = record self { slug = new_slug; outdated_slugs = outdate self new_slug }

abbrev pub same_values : List Text → List Text → Bool
same_values [] [] = true
same_values [] (y ∷ ys) = false
same_values (x ∷ xs) [] = false
same_values (x ∷ xs) (y ∷ ys) = same_text x y && same_values xs ys

-- the row that `super().save()` writes: over the row of that identifier, or as a new one
unfoldable pub write_row : SlugRow → List SlugRow → List SlugRow
write_row r [] = r ∷ []
write_row r (x ∷ xs) = let rest = write_row r xs in if x.id == r.id then r ∷ xs else x ∷ rest

abbrev save_slug : SlugRow → List SlugRow → Option Text → Option (SlugRow × List SlugRow)
save_slug self rows none = none
save_slug self rows (some new_slug) =
    some (renamed self new_slug, write_row (renamed self new_slug) rows)

-- `save`, with the values that the slugified fields had when the object was read
unfoldable pub save :
    SlugClass → List Text → SlugRow → List SlugRow → ℕ → Option (SlugRow × List SlugRow)
save cls original self rows fuel =
    if is_empty self.slug || not (same_values self.values original)
    then save_slug self rows (get_slug cls rows self fuel)
    else some (self, write_row self rows)

-- `get_object_or_404`: the one row that a test picks out, or `Http404`, or `MultipleObjectsReturned`
pub data Found : Type 0 where
  found : SlugRow → Found
  not_found several : Found

abbrev pub the_only : List SlugRow → Found
the_only [] = not_found
the_only (r ∷ []) = found r
the_only (r ∷ s ∷ rest) = several

-- the default manager leaves the soft-deleted rows out
abbrev pub visible : List SlugRow → List SlugRow
visible = filter (λ r. not r.deleted)

abbrev pub get_object : (SlugRow → Bool) → List SlugRow → Found
get_object test rows = the_only (filter test (visible rows))

abbrev or_outdated : Found → Found → Found
or_outdated not_found other = other
or_outdated (found r) other = found r
or_outdated several other = several

-- the `try` and the `except` of `get_main_id`, for a slug
abbrev pub find_by_slug : List SlugRow → Text → Found
find_by_slug rows s =
    or_outdated (get_object (λ r. same_text r.slug s) rows)
      (get_object (λ r. mem_text s r.outdated_slugs) rows)

-- What `get_main_id` answers: an identifier that is no slug as it was given, and else the identifier
-- of the row that was found.
pub data MainId : Type 0 where
  given : Text → MainId
  looked_up : Found → MainId

-- `get_main_id`, of a class whose rows are named by the field that it returns and by their slugs
pub get_main_id : SlugClass → List SlugRow → Text → MainId
get_main_id cls rows s = if cls.names_slug s then looked_up (find_by_slug rows s) else given s

-- The class of `Project`; its prefix is "project".
abbrev pub project_class : (Text → Text) → SlugClass
project_class slugify = record {
  slug_prefix = 112 ∷ 114 ∷ 111 ∷ 106 ∷ 101 ∷ 99 ∷ 116 ∷ [];
  reserved_slugs = [];
  names_slug = project_names_slug;
  slugify = slugify;
}
