-- ===== src/Translator/Marks.antt =====
-- services/translator/mixins.py, `HasAutoTranslatedFields`, and services/translator/tasks.py: which
-- translations of one object's fields are marked as out of date, and when they are made again.
-- A translation is known by the content that `update_translation` last ran on; what it writes then,
-- for the languages of the organizations, is in Translator/Field. Which contents Azure refuses is an
-- argument; `field_type`, which each class fixes for its fields, is left out.
pub mod Fresh
pub mod Current
pub mod Settled
mod Tests
use projects_backend.Base.{
  ◌==◌, if◌then◌else◌, any, ℕ, Bool, true, false, not, ◌||◌, Option, none, some, List, [], ◌∷◌,
  ◌++◌, map,
}

-- a row of `AutoTranslatedField`
pub record TranslationRow : Type 0 where
  pub field : ℕ
  pub up_to_date : Bool

pub record TranslatedClass : Type 0 where
  pub auto_translated_fields : List ℕ
  pub auto_translate_instantly : Bool

pub record TranslatedObject : Type 0 where
  pub value : ℕ → ℕ
  -- the content of a field that `update_translation` last ran on, without an exception
  pub translated : ℕ → Option ℕ
  pub rows : List TranslationRow

-- An instance in memory, with `_original_auto_translated_fields_values`.
pub record Instance : Type 0 where
  pub values : ℕ → ℕ
  pub originals : ℕ → ℕ

abbrev pub with_values : (ℕ → ℕ) → TranslatedObject → Instance
with_values values s = record { values = values; originals = s.value }

-- `update_or_create(..., defaults={"up_to_date": False})`
abbrev pub mark : ℕ → List TranslationRow → List TranslationRow
mark f rows =
    if any (λ r. r.field == f) rows
    then map (λ r. if r.field == f then record r { up_to_date = false } else r) rows
    else rows ++ record { field = f; up_to_date = false } ∷ []

abbrev pub settle : ℕ → List TranslationRow → List TranslationRow
settle f = map (λ r. if r.field == f then record r { up_to_date = true } else r)

-- `update_translation` of a field, which raises where Azure does
abbrev pub translate_field :
    (refused : ℕ → ℕ → Bool) → ℕ → TranslatedObject → Option TranslatedObject
translate_field refused f s =
    if refused f (s.value f)
    then none
    else some (record s {
      translated = λ g. if g == f then some (s.value f) else s.translated g;
      rows = settle f s.rows;
    })

abbrev pub if_instantly :
    Bool → (refused : ℕ → ℕ → Bool) → ℕ → TranslatedObject → Option TranslatedObject
if_instantly true refused f s = translate_field refused f s
if_instantly false refused f s = some s

abbrev pub changed : Instance → ℕ → Bool
changed i f = not (i.values f == i.originals f)

-- `update_translated_fields`, over the fields of the class
unfoldable pub update_translated_fields :
    (instantly : Bool)
    → (refused : ℕ → ℕ → Bool) → (force_update : Bool) → Instance
    → List ℕ
    → TranslatedObject
    → Option TranslatedObject
update_translated_fields instantly refused force i [] s = some s
update_translated_fields instantly refused force i (f ∷ fs) s =
    if force || changed i f
    then elim (if_instantly instantly refused f (record s { rows = mark f s.rows })) [
      | none ↦ none
      | some t ↦ update_translated_fields instantly refused force i fs t
    ]
    else update_translated_fields instantly refused force i fs s

abbrev pub no_rows : List TranslationRow → Bool
no_rows [] = true
no_rows (r ∷ rows) = false

-- `save`; `none` where it raises, and the transaction is rolled back
unfoldable pub save_translated :
    TranslatedClass
    → (refused : ℕ → ℕ → Bool) → Instance
    → TranslatedObject
    → Option TranslatedObject
save_translated cls refused i s =
    update_translated_fields cls.auto_translate_instantly refused (no_rows s.rows) i
      cls.auto_translated_fields (record s { value = i.values })

abbrev pub kept_on_error : TranslatedObject → Option TranslatedObject → TranslatedObject
kept_on_error s none = s
kept_on_error s (some t) = t

-- the loop of `automatic_translations`, over the rows that its query reads
unfoldable pub automatic_translations :
    (refused : ℕ → ℕ → Bool) → List TranslationRow → TranslatedObject → TranslatedObject
automatic_translations refused [] s = s
automatic_translations refused (r ∷ rest) s =
    if r.up_to_date
    then automatic_translations refused rest s
    else automatic_translations refused rest (kept_on_error s (translate_field refused r.field s))
