-- ===== src/Translator/Marks/Tests.antt =====
-- Tests of the marks of translations, on an object with the fields 1 and 2.
use projects_backend.Base.{
  ◌==◌, if◌then◌else◌, ℕ, ◌+◌, ◌≡◌, refl, Bool, true, false, some, List, [], ◌∷◌,
}
use projects_backend.Translator.Marks.{
  TranslationRow, TranslatedClass, TranslatedObject, with_values, update_translated_fields,
  save_translated, automatic_translations,
}
use projects_backend.Translator.Marks.Current.{IsCurrent, save_translated-IsCurrent}
use projects_backend.Translator.Marks.Settled.{IsSettled, automatic_translations-IsSettled}

abbrev two_fields : TranslatedClass
two_fields = record { auto_translated_fields = 1 ∷ 2 ∷ []; auto_translate_instantly = false }

-- Azure refuses the field 2.
abbrev refuses_two : ℕ → ℕ → Bool
refuses_two f v = f == 2

abbrev contents : ℕ → ℕ
contents f = f + 10

-- the field 1 is set to 99
abbrev edited : ℕ → ℕ
edited f = if f == 1 then 99 else f + 10

abbrev fresh_rows : List TranslationRow
fresh_rows = record { field = 1; up_to_date = true } ∷ record { field = 2; up_to_date = true } ∷ []

abbrev translated_object : TranslatedObject
translated_object = record { value = contents; translated = λ f. some (f + 10); rows = fresh_rows }

abbrev first_stale : List TranslationRow
first_stale =
    record { field = 1; up_to_date = false } ∷ record { field = 2; up_to_date = true } ∷ []

abbrev stale_object : TranslatedObject
stale_object = record { value = edited; translated = λ f. some (f + 10); rows = first_stale }

translated_object-IsCurrent : IsCurrent (1 ∷ 2 ∷ []) translated_object
translated_object-IsCurrent f here fresh = refl

edited_run :
    save_translated two_fields refuses_two (with_values edited translated_object) translated_object
    ≡ some stale_object
unfolding save_translated update_translated_fields
edited_run = refl

save_translated-IsCurrent_example : IsCurrent (1 ∷ 2 ∷ []) stale_object
save_translated-IsCurrent_example =
    save_translated-IsCurrent two_fields refuses_two edited translated_object stale_object
      translated_object-IsCurrent edited_run

automatic_translations-IsSettled_example :
    IsSettled 1 99 (automatic_translations refuses_two first_stale stale_object)
automatic_translations-IsSettled_example =
    automatic_translations-IsSettled refuses_two (1 ∷ 2 ∷ []) stale_object 1
      save_translated-IsCurrent_example refl refl refl

-- the object once the field 1 is translated anew
abbrev caught_up : TranslatedObject
caught_up = automatic_translations refuses_two first_stale stale_object

-- An instance that was read before both saves sets the field back: nothing is marked, since it
-- compares with what it read first, and the translation of 99 stays.
set_back_test :
    (save_translated two_fields refuses_two (with_values contents translated_object) caught_up)
    ≡ some (record caught_up { value = contents })
unfolding save_translated update_translated_fields automatic_translations
set_back_test = refl
