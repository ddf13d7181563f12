-- ===== src/Translator/Tests.antt =====
-- Translations with a client that answers each text with itself.
use projects_backend.Base.{
  ok, err, Text, ℕ, zero, suc, ◌≡◌, refl, true, false, none, some, List, [], ◌∷◌, arith,
}
use projects_backend.Translator.Field.{
  Outside, clean_translation, untranslated, translate_chunks, languages_of, update_translation,
  html, unbound_chunk_translations,
}
use projects_backend.Translator.Content.{split_loop, split_content}
use projects_backend.Translator.Split.{Splits, split_content-Splits}
use projects_backend.Translator.Update.{html_unbound}

-- one tag holds all of a content
abbrev echo : Outside
echo = record {
  top_level_tags = λ c. c ∷ [];
  is_blank = λ c. false;
  has_base64_image = λ c. false;
  translate = λ c languages ft. ok (untranslated c languages, 7);
}

-- "ab cd"
abbrev ab_cd : Text
ab_cd = 97 ∷ 98 ∷ 32 ∷ 99 ∷ 100 ∷ []

-- the second chunk begins with the space
split_test : split_content 6 ab_cd 4 ≡ some ((97 ∷ 98 ∷ []) ∷ (32 ∷ 99 ∷ 100 ∷ []) ∷ [])
unfolding split_content split_loop
split_test = refl

split_word_test : split_content 6 ab_cd 2 ≡ some ((97 ∷ 98 ∷ []) ∷ (32 ∷ 99 ∷ []) ∷ (100 ∷ []) ∷ [])
unfolding split_content split_loop
split_word_test = refl

clean_test : clean_translation (97 ∷ 160 ∷ 187 ∷ 160 ∷ []) ≡ 97 ∷ 34 ∷ []
clean_test = refl

languages_test :
    languages_of [] false (
      record { auto_translate_content = true; languages = 1 ∷ 2 ∷ [] }
      ∷ record { auto_translate_content = false; languages = 3 ∷ [] }
      ∷ record { auto_translate_content = true; languages = 2 ∷ [] }
      ∷ [])
    ≡ 1 ∷ 2 ∷ []
unfolding languages_of
languages_test = refl

-- an HTML content without a tag is up to date, though nothing is written
no_tag_test :
    update_translation 6 (record echo { top_level_tags = λ c. [] }) (1 ∷ []) html ab_cd
    ≡ some (ok (record { texts = []; detected_language = none; up_to_date = true }))
unfolding update_translation translate_chunks
no_tag_test = refl

split_content-Splits_example :
    (chunks : List Text) × (split_content 6 ab_cd 4 ≡ some chunks) × Splits ab_cd 4 chunks
split_content-Splits_example = split_content-Splits 6 ab_cd 4 (omega arith) (omega arith)

-- 10000 languages leave each a length of 4
abbrev many : ℕ → List ℕ
many zero = []
many (suc n) = n ∷ many n

html_unbound_test :
    update_translation 6 echo (1 ∷ many 9999) html ab_cd ≡ some (err unbound_chunk_translations)
html_unbound_test =
    html_unbound 6 echo 1 (many 9999) ab_cd ab_cd [] (untranslated ab_cd (1 ∷ []), 7) (omega arith)
      refl refl (omega arith) (omega arith) refl
