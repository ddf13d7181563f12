-- ===== src/Translator/Field.antt =====
-- services/translator/models.py: `AutoTranslatedField`, which has the chunks of a content translated and
-- writes the translations. Outside are BeautifulSoup, the regular expression for embedded images and
-- the Azure client: they are fields of `Outside`.
use projects_backend.Base.{
  ltb, leb, ◌==◌, if◌then◌else◌, mem, length, any, filter, Result, ◌>>=◌, ok, err, Text, ℕ, ◌+◌,
  ◌/◌, Bool, true, false, not, ◌&&◌, ◌||◌, Option, none, some, List, [], ◌∷◌, ◌++◌, map,
}
use projects_backend.Translator.Content.{split_content}

pub data FieldType : Type 0 where
  plain html : FieldType

pub data UpdateError : Type 0 where
  unbound_chunk_translations : UpdateError
  index_error : UpdateError
  azure_error : ℕ → UpdateError

-- What Azure answers: for each language its text, and the language that it detected.
abbrev pub Answer : Type 0
Answer = List (ℕ × Text) × ℕ

pub record Outside : Type 0 where
  -- `BeautifulSoup(content).find_all(recursive=False)`, each tag as a text
  pub top_level_tags : Text → List Text
  -- `not str(chunk).strip() or not chunk.get_text(strip=True)`
  pub is_blank : Text → Bool
  -- `re.findall(r'data:image...', content)`
  pub has_base64_image : Text → Bool
  -- `service.translate`
  pub translate : Text → List ℕ → FieldType → Result UpdateError Answer

-- `replace("\xa0»", '"')`
abbrev replace_quote : Text → Text
replace_quote [] = []
replace_quote (x ∷ []) = x ∷ []
replace_quote (x ∷ y ∷ rest) = elim (x == 160 && y == 187) [
  | true ↦ 34 ∷ replace_quote rest
  | false ↦ x ∷ replace_quote (y ∷ rest)
]

-- `replace("\xa0", "")`
abbrev pub clean_translation : Text → Text
clean_translation text = filter (λ c. not (c == 160)) (replace_quote text)

-- `AzureTranslatorService.translate_text_content`
unfoldable pub translate_text_content :
    Outside → Text → List ℕ → FieldType → Result UpdateError Answer
translate_text_content o content languages field_type =
    o.translate content languages field_type >>= λ (ts, detected).
    ok (map (λ (lang, text). (lang, clean_translation text)) ts, detected)

abbrev pub keys : List (ℕ × Text) → List ℕ
keys = map (λ (k, t). k)

-- `translations.get(key, "")`
abbrev pub text_for : ℕ → List (ℕ × Text) → Text
text_for k [] = []
text_for k ((j, t) ∷ rest) = let later = text_for k rest in if j == k then t else later

-- The dict of the old texts with the new ones after them, for the languages of the new ones. Where
-- a key is repeated the last text stays.
abbrev pub extend : List (ℕ × Text) → List (ℕ × Text) → List (ℕ × Text)
extend old [] = []
extend old ((k, t) ∷ rest) =
    let more = extend old rest in
    if mem k (keys rest) then more else (k, text_for k old ++ t) ∷ more

-- The variables of the loop over the chunks; `chunk_translations` is unbound before its first
-- assignment.
pub record Progress : Type 0 where
  pub chunk_translations : Option (List (ℕ × Text))
  pub translations : List (ℕ × Text)
  pub detected_languages : List ℕ

abbrev pub base_max_length : ℕ
base_max_length = 40000

abbrev pub untranslated : Text → List ℕ → List (ℕ × Text)
untranslated chunk languages = map (λ lang. (lang, chunk)) languages

-- reading `chunk_translations`
abbrev bound : Option (List (ℕ × Text)) → Result UpdateError (List (ℕ × Text))
bound none = err unbound_chunk_translations
bound (some es) = ok es

-- `lang_chunk_translation[0]["text"]`
abbrev first_text : List (ℕ × Text) → Result UpdateError Text
first_text [] = err index_error
first_text ((k, t) ∷ rest) = ok t

-- the loop over the languages of a chunk that is too long for all of them at once
unfoldable pub each_language :
    Outside → FieldType → Text → List ℕ → Progress → Result UpdateError Progress
each_language o ft chunk [] p = ok p
each_language o ft chunk (lang ∷ langs) p =
    translate_text_content o chunk (lang ∷ []) ft >>= λ (ts, detected).
    bound p.chunk_translations >>= λ es. first_text ts >>= λ text.
    each_language o ft chunk langs (record p {
      chunk_translations = some (es ++ (lang, text) ∷ []);
      detected_languages = p.detected_languages ++ detected ∷ [];
    })

abbrev is_html : FieldType → Bool
is_html html = true
is_html plain = false

-- the chunks that are left as they are
abbrev pub passes : Outside → Text → FieldType → Text → Bool
passes o content ft chunk = (is_html ft && o.is_blank chunk) || o.has_base64_image content

-- the branches that assign or extend `chunk_translations`
unfoldable pub translate_chunk :
    Outside → Text → List ℕ → FieldType → ℕ → Text → Progress → Result UpdateError Progress
translate_chunk o content languages ft max_length chunk p =
    if passes o content ft chunk
    then ok (record p { chunk_translations = some (untranslated chunk languages) })
    else (if leb (length chunk) max_length
        then (translate_text_content o chunk languages ft >>= λ (ts, detected). ok (record p {
          chunk_translations = some ts;
          detected_languages = p.detected_languages ++ detected ∷ [];
        }))
        else (if ltb (length chunk) base_max_length
            then each_language o ft chunk languages p
            else ok (record p { chunk_translations = some (untranslated chunk languages) })))

abbrev given : Option (List (ℕ × Text)) → List (ℕ × Text)
given none = []
given (some es) = es

-- the end of the loop's body
abbrev pub gather : Progress → Progress
gather p = record p { translations = extend p.translations (given p.chunk_translations) }

unfoldable pub translate_chunks :
    Outside → Text → List ℕ → FieldType → ℕ → List Text → Progress → Result UpdateError Progress
translate_chunks o content languages ft max_length [] p = ok p
translate_chunks o content languages ft max_length (chunk ∷ chunks) p =
    translate_chunk o content languages ft max_length chunk p >>= λ q.
    translate_chunks o content languages ft max_length chunks (gather q)

abbrev count : ℕ → List ℕ → ℕ
count x [] = 0
count x (y ∷ ys) = (if x == y then 1 else 0) + count x ys

-- `max(set(xs), key=xs.count)`: of those that occur most often, the first in the list; Python's
-- choice among them depends on the order of the set
abbrev most_common : List ℕ → List ℕ → Option ℕ → Option ℕ
most_common all_ [] best = best
most_common all_ (x ∷ xs) none = most_common all_ xs (some x)
most_common all_ (x ∷ xs) (some b) =
    most_common all_ xs (if ltb (count b all_) (count x all_) then some x else some b)

pub record TranslatedOrganization : Type 0 where
  pub auto_translate_content : Bool
  pub languages : List ℕ

abbrev remove_duplicates : List ℕ → List ℕ
remove_duplicates [] = []
remove_duplicates (x ∷ xs) = let rest = remove_duplicates xs in if mem x xs then rest else x ∷ rest

abbrev all_languages : List TranslatedOrganization → List ℕ
all_languages [] = []
all_languages (o ∷ os) = o.languages ++ all_languages os

-- The languages to translate into; `required` is `settings.REQUIRED_LANGUAGES`.
unfoldable pub languages_of : List ℕ → Bool → List TranslatedOrganization → List ℕ
languages_of required auto_translate_all_languages organizations =
    if auto_translate_all_languages
    then (if any (λ o. o.auto_translate_content) organizations then required else [])
    else remove_duplicates (all_languages (filter (λ o. o.auto_translate_content) organizations))

-- what is written to the instance, and the flag of the field's own row
pub record Written : Type 0 where
  pub texts : List (ℕ × Text)
  pub detected_language : Option ℕ
  pub up_to_date : Bool

abbrev pub start : Progress
start = record { chunk_translations = none; translations = []; detected_languages = [] }

abbrev pub finish : Progress → Written
finish p = record {
  texts = p.translations;
  detected_language = most_common p.detected_languages p.detected_languages none;
  up_to_date = true;
}

abbrev chunks_of : Outside → FieldType → ℕ → Text → ℕ → Option (List Text)
chunks_of o html fuel content max_length = some (o.top_level_tags content)
chunks_of o plain fuel content max_length = split_content fuel content max_length

abbrev pub from_chunks :
    Outside
    → Text
    → List ℕ
    → FieldType
    → ℕ
    → Option (List Text)
    → Option (Result UpdateError Written)
from_chunks o content languages ft max_length none = none
from_chunks o content languages ft max_length (some chunks) =
    some (translate_chunks o content languages ft max_length chunks start >>= λ p. ok (finish p))

abbrev pub max_length_for : List ℕ → ℕ
max_length_for languages = base_max_length / length languages

-- `update_translation`, from the languages on; the fuel is for `split_content`.
unfoldable pub update_translation :
    ℕ → Outside → List ℕ → FieldType → Text → Option (Result UpdateError Written)
update_translation fuel o [] ft content =
    some (ok (record { texts = []; detected_language = none; up_to_date = true }))
update_translation fuel o (l ∷ ls) ft [] =
    some (
      ok (record { texts = untranslated [] (l ∷ ls); detected_language = none; up_to_date = true }))
update_translation fuel o (l ∷ ls) ft (c ∷ cs) =
    from_chunks o (c ∷ cs) (l ∷ ls) ft (max_length_for (l ∷ ls))
      (chunks_of o ft fuel (c ∷ cs) (max_length_for (l ∷ ls)))
