-- ===== src/Translator/Update.antt =====
-- services/translator/models.py: what `update_translation` writes.
use projects_backend.Base.{
  ltb, leb, if◌then◌else◌, mem, length, Result, ok, err, Text, ℕ, ◌<◌, ◌≡◌, true, false, Option,
  some, List, [], ◌∷◌, map, arith,
}
use projects_backend.Translator.Field.{
  text_for, clean_translation, passes, keys, UpdateError, FieldType, Answer, Outside,
  base_max_length, each_language, Written, max_length_for, update_translation, html,
  unbound_chunk_translations, translate_text_content, Progress, translate_chunk, translate_chunks,
}
use projects_backend.Translator.Content.{join}
use projects_backend.Translator.Dicts.{last_text}

module _ (o : Outside) (content : Text) (languages : List ℕ) (ft : FieldType) where
  -- what a language reads in the answer for a chunk
  abbrev answered : ℕ → Result UpdateError Answer → Text
  answered lang (ok (ts, detected)) = last_text lang ts
  answered lang (err e) = []

  -- The client answers a chunk, for each of the languages.
  abbrev pub Answers : Text → Type 0
  Answers chunk =
      (ts : List (ℕ × Text)) × (detected : ℕ) × (o.translate chunk languages ft ≡ ok (ts, detected))
      × (keys ts ≡ languages)

  -- The text of a chunk in a language: the chunk itself where it has no text or the content has an
  -- embedded image, and else what the client answers, without its no-break spaces.
  abbrev pub translated : ℕ → Text → Text
  translated lang chunk =
      if passes o content ft chunk
      then chunk
      else clean_translation (answered lang (o.translate chunk languages ft))

  -- Each of the chunks is answered and short enough for all the languages at once.
  abbrev AllAnswered : ℕ → List Text → Type 0
  AllAnswered n [] = Unit {0}
  AllAnswered n (chunk ∷ chunks) =
      (Answers chunk × (leb (length chunk) n ≡ true)) × AllAnswered n chunks

  -- What `translate_chunk` leaves of a chunk that is short enough.
  abbrev Chunked : Text → Progress → Result UpdateError Progress → Type 0
  Chunked chunk p r =
      (es : List (ℕ × Text)) × (q : Progress) × (r ≡ ok q)
      × (q.chunk_translations ≡ some es)
      × (q.translations ≡ p.translations)
      × (keys es ≡ languages)
      × ((lang : ℕ) → mem lang languages ≡ true → last_text lang es ≡ translated lang chunk)

-- `AZURE_MAX_LENGTH`: the characters that Azure translates in one request, counted for each language
abbrev azure_max_length : ℕ
azure_max_length = 50000

-- What `update_translation` writes when its chunks are known.
abbrev WritesChunks :
    Outside → Text → List ℕ → FieldType → List Text → Option (Result UpdateError Written) → Type 0
WritesChunks o content languages ft chunks r =
    (w : Written) × (r ≡ some (ok w))
    × (w.up_to_date ≡ true)
    × ((lang : ℕ)
        → mem lang languages ≡ true
        → text_for lang w.texts ≡ join (map (translated o content languages ft lang) chunks))

-- An HTML content whose first tag has text, is too long for all the languages at once and yet below
-- 40000, in a content without an embedded image: though the client answers for the first language,
-- the translation raises, since `chunk_translations` has no value to extend.
pub html_unbound :
    (fuel : ℕ) (o : Outside) (l : ℕ) (ls : List ℕ) (content chunk : Text) (rest : List Text)
    (answer : Answer)
    → 0 < length content
    → o.top_level_tags content ≡ chunk ∷ rest
    → passes o content html chunk ≡ false
    → max_length_for (l ∷ ls) < length chunk
    → length chunk < base_max_length
    → o.translate chunk (l ∷ []) html ≡ ok answer
    → update_translation fuel o (l ∷ ls) html content ≡ some (err unbound_chunk_translations)
unfolding update_translation translate_chunks translate_chunk each_language translate_text_content
html_unbound fuel o l ls [] chunk rest answer more tags sent long below e = absurd (omega arith)
html_unbound fuel o l ls (c ∷ cs) chunk rest answer more tags sent long below e =
    let too_long : leb (length chunk) (max_length_for (l ∷ ls)) ≡ false = ground arith in
    let fits : ltb (length chunk) base_max_length ≡ true = ground arith in
    rw (tags, sent, too_long, fits, e)
