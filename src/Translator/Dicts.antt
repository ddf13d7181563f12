-- ===== src/Translator/Dicts.antt =====
-- The dicts of services/translator/models.py, from languages to texts.
use projects_backend.Base.{
  ◌==◌, if◌then◌else◌, Bool-cases, mem, Text, ℕ, ◌≡◌, refl, ap, subst, inl, inr, true, false, List,
  [], ◌∷◌, ◌++◌, map, arith,
}
use projects_backend.Translator.Field.{extend, text_for, untranslated, keys, clean_translation}

-- the text of the last entry for a key

abbrev pub last_text : ℕ → List (ℕ × Text) → Text
last_text k [] = []
last_text k ((j, t) ∷ rest) =
    let later = last_text k rest in if mem k (keys rest) then later else (if j == k then t else [])

key_differs :
    (k j : ℕ) (es : List (ℕ × Text))
    → mem k (keys es) ≡ true
    → mem j (keys es) ≡ false
    → (j == k) ≡ false
key_differs k j es h m = elim (Bool-cases (j == k)) [
  | inl e ↦
      let same : j ≡ k = ground arith in
      let bad : mem k (keys es) ≡ false = subst (λ z. mem z (keys es) ≡ false) same m in cc
  | inr e ↦ e
]

pub text_for-extend :
    (k : ℕ) (old es : List (ℕ × Text))
    → mem k (keys es) ≡ true
    → text_for k (extend old es) ≡ text_for k old ++ last_text k es
text_for-extend k old [] h = cc
text_for-extend k old ((j, t) ∷ es) h = elim (Bool-cases (mem k (keys es))) [
  | inl later ↦ elim (Bool-cases (mem j (keys es))) [
    | inl m ↦ rw (m, later) (text_for-extend k old es later)
    | inr m ↦
        let other : (j == k) ≡ false = key_differs k j es later m in
        rw (m, later, other) (text_for-extend k old es later)
  ]
  | inr last ↦
      let same : k ≡ j = ground arith in
      let m : mem j (keys es) ≡ false = subst (λ z. mem z (keys es) ≡ false) same last in
      rw (m, last) (ground arith)
]

pub keys-untranslated : (chunk : Text) (langs : List ℕ) → keys (untranslated chunk langs) ≡ langs
keys-untranslated chunk [] = refl
keys-untranslated chunk (l ∷ ls) = ap (λ z. l ∷ z) (keys-untranslated chunk ls)

pub last_text-untranslated :
    (k : ℕ) (chunk : Text) (langs : List ℕ)
    → mem k langs ≡ true
    → last_text k (untranslated chunk langs) ≡ chunk
last_text-untranslated k chunk [] h = cc
last_text-untranslated k chunk (l ∷ ls) h = elim (Bool-cases (mem k ls)) [
  | inl later ↦ rw (keys-untranslated chunk ls, later) (last_text-untranslated k chunk ls later)
  | inr last ↦ rw (keys-untranslated chunk ls, last) (ground arith)
]

abbrev pub cleaned : List (ℕ × Text) → List (ℕ × Text)
cleaned = map (λ (lang, text). (lang, clean_translation text))

pub keys-cleaned : (ts : List (ℕ × Text)) → keys (cleaned ts) ≡ keys ts
keys-cleaned [] = refl
keys-cleaned ((j, t) ∷ ts) = ap (λ z. j ∷ z) (keys-cleaned ts)

pub last_text-cleaned :
    (k : ℕ) (ts : List (ℕ × Text)) → last_text k (cleaned ts) ≡ clean_translation (last_text k ts)
last_text-cleaned k [] = refl
last_text-cleaned k ((j, t) ∷ ts) = elim (Bool-cases (mem k (keys ts))) [
  | inl later ↦ rw (keys-cleaned ts, later) (last_text-cleaned k ts)
  | inr last ↦
      rw (keys-cleaned ts, last) (elim (Bool-cases (j == k)) [ inl e ↦ rw e | inr e ↦ rw e ])
]
