-- ===== src/Translator/Marks/Current.antt =====
-- services/translator/mixins.py: a translation that counts as up to date is one of the current content.
use projects_backend.Base.{
  ◌==◌, if◌then◌else◌, ==_iff, Bool-cases, some-injective, none-ne-some, mem, ℕ, ◌≡◌, refl, sym, ap,
  subst, ◌∙◌, ◌⊎◌, inl, inr, Bool, true, false, not, ◌&&◌, ◌||◌, Option, none, some, List, [], ◌∷◌,
  arith,
}
use projects_backend.Translator.Marks.{
  TranslatedClass, TranslatedObject, Instance, with_values, mark, settle, translate_field,
  if_instantly, changed, update_translated_fields, no_rows, save_translated,
}
use projects_backend.Translator.Marks.Fresh.{is_fresh, is_fresh-mark, is_fresh-settle}

-- The fields that count as up to date were last translated from their current contents.
abbrev pub IsCurrent : List ℕ → TranslatedObject → Type 0
IsCurrent fields s =
    (f : ℕ) → mem f fields ≡ true → is_fresh f s.rows ≡ true → s.translated f ≡ some (s.value f)

-- In the loop of `update_translated_fields`: a field that counts as up to date has a translation of
-- its content, or it was changed and the loop has yet to reach it.
abbrev AwaitsMark : List ℕ → Instance → List ℕ → TranslatedObject → Type 0
AwaitsMark fields i rest s =
    (f : ℕ)
    → mem f fields ≡ true
    → is_fresh f s.rows ≡ true
    → (s.translated f ≡ some (s.value f)) ⊎ ((mem f rest && changed i f) ≡ true)

module _ (fields : List ℕ) (i : Instance) (refused : ℕ → ℕ → Bool) where
  mark-AwaitsMark :
      (g : ℕ) (rest : List ℕ) (s : TranslatedObject)
      → AwaitsMark fields i (g ∷ rest) s
      → AwaitsMark fields i rest (record s { rows = mark g s.rows })
  mark-AwaitsMark g rest s h f here fresh =
      let both : (not (f == g) && is_fresh f s.rows) ≡ true =
        sym (is_fresh-mark f g s.rows) ∙ fresh in
      let apart : (f == g) ≡ false = ground arith in
      let before : is_fresh f s.rows ≡ true = ground arith in
      elim (h f here before) [ inl e ↦ inl e | inr e ↦ inr (rw apart at e) ]

  skip-AwaitsMark :
      (g : ℕ) (rest : List ℕ) (s : TranslatedObject)
      → changed i g ≡ false
      → AwaitsMark fields i (g ∷ rest) s
      → AwaitsMark fields i rest s
  skip-AwaitsMark g rest s same h f here fresh = elim (h f here fresh) [
    | inl e ↦ inl e
    | inr e ↦ elim (Bool-cases (f == g)) [
      | inl k ↦
          let unchanged : changed i f ≡ false =
            subst (λ z. changed i z ≡ false) (sym ((==_iff f g).0 k)) same in
          let c : changed i f ≡ true = ground arith in cc
      | inr k ↦ inr (rw k at e)
    ]
  ]

  abbrev translated_now : ℕ → TranslatedObject → TranslatedObject
  translated_now g s = record s {
    translated = λ f. if f == g then some (s.value g) else s.translated f;
    rows = settle g s.rows;
  }

  translated_now-AwaitsMark :
      (g : ℕ) (rest : List ℕ) (s : TranslatedObject)
      → AwaitsMark fields i rest s
      → AwaitsMark fields i rest (translated_now g s)
  translated_now-AwaitsMark g rest s h f here fresh = elim (Bool-cases (f == g)) [
    | inl e ↦ inl (rw (e, (==_iff f g).0 e))
    | inr e ↦ elim (h f here (sym (is_fresh-settle f g s.rows e) ∙ fresh)) [
      | inl k ↦ inl (rw e k)
      | inr k ↦ inr k
    ]
  ]

  translate_field-AwaitsMark :
      (g : ℕ) (rest : List ℕ) (s t : TranslatedObject)
      → AwaitsMark fields i rest s
      → translate_field refused g s ≡ some t
      → AwaitsMark fields i rest t
  translate_field-AwaitsMark g rest s t h run = elim (Bool-cases (refused g (s.value g))) [
    | inl e ↦ absurd (none-ne-some t (rw e at run))
    | inr e ↦
        subst (AwaitsMark fields i rest) (some-injective (translated_now g s) t (rw e at run))
          (translated_now-AwaitsMark g rest s h)
  ]

  if_instantly-AwaitsMark :
      (instantly : Bool) (g : ℕ) (rest : List ℕ) (s t : TranslatedObject)
      → AwaitsMark fields i rest s
      → if_instantly instantly refused g s ≡ some t
      → AwaitsMark fields i rest t
  if_instantly-AwaitsMark true g rest s t h run = translate_field-AwaitsMark g rest s t h run
  if_instantly-AwaitsMark false g rest s t h run =
      subst (AwaitsMark fields i rest) (some-injective s t run) h

  -- the rest of the loop, from the object that a marked field leaves
  rest-AwaitsMark :
      (instantly : Bool) (g : ℕ) (rest : List ℕ) (s t : TranslatedObject)
      (next : TranslatedObject → Option TranslatedObject) (o : Option TranslatedObject)
      → AwaitsMark fields i rest s
      → ((u : TranslatedObject)
          → AwaitsMark fields i rest u
          → next u ≡ some t
          → AwaitsMark fields i [] t)
      → if_instantly instantly refused g s ≡ o
      → elim o as (λ z. Option TranslatedObject) [ none ↦ none | some u ↦ next u ] ≡ some t
      → AwaitsMark fields i [] t
  rest-AwaitsMark instantly g rest s t next none h later first run = absurd (none-ne-some t run)
  rest-AwaitsMark instantly g rest s t next (some u) h later first run =
      later u (if_instantly-AwaitsMark instantly g rest s u h first) run

  loop-AwaitsMark :
      (instantly force : Bool) (rest : List ℕ) (s t : TranslatedObject)
      → AwaitsMark fields i rest s
      → update_translated_fields instantly refused force i rest s ≡ some t
      → AwaitsMark fields i [] t
  unfolding update_translated_fields
  loop-AwaitsMark instantly force [] s t h run =
      subst (AwaitsMark fields i []) (some-injective s t run) h
  loop-AwaitsMark instantly force (g ∷ rest) s t h run = elim (Bool-cases (force || changed i g)) [
    | inl e ↦
        let s1 = record s { rows = mark g s.rows } in
        rest-AwaitsMark instantly g rest s1 t
          (update_translated_fields instantly refused force i rest)
          (if_instantly instantly refused g s1) (mark-AwaitsMark g rest s h)
          (λ u. loop-AwaitsMark instantly force rest u t) refl (rw e at run)
    | inr e ↦
        let same : changed i g ≡ false = ground arith in
        loop-AwaitsMark instantly force rest s t (skip-AwaitsMark g rest s same h) (rw e at run)
  ]

-- After the loop, whatever counts as up to date is current.
AwaitsMark-none :
    (fields : List ℕ) (i : Instance) (s : TranslatedObject)
    → AwaitsMark fields i [] s
    → IsCurrent fields s
AwaitsMark-none fields i s h f here fresh = elim (h f here fresh) [ inl e ↦ e | inr e ↦ cc ]

-- Before it, the fields that were not changed are.
AwaitsMark-all :
    (fields : List ℕ) (values : ℕ → ℕ) (s : TranslatedObject)
    → IsCurrent fields s
    → AwaitsMark fields (with_values values s) fields (record s { value = values })
AwaitsMark-all fields values s h f here fresh = elim (Bool-cases (values f == s.value f)) [
  | inl e ↦ inl (h f here fresh ∙ ap some (sym ((==_iff (values f) (s.value f)).0 e)))
  | inr e ↦ inr (rw (here, e))
]

-- For an instance that is read, changed and saved with nothing in between, when the save does not
-- raise: if before it every field that counts as up to date was last translated from its content,
-- then after it too, with the contents saved.
pub save_translated-IsCurrent :
    (cls : TranslatedClass) (refused : ℕ → ℕ → Bool) (values : ℕ → ℕ) (s t : TranslatedObject)
    → IsCurrent cls.auto_translated_fields s
    → save_translated cls refused (with_values values s) s ≡ some t
    → IsCurrent cls.auto_translated_fields t
unfolding save_translated
save_translated-IsCurrent cls refused values s t h run =
    let i = with_values values s in
    AwaitsMark-none cls.auto_translated_fields i t (
      loop-AwaitsMark cls.auto_translated_fields i refused cls.auto_translate_instantly
        (no_rows s.rows) cls.auto_translated_fields (record s { value = values }) t
        (AwaitsMark-all cls.auto_translated_fields values s h) run)
