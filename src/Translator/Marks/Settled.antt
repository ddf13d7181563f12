-- ===== src/Translator/Marks/Settled.antt =====
-- services/translator/tasks.py: `automatic_translations` catches up with the contents.
use projects_backend.Base.{
  ◌==◌, ==_iff, Bool-cases, mem, any, ℕ, ◌≡◌, refl, sym, ap, subst, ◌∙◌, ◌⊎◌, inl, inr, Bool, true,
  false, not, ◌&&◌, ◌||◌, some, List, [], ◌∷◌, arith,
}
use projects_backend.Translator.Marks.{
  TranslationRow, TranslatedObject, settle, translate_field, kept_on_error, automatic_translations,
}
use projects_backend.Translator.Marks.Fresh.{is_fresh}
use projects_backend.Translator.Marks.Current.{IsCurrent}

abbrev has_row : ℕ → List TranslationRow → Bool
has_row f = any (λ r. r.field == f)

abbrev is_pending : ℕ → List TranslationRow → Bool
is_pending f = any (λ r. r.field == f && not r.up_to_date)

fresh_or_pending :
    (f : ℕ) (rows : List TranslationRow)
    → has_row f rows ≡ true
    → (is_fresh f rows || is_pending f rows) ≡ true
fresh_or_pending f [] h = cc
fresh_or_pending f (r ∷ rows) h = ground (arith, fresh_or_pending f rows)

has_row-settle : (f g : ℕ) (rows : List TranslationRow) → has_row f (settle g rows) ≡ has_row f rows
has_row-settle f g [] = refl
has_row-settle f g (r ∷ rows) = ground (arith, has_row-settle f g rows)

settle_keeps :
    (f g : ℕ) (rows : List TranslationRow)
    → is_fresh f rows ≡ true
    → is_fresh f (settle g rows) ≡ true
settle_keeps f g [] h = cc
settle_keeps f g (r ∷ rows) h = ground (arith, settle_keeps f g rows)

settle_own :
    (f : ℕ) (rows : List TranslationRow) → has_row f rows ≡ true → is_fresh f (settle f rows) ≡ true
settle_own f [] h = cc
settle_own f (r ∷ rows) h = ground (arith, settle_own f rows)

-- A field counts as up to date and was last translated from the content `v`.
pub record IsSettled (f v : ℕ) (s : TranslatedObject) : Type 0 where
  pub fresh : is_fresh f s.rows ≡ true
  pub made : s.translated f ≡ some v

-- In the loop: the field is settled, or its row is still to come.
record Awaits (f v : ℕ) (rest : List TranslationRow) (s : TranslatedObject) : Type 0 where
  here : has_row f s.rows ≡ true
  content : s.value f ≡ v
  either : IsSettled f v s ⊎ (is_pending f rest ≡ true)

module _ (refused : ℕ → ℕ → Bool) (f v : ℕ) (accepted : refused f v ≡ false) where
  skip-Awaits :
      (r : TranslationRow) (rest : List TranslationRow) (s : TranslatedObject)
      → r.up_to_date ≡ true
      → Awaits f v (r ∷ rest) s
      → Awaits f v rest s
  skip-Awaits r rest s done h = record {
    here = h.here;
    content = h.content;
    either = elim h.either [ inl k ↦ inl k | inr k ↦ inr (ground arith) ];
  }

  translate-Awaits :
      (r : TranslationRow) (rest : List TranslationRow) (s : TranslatedObject)
      → Awaits f v (r ∷ rest) s
      → Awaits f v rest (kept_on_error s (translate_field refused r.field s))
  translate-Awaits r rest s h = elim (Bool-cases (refused r.field (s.value r.field))) [
    | inl e ↦ rw e (record {
      here = h.here;
      content = h.content;
      either = elim h.either [
        | inl k ↦ inl k
        | inr k ↦ elim (Bool-cases (r.field == f)) [
          | inl same ↦
              let there : refused f (s.value f) ≡ true =
                subst (λ z. refused z (s.value z) ≡ true) ((==_iff r.field f).0 same) e in
              let again : refused f v ≡ true = sym (ap (refused f) h.content) ∙ there in cc
          | inr other ↦ inr (rw other at k)
        ]
      ];
    })
    | inr e ↦ rw e (record {
      here = has_row-settle f r.field s.rows ∙ h.here;
      content = h.content;
      either = elim (Bool-cases (r.field == f)) [
        | inl same ↦
            let is_f : r.field ≡ f = (==_iff r.field f).0 same in
            let there : (f == r.field) ≡ true = ground arith in
            inl (record {
              fresh =
                  subst (λ z. is_fresh f (settle z s.rows) ≡ true) (sym is_f)
                    (settle_own f s.rows h.here);
              made = rw there (ap some (ap s.value is_f ∙ h.content));
            })
        | inr other ↦ elim h.either [
          | inl k ↦
              let apart : (f == r.field) ≡ false = ground arith in
              inl (record { fresh = settle_keeps f r.field s.rows k.fresh; made = rw apart k.made })
          | inr k ↦ inr (rw other at k)
        ]
      ];
    })
  ]

  loop-IsSettled :
      (rest : List TranslationRow) (s : TranslatedObject)
      → Awaits f v rest s
      → IsSettled f v (automatic_translations refused rest s)
  unfolding automatic_translations
  loop-IsSettled [] s h = elim h.either [ inl k ↦ k | inr k ↦ cc ]
  loop-IsSettled (r ∷ rest) s h = elim (Bool-cases r.up_to_date) [
    | inl e ↦ rw e (loop-IsSettled rest s (skip-Awaits r rest s e h))
    | inr e ↦ rw e (
        loop-IsSettled rest (kept_on_error s (translate_field refused r.field s))
          (translate-Awaits r rest s h))
  ]

-- When the translations that count as up to date are current, then after `automatic_translations`
-- each field that has a row, and whose content is not refused, counts as up to date and was last
-- translated from its content, whatever is refused for the other fields.
pub automatic_translations-IsSettled :
    (refused : ℕ → ℕ → Bool) (fields : List ℕ) (s : TranslatedObject) (f : ℕ)
    → IsCurrent fields s
    → mem f fields ≡ true
    → has_row f s.rows ≡ true
    → refused f (s.value f) ≡ false
    → IsSettled f (s.value f) (automatic_translations refused s.rows s)
automatic_translations-IsSettled refused fields s f current here row accepted =
    loop-IsSettled refused f (s.value f) accepted s.rows s (record {
      here = row;
      content = refl;
      either = elim (Bool-cases (is_fresh f s.rows)) [
        | inl e ↦ inl (record { fresh = e; made = current f here e })
        | inr e ↦ let one = fresh_or_pending f s.rows row in inr (ground arith)
      ];
    })
