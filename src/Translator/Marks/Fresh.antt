-- ===== src/Translator/Marks/Fresh.antt =====
-- services/translator/mixins.py: the rows that count as up to date, after one is marked or settled.
use projects_backend.Base.{
  ◌==◌, if◌then◌else◌, ==_iff, Bool-cases, any, ℕ, ◌≡◌, refl, sym, subst, ◌∙◌, inl, inr, Bool,
  false, not, ◌&&◌, List, [], ◌∷◌, ◌++◌, map, arith,
}
use projects_backend.Translator.Marks.{TranslationRow, mark, settle}

abbrev pub is_fresh : ℕ → List TranslationRow → Bool
is_fresh f = any (λ r. r.field == f && r.up_to_date)

is_fresh-append :
    (f g : ℕ) (rows : List TranslationRow)
    → is_fresh f (rows ++ record { field = g; up_to_date = false } ∷ []) ≡ is_fresh f rows
is_fresh-append f g [] = ground arith
is_fresh-append f g (r ∷ rows) = ground (arith, is_fresh-append f g rows)

unmarked :
    (f : ℕ) (rows : List TranslationRow)
    → any (λ r. r.field == f) rows ≡ false
    → is_fresh f rows ≡ false
unmarked f [] h = refl
unmarked f (r ∷ rows) h = ground (arith, unmarked f rows)

lowered :
    (g f : ℕ) (rows : List TranslationRow)
    → is_fresh f (map (λ r. if r.field == g then record r { up_to_date = false } else r) rows)
      ≡ (not (f == g) && is_fresh f rows)
lowered g f [] = ground arith
lowered g f (r ∷ rows) = ground (arith, lowered g f rows)

pub is_fresh-mark :
    (f g : ℕ) (rows : List TranslationRow)
    → is_fresh f (mark g rows) ≡ (not (f == g) && is_fresh f rows)
is_fresh-mark f g rows = elim (Bool-cases (any (λ r. r.field == g) rows)) [
  | inl e ↦ rw e (lowered g f rows)
  | inr e ↦ elim (Bool-cases (f == g)) [
    | inl h ↦
        let none_yet : any (λ r. r.field == f) rows ≡ false =
          subst (λ z. any (λ r. r.field == z) rows ≡ false) (sym ((==_iff f g).0 h)) e in
        rw (e, h) (is_fresh-append f g rows ∙ unmarked f rows none_yet)
    | inr h ↦ rw (e, h) (is_fresh-append f g rows)
  ]
]

pub is_fresh-settle :
    (f g : ℕ) (rows : List TranslationRow)
    → (f == g) ≡ false
    → is_fresh f (settle g rows) ≡ is_fresh f rows
is_fresh-settle f g [] h = refl
is_fresh-settle f g (r ∷ rows) h = ground (arith, is_fresh-settle f g rows)
