-- ===== src/Translator/Split.antt =====
-- services/translator/models.py: the chunks of a plain text.
use projects_backend.Base.{
  ltb, leb, ◌==◌, Bool-cases, Option-cases, some-injective, none-ne-some, length, all, append_nil,
  Text, take, ℕ, zero, suc, ◌+◌, ◌-◌, ◌≤◌, ◌<◌, ◌≡◌, refl, sym, ap, ◌∙◌, inl, inr, true, Option,
  none, some, List, [], ◌∷◌, ◌++◌, arith,
}
use projects_backend.Translator.Content.{
  space, rfind_space, split_loop, split_content, split_at, slice, last_index, join, drop,
  split_at_space,
}

take-drop : (n : ℕ) (xs : Text) → take n xs ++ drop n xs ≡ xs
take-drop zero xs = refl
take-drop (suc n) [] = refl
take-drop (suc n) (x ∷ xs) = ap (λ z. x ∷ z) (take-drop n xs)

length-take-le : (n : ℕ) (xs : Text) → length (take n xs) ≤ n
length-take-le zero xs = omega arith
length-take-le (suc n) [] = omega arith
length-take-le (suc n) (x ∷ xs) = omega (arith, length-take-le n xs)

length-drop : (n : ℕ) (xs : Text) → length (drop n xs) ≡ length xs - n
length-drop zero xs = omega arith
length-drop (suc n) [] = omega arith
length-drop (suc n) (x ∷ xs) = omega (arith, length-drop n xs)

drop-drop : (a n b : ℕ) (xs : Text) → b ≡ a + n → drop n (drop a xs) ≡ drop b xs
drop-drop zero n b xs e = let same : n ≡ b = omega arith in rw same
drop-drop (suc a) zero (suc b) [] e = refl
drop-drop (suc a) (suc n) (suc b) [] e = refl
drop-drop (suc a) n (suc b) (x ∷ xs) e = drop-drop a n b xs (omega arith)
drop-drop (suc a) n zero xs e = absurd (omega arith)

-- A slice and what follows it.
slice-drop :
    (content : Text) (a b : ℕ) → a ≤ b → slice content a b ++ drop b content ≡ drop a content
slice-drop content a b h =
    ap (λ z. slice content a b ++ z) (sym (drop-drop a (b - a) b content (omega arith)))
    ∙ take-drop (b - a) (drop a content)

last_index_bounds :
    (c i j : ℕ) (xs : Text) → last_index c i xs ≡ some j → (i ≤ j) × (j < i + length xs)
last_index_bounds c i j [] h = absurd (none-ne-some j h)
last_index_bounds c i j (x ∷ xs) h = elim (Option-cases (last_index c (suc i) xs)) [
  | inl e ↦ elim (Bool-cases (x == c)) [
    | inl same ↦ let here = some-injective i j (rw (e, same) at h) in (omega arith, omega arith)
    | inr other ↦ absurd (none-ne-some j (rw (e, other) at h))
  ]
  | inr (k, e) ↦
      let there = some-injective k j (rw e at h) in
      let b = last_index_bounds c (suc i) j xs (rw there at e) in
      (omega (arith, b.0), omega (arith, b.1))
]

-- The cut lies after the start and at most `max_length` further on.
split_at_space_bounds :
    (start end : ℕ) (o : Option ℕ)
    → start < end
    → ((i : ℕ) → o ≡ some i → i < end)
    → (start < split_at_space start end o) × (split_at_space start end o ≤ end)
split_at_space_bounds start end none h below = (h, omega arith)
split_at_space_bounds start end (some i) h below =
    let b = below i refl in (ground arith, ground arith)

split_at_bounds :
    (content : Text) (max_length start : ℕ)
    → 0 < max_length
    → (start < split_at content max_length start)
      × (split_at content max_length start ≤ start + max_length)
split_at_bounds content m start h =
    split_at_space_bounds start (start + m) (rfind_space content start (start + m)) (omega arith)
      λ i e. omega (
        arith,
        last_index_bounds space start i (slice content start (start + m)) e,
        length-take-le (start + m - start) (drop start content),
      )

-- chunks that are short and make up a text
abbrev pub Splits : Text → ℕ → List Text → Type 0
Splits content n chunks = (join chunks ≡ content) × (all (λ c. leb (length c) n) chunks ≡ true)

drop_all : (n : ℕ) (xs : Text) → length xs ≤ n → drop n xs ≡ []
drop_all zero [] h = refl
drop_all zero (x ∷ xs) h = absurd (omega arith)
drop_all (suc n) [] h = refl
drop_all (suc n) (x ∷ xs) h = drop_all n xs (omega arith)

leb_of_le : (a b : ℕ) → a ≤ b → leb a b ≡ true
leb_of_le a b h = ground arith

-- One more chunk before the chunks of what follows it.
Splits-cons :
    (content : Text) (a b n : ℕ) (chunks : List Text)
    → a ≤ b
    → b ≤ a + n
    → Splits (drop b content) n chunks
    → Splits (drop a content) n (slice content a b ∷ chunks)
Splits-cons content a b n chunks lo hi (joined, short) = (
  ap (λ z. slice content a b ++ z) joined ∙ slice-drop content a b lo,
  rw
      (leb_of_le (length (slice content a b)) n
        (omega (arith, length-take-le (b - a) (drop a content))))
      short,
)

-- The last chunk.
Splits-last : (t : Text) (n : ℕ) → length t ≤ n → Splits t n (t ∷ [])
Splits-last t n h = (append_nil t, rw (leb_of_le (length t) n h))

split_loop_total :
    (fuel : ℕ) (content : Text) (m start : ℕ)
    → 0 < m
    → length content - start < fuel
    → (chunks : List Text) × (split_loop fuel content m start ≡ some chunks)
      × Splits (drop start content) m chunks
unfolding split_loop
split_loop_total zero content m start pos h = absurd (omega arith)
split_loop_total (suc fuel) content m start pos h = elim (Bool-cases (ltb start (length content))) [
  | inr done ↦ let end = drop_all start content (ground arith) in ([], rw done, (sym end, refl))
  | inl more ↦ elim (Bool-cases (leb (length content) (start + m))) [
    | inl last ↦ (
      drop start content ∷ [],
      rw (more, last),
      Splits-last (drop start content) m (ground (arith, length-drop start content)),
    )
    | inr long ↦
        let at = split_at content m start in
        let (lo, hi) = split_at_bounds content m start pos in
        let (chunks, e, splits) = split_loop_total fuel content m at pos (ground arith) in
        (
          slice content start at ∷ chunks,
          rw (more, long, e),
          Splits-cons content start at m chunks (omega arith) hi splits,
        )
  ]
]

-- With a positive maximal length, and as much fuel as the text is long and one more, the splitting of
-- a plain text ends, its chunks make up the text, and none is longer than the maximal length.
pub split_content-Splits :
    (fuel : ℕ) (content : Text) (max_length : ℕ)
    → 0 < max_length
    → length content < fuel
    → (chunks : List Text) × (split_content fuel content max_length ≡ some chunks)
      × Splits content max_length chunks
unfolding split_content
split_content-Splits fuel content m pos h = elim (Bool-cases (leb (length content) m)) [
  | inl short ↦ (content ∷ [], rw short, Splits-last content m (ground arith))
  | inr long ↦
      let (chunks, e, splits) = split_loop_total fuel content m 0 pos (omega arith) in
      (chunks, rw (long, e), splits)
]
