-- ===== src/Translator/Content.antt =====
-- services/translator/models.py: `split_content` for a plain text.
use projects_backend.Base.{
  ltb, leb, ◌==◌, if◌then◌else◌, length, Text, take, ℕ, zero, suc, ◌+◌, ◌-◌, Option, none, some,
  List, [], ◌∷◌, ◌++◌,
}

abbrev pub drop : ℕ → Text → Text
drop zero xs = xs
drop (suc n) [] = []
drop (suc n) (x ∷ xs) = drop n xs

-- `content[start:end]`
abbrev pub slice : Text → ℕ → ℕ → Text
slice content start end = take (end - start) (drop start content)

abbrev pub space : ℕ
space = 32

-- the last place of a code point in a text that begins at index `i`
abbrev pub last_index : ℕ → ℕ → Text → Option ℕ
last_index c i [] = none
last_index c i (x ∷ xs) = elim (last_index c (suc i) xs) [
  | some j ↦ some j
  | none ↦ if x == c then some i else none
]

-- `content.rfind(" ", start, end)`, where `none` is -1
abbrev pub rfind_space : Text → ℕ → ℕ → Option ℕ
rfind_space content start end = last_index space start (slice content start end)

-- `split_at`, from the last space of the window from `start` to `end`
abbrev pub split_at_space : ℕ → ℕ → Option ℕ → ℕ
split_at_space start end none = end
split_at_space start end (some i) = if leb i start then end else i

abbrev pub split_at : Text → ℕ → ℕ → ℕ
split_at content max_length start =
    split_at_space start (start + max_length) (rfind_space content start (start + max_length))

abbrev cons_to : Text → Option (List Text) → Option (List Text)
cons_to chunk none = none
cons_to chunk (some chunks) = some (chunk ∷ chunks)

-- the `while` loop: `none` means that the fuel ran out
unfoldable pub split_loop : ℕ → Text → ℕ → ℕ → Option (List Text)
split_loop zero content max_length start = none
split_loop (suc fuel) content max_length start =
    let at = split_at content max_length start in
    let more = cons_to (slice content start at) (split_loop fuel content max_length at) in
    if ltb start (length content)
    then (if leb (length content) (start + max_length)
        then some (drop start content ∷ [])
        else more)
    else some []

-- `split_content` for a plain text
unfoldable pub split_content : ℕ → Text → ℕ → Option (List Text)
split_content fuel content max_length =
    if leb (length content) max_length
    then some (content ∷ [])
    else split_loop fuel content max_length 0

abbrev pub join : List Text → Text
join [] = []
join (t ∷ ts) = t ++ join ts
