-- ===== src/Crisalid/Owned.antt =====
-- services/crisalid/populates/researcher.py: no public identifier has two researchers, and no user.
use projects_backend.Base.{
  ◌==◌, if◌then◌else◌, ==_iff, Bool-cases, mem, any, filter, ok, err, ℕ, ◌+◌, ◌≤◌, ◌≡◌, refl, sym,
  subst, ◌∙◌, inl, inr, Bool, true, false, not, Option, none, some, List, [], ◌∷◌, arith,
}
use projects_backend.Crisalid.Kept.{populate_identifiers_keep, check_mapping_user_keeps}
use projects_backend.Crisalid.{populate_found, populate_with, populate_researcher}
use projects_backend.Crisalid.{
  Run, and_then, Sent, populate_identifiers, check_mapping_user, save_researcher, is_private,
  Identifier, Researcher, CrisalidStore, public_ids, pks, touches, has_user,
}

abbrev holds : ℕ → Researcher → Bool
holds k r = any (λ i. i.pk == k) (public_ids r.identifiers)

-- how many researchers have a public identifier
abbrev holders : ℕ → List Researcher → ℕ
holders k [] = 0
holders k (r ∷ rs) = (if holds k r then 1 else 0) + holders k rs

-- how many researchers have a user
abbrev linked : ℕ → List Researcher → ℕ
linked u [] = 0
linked u (r ∷ rs) = (if has_user (some u) r then 1 else 0) + linked u rs

-- Each public identifier has at most one researcher, and each user too.
pub record IsOwned (s : CrisalidStore) : Type 0 where
  pub owned : (k : ℕ) → holders k s.researchers ≤ 1
  pub single : (u : ℕ) → linked u s.researchers ≤ 1

holders-filter :
    (k : ℕ) (p : Researcher → Bool) (rs : List Researcher) → holders k (filter p rs) ≤ holders k rs
holders-filter k p [] = omega arith
holders-filter k p (r ∷ rs) = ground (arith, holders-filter k p rs)

linked-filter :
    (u : ℕ) (p : Researcher → Bool) (rs : List Researcher) → linked u (filter p rs) ≤ linked u rs
linked-filter u p [] = omega arith
linked-filter u p (r ∷ rs) = ground (arith, linked-filter u p rs)

-- Who holds one of some identifiers is found by them.
holds-touches :
    (k : ℕ) (ps : List ℕ) (is : List Identifier)
    → mem k ps ≡ true
    → any (λ i. i.pk == k) (public_ids is) ≡ true
    → any (λ i. mem i.pk ps) is ≡ true
holds-touches k ps [] m h = cc
holds-touches k ps (i ∷ is) m h = elim (Bool-cases (i.pk == k)) [
  | inl e ↦
      let there : mem i.pk ps ≡ true = subst (λ z. mem z ps ≡ true) (sym ((==_iff i.pk k).0 e)) m in
      rw there
  | inr e ↦ elim (Bool-cases (is_private i.harvester)) [
    | inl q ↦ ground (arith, holds-touches k ps is)
    | inr q ↦ ground (arith, holds-touches k ps is)
  ]
]

holders-untouched :
    (k : ℕ) (ps : List ℕ) (rs : List Researcher)
    → mem k ps ≡ true
    → holders k (filter (λ r. not (touches ps r)) rs) ≡ 0
holders-untouched k ps [] m = refl
holders-untouched k ps (r ∷ rs) m = elim (Bool-cases (touches ps r)) [
  | inl e ↦ rw e (holders-untouched k ps rs m)
  | inr e ↦ rw e (elim (Bool-cases (holds k r)) [
    | inl h ↦ let found = holds-touches k ps r.identifiers m h in cc
    | inr h ↦ rw h (omega (arith, holders-untouched k ps rs m))
  ])
]

any-mem : (k : ℕ) (is : List Identifier) → any (λ i. i.pk == k) is ≡ mem k (pks is)
any-mem k [] = refl
any-mem k (i ∷ is) = ground (arith, any-mem k is)

linked-none : (u : ℕ) (rs : List Researcher) → any (has_user (some u)) rs ≡ false → linked u rs ≡ 0
linked-none u [] h = refl
linked-none u (r ∷ rs) h = ground (arith, linked-none u rs)

-- Only the researchers matter.
IsOwned-same : (s t : CrisalidStore) → s.researchers ≡ t.researchers → IsOwned s → IsOwned t
IsOwned-same s t e h = record {
  owned = subst (λ z. (k : ℕ) → holders k z ≤ 1) e h.owned;
  single = subst (λ z. (u : ℕ) → linked u z ≤ 1) e h.single;
}

-- What a row that is saved needs of the other rows.
record Fits (ids : List Identifier) (others : List Researcher) : Type 0 where
  apart : (k : ℕ) → mem k (pks (public_ids ids)) ≡ true → holders k others ≡ 0
  owned : (k : ℕ) → holders k others ≤ 1
  single : (u : ℕ) → linked u others ≤ 1

held_once :
    (ids : List Identifier) (others : List Researcher) (k : ℕ)
    → Fits ids others
    → (if any (λ i. i.pk == k) (public_ids ids) then 1 else 0) + holders k others ≤ 1
held_once ids others k fits = elim (Bool-cases (any (λ i. i.pk == k) (public_ids ids))) [
  | inl e ↦
      let none_left = fits.apart k (sym (any-mem k (public_ids ids)) ∙ e) in
      rw e (omega (arith, none_left))
  | inr e ↦ let few = fits.owned k in rw e (omega arith)
]

linked_once :
    (user : Option ℕ) (others : List Researcher) (u : ℕ)
    → any (has_user user) others ≡ false
    → linked u others ≤ 1
    → (if (elim user [ none ↦ false | some v ↦ v == u ]) then 1 else 0) + linked u others ≤ 1
linked_once none others u h few = omega arith
linked_once (some v) others u h few = elim (Bool-cases (v == u)) [
  | inl e ↦
      let none_left = linked-none v others h in
      let same : v ≡ u = (==_iff v u).0 e in
      let left : linked u others ≡ 0 = subst (λ z. linked z others ≡ 0) same none_left in
      rw e (omega (arith, left))
  | inr e ↦ rw e (omega arith)
]

saved-IsOwned :
    (n given family : ℕ) (ids : List Identifier) (others : List Researcher) (user : Option ℕ)
    (s : CrisalidStore)
    → Fits ids others
    → IsOwned s
    → IsOwned (save_researcher n given family ids others user s).1
saved-IsOwned n given family ids others user s fits h =
    elim (Bool-cases (any (has_user user) others)) [
      | inl e ↦ rw e h
      | inr e ↦ rw e (record {
        owned = λ k. held_once ids others k fits;
        single = λ u. linked_once user others u e (fits.single u);
      })
    ]

-- The researchers that are not found by the public identifiers.
rest-Fits :
    (ids : List Identifier) (s : CrisalidStore)
    → IsOwned s
    → Fits ids (filter (λ r. not (touches (pks (public_ids ids)) r)) s.researchers)
rest-Fits ids s h = record {
  apart = λ k m. holders-untouched k (pks (public_ids ids)) s.researchers m;
  owned = λ k.
      let few = h.owned k in
      omega (arith, holders-filter k (λ r. not (touches (pks (public_ids ids)) r)) s.researchers);
  single = λ u.
      let few = h.single u in
      omega (arith, linked-filter u (λ r. not (touches (pks (public_ids ids)) r)) s.researchers);
}

mapped-IsOwned :
    (o : Option ℕ) (ids : List Identifier) (given family : ℕ) (s : CrisalidStore)
    (next : Option ℕ → CrisalidStore → Run (Option Researcher))
    → IsOwned s
    → ((user : Option ℕ) (t : CrisalidStore) → IsOwned t → IsOwned (next user t).1)
    → IsOwned (and_then (check_mapping_user o ids given family s) next).1
mapped-IsOwned o ids given family s next h step =
    go (check_mapping_user o ids given family s) (check_mapping_user_keeps o ids given family s)
  where
    go : (r : Run (Option ℕ)) → s.researchers ≡ r.1.researchers → IsOwned (and_then r next).1
    go (ok user, t) e = step user t (IsOwned-same s t e h)
    go (err x, t) e = IsOwned-same s t e h

found-IsOwned :
    (given family : ℕ) (ids : List Identifier) (found others : List Researcher) (s : CrisalidStore)
    → Fits ids others
    → IsOwned s
    → IsOwned (populate_found given family ids found others s).1
found-IsOwned given family ids [] others s fits h =
    mapped-IsOwned none ids given family s _ h λ user t k.
      saved-IsOwned t.next_pk given family ids others user (record t { next_pk = t.next_pk + 1 })
        fits (IsOwned-same t (record t { next_pk = t.next_pk + 1 }) refl k)
found-IsOwned given family ids (r ∷ []) others s fits h =
    mapped-IsOwned r.user ids given family s _ h
      λ user t k. saved-IsOwned r.pk given family ids others user t fits k
found-IsOwned given family ids (r ∷ q ∷ rest) others s fits h = h

with-IsOwned :
    (given family : ℕ) (ids public_ : List Identifier) (s : CrisalidStore)
    → public_ids ids ≡ public_
    → IsOwned s
    → IsOwned (populate_with given family ids public_ s).1
with-IsOwned given family ids [] s e h = h
with-IsOwned given family ids (i ∷ is) s e h =
    found-IsOwned given family ids (filter (touches (pks (i ∷ is))) s.researchers)
      (filter (λ r. not (touches (pks (i ∷ is)) r)) s.researchers) s
      (subst (λ z. Fits ids (filter (λ r. not (touches (pks z) r)) s.researchers)) e
        (rest-Fits ids s h))
      h

-- Whatever CRISalid sends, and however the call ends: when each public identifier has at most one
-- researcher and each user too, it is still so after `PopulateResearcher.single`.
pub populate_researcher-IsOwned :
    (lower : ℕ → ℕ) (given family : ℕ) (sent : List Sent) (s : CrisalidStore)
    → IsOwned s
    → IsOwned (populate_researcher lower given family sent s).1
unfolding populate_researcher
populate_researcher-IsOwned lower given family sent s h =
    go (populate_identifiers lower sent s) (populate_identifiers_keep lower sent s)
  where
    go :
        (r : Run (List Identifier))
        → s.researchers ≡ r.1.researchers
        → IsOwned (and_then r (λ ids t. populate_with given family ids (public_ids ids) t)).1
    go (ok ids, t) e = with-IsOwned given family ids (public_ids ids) t refl (IsOwned-same s t e h)
    go (err x, t) e = IsOwned-same s t e h
