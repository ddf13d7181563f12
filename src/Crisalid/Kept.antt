-- ===== src/Crisalid/Kept.antt =====
-- services/crisalid/populates: identifiers and users are saved before the researcher, and those calls
-- leave the known researchers alone.
use projects_backend.Base.{
  ◌==◌, Bool-cases, mem, any, filter, ok, err, ℕ, ◌+◌, ◌≡◌, refl, ◌∙◌, inl, inr, ◌&&◌, Option, none,
  some, List, [], ◌∷◌,
}
use projects_backend.Crisalid.{
  same_harvester, is_eppn, clashes, Harvester, Identifier, ResearchUser, CrisalidStore, Run,
  and_then, get_or_insert, Sent, populate_identifier, populate_identifiers, add_member,
  get_or_create_user, map_by_eppn, check_mapping_user,
}

abbrev KeepsResearchers : {A : Type 0} → CrisalidStore → Run A → Type 0
KeepsResearchers s r = s.researchers ≡ r.1.researchers

get_or_insert_keeps :
    (lower : ℕ → ℕ) (h : Harvester) (v : ℕ) (found : List Identifier) (s : CrisalidStore)
    → KeepsResearchers s (get_or_insert lower h v found s)
get_or_insert_keeps lower h v [] s = elim (Bool-cases (any (clashes lower h v) s.identifiers)) [
  | inl e ↦ rw e
  | inr e ↦ rw e
]
get_or_insert_keeps lower h v (i ∷ []) s = refl
get_or_insert_keeps lower h v (i ∷ j ∷ rest) s = refl

and_then_keeps :
    {A B : Type 0} (s : CrisalidStore) (r : Run A) (f : A → CrisalidStore → Run B)
    → KeepsResearchers s r
    → ((a : A) (t : CrisalidStore) → KeepsResearchers t (f a t))
    → KeepsResearchers s (and_then r f)
and_then_keeps s (ok a, t) f k step = k ∙ step a t
and_then_keeps s (err e, t) f k step = k

pub populate_identifiers_keep :
    (lower : ℕ → ℕ) (sent : List Sent) (s : CrisalidStore)
    → KeepsResearchers s (populate_identifiers lower sent s)
unfolding populate_identifiers
populate_identifiers_keep lower [] s = refl
populate_identifiers_keep lower (none ∷ rest) s = populate_identifiers_keep lower rest s
populate_identifiers_keep lower (some (h, v) ∷ rest) s =
    and_then_keeps s (populate_identifier lower h v s)
      (λ i s1. and_then (populate_identifiers lower rest s1) (λ is s2. (ok (i ∷ is), s2)))
      (get_or_insert_keeps lower h v
        (filter (λ i. i.value == v && same_harvester i.harvester h) s.identifiers) s)
      (λ i t.
        and_then_keeps t (populate_identifiers lower rest t) (λ is s2. (ok (i ∷ is), s2))
          (populate_identifiers_keep lower rest t) (λ is s2. refl))

add_member_keeps : (u : ℕ) (s : CrisalidStore) → s.researchers ≡ (add_member u s).researchers
add_member_keeps u s = elim (Bool-cases (mem u s.members)) [ inl e ↦ rw e | inr e ↦ rw e ]

get_or_create_user_keeps :
    (email given family : ℕ) (found : List ResearchUser) (s : CrisalidStore)
    → KeepsResearchers s (get_or_create_user email given family found s)
get_or_create_user_keeps email given family [] s =
    let u : ResearchUser = record {
      pk = s.next_pk;
      email = email;
      given_name = given;
      family_name = family;
    } in
    add_member_keeps s.next_pk (record s { users = u ∷ s.users; next_pk = s.next_pk + 1 })
get_or_create_user_keeps email given family (u ∷ []) s = add_member_keeps u.pk s
get_or_create_user_keeps email given family (u ∷ v ∷ rest) s = refl

map_by_eppn_keeps :
    (given family : ℕ) (ids : List Identifier) (s : CrisalidStore)
    → KeepsResearchers s (map_by_eppn given family ids s)
map_by_eppn_keeps given family [] s = refl
map_by_eppn_keeps given family (i ∷ is) s = elim (Bool-cases (is_eppn i.harvester)) [
  | inl e ↦
      rw e
        (get_or_create_user_keeps i.value given family (filter (λ u. u.email == i.value) s.users) s)
  | inr e ↦ rw e (map_by_eppn_keeps given family is s)
]

pub check_mapping_user_keeps :
    (o : Option ℕ) (ids : List Identifier) (given family : ℕ) (s : CrisalidStore)
    → KeepsResearchers s (check_mapping_user o ids given family s)
check_mapping_user_keeps (some u) ids given family s = add_member_keeps u s
check_mapping_user_keeps none ids given family s = map_by_eppn_keeps given family ids s
