-- ===== src/Crisalid/Found.antt =====
-- services/crisalid/populates/researcher.py: the researcher that was saved is the one that its public
-- identifiers find.
use projects_backend.Base.{
  ==_iff, Bool-cases, mem, any, filter, filter-not_self, ok, err, ℕ, ◌+◌, ◌≡◌, refl, sym, ap, subst,
  inl, inr, true, not, Option, none, some, List, [], ◌∷◌, arith,
}
use projects_backend.Crisalid.{
  and_then, Sent, populate_identifiers, check_mapping_user, populate_found, populate_with,
  populate_researcher,
}
use projects_backend.Crisalid.{
  is_private, Identifier, Researcher, CrisalidStore, Run, public_ids, pks, touches, has_user,
  save_researcher,
}

-- The public identifiers of the result find it and no other, and it has the names that were sent.
abbrev pub Finds : (given family : ℕ) → Run (Option Researcher) → Type 0
Finds given family (ok (some r), t) =
    (filter (touches (pks (public_ids r.identifiers))) t.researchers ≡ r ∷ [])
    × (r.given_name ≡ given)
    × (r.family_name ≡ family)
Finds given family (ok none, t) = Unit {0}
Finds given family (err e, t) = Unit {0}

public_touch :
    (ids is : List Identifier) (i : Identifier)
    → public_ids ids ≡ i ∷ is
    → any (λ x. mem x.pk (pks (i ∷ is))) ids ≡ true
public_touch [] is i e = cc
public_touch (x ∷ ids) is i e = elim (Bool-cases (is_private x.harvester)) [
  | inl q ↦
      let later : public_ids ids ≡ i ∷ is = rw q at e in ground (arith, public_touch ids is i later)
  | inr q ↦
      let first : x ≡ i = same_head (rw q at e) in
      let there : mem i.pk (pks (i ∷ is)) ≡ true = rw ((==_iff i.pk i.pk).1 refl) in
      let there' : mem x.pk (pks (i ∷ is)) ≡ true =
        subst (λ z. mem z.pk (pks (i ∷ is)) ≡ true) (sym first) there in
      rw there'
]
  where
    same_head : {a b : Identifier} {as_ bs : List Identifier} → a ∷ as_ ≡ b ∷ bs → a ≡ b
    same_head h = cc

saved-Finds :
    (n given family : ℕ) (ids : List Identifier) (user : Option ℕ) (all_ : List Researcher)
    (s : CrisalidStore)
    → any (λ x. mem x.pk (pks (public_ids ids))) ids ≡ true
    → Finds given family (
        save_researcher n given family ids
          (filter (λ r. not (touches (pks (public_ids ids)) r)) all_)
          user
          s)
saved-Finds n given family ids user all_ s t =
    let saved : Researcher = record {
      pk = n;
      user = user;
      given_name = given;
      family_name = family;
      identifiers = ids;
    } in
    elim (Bool-cases
      (any (has_user user) (filter (λ r. not (touches (pks (public_ids ids)) r)) all_))) [
        | inl clash ↦ rw clash tt
        | inr free ↦ rw free (
          rw t (ap (λ z. saved ∷ z) (filter-not_self (touches (pks (public_ids ids))) all_)),
          refl,
          refl,
        )
      ]

mapped-Finds :
    (given family : ℕ) (r : Run (Option ℕ))
    (next : Option ℕ → CrisalidStore → Run (Option Researcher))
    → ((user : Option ℕ) (t : CrisalidStore) → Finds given family (next user t))
    → Finds given family (and_then r next)
mapped-Finds given family (ok user, t) next step = step user t
mapped-Finds given family (err e, t) next step = tt

found-Finds :
    (given family : ℕ) (ids : List Identifier) (found all_ : List Researcher) (s : CrisalidStore)
    → any (λ x. mem x.pk (pks (public_ids ids))) ids ≡ true
    → Finds given family (
        populate_found given family ids found
          (filter (λ r. not (touches (pks (public_ids ids)) r)) all_)
          s)
found-Finds given family ids [] all_ s t =
    mapped-Finds given family (check_mapping_user none ids given family s) _ λ user u.
      saved-Finds u.next_pk given family ids user all_ (record u { next_pk = u.next_pk + 1 }) t
found-Finds given family ids (r ∷ []) all_ s t =
    mapped-Finds given family (check_mapping_user r.user ids given family s) _
      λ user u. saved-Finds r.pk given family ids user all_ u t
found-Finds given family ids (r ∷ q ∷ rest) all_ s t = tt

with-Finds :
    (given family : ℕ) (ids public_ : List Identifier) (s : CrisalidStore)
    → public_ids ids ≡ public_
    → Finds given family (populate_with given family ids public_ s)
with-Finds given family ids [] s e = tt
with-Finds given family ids (i ∷ is) s e =
    let touched : any (λ x. mem x.pk (pks (public_ids ids))) ids ≡ true =
      subst (λ z. any (λ x. mem x.pk (pks z)) ids ≡ true) (sym e) (public_touch ids is i e) in
    subst
      (λ z. Finds given family (
        populate_found given family ids (filter (touches (pks (i ∷ is))) s.researchers)
          (filter (λ r. not (touches (pks z) r)) s.researchers) s))
      e
      (found-Finds given family ids (filter (touches (pks (i ∷ is))) s.researchers) s.researchers s
        touched)

-- When `PopulateResearcher.single` returns a researcher, its public identifiers find it afterwards and
-- no other researcher, so that the next message about it reaches the same row; and it has the names
-- that were sent.
pub populate_researcher-Finds :
    (lower : ℕ → ℕ) (given family : ℕ) (sent : List Sent) (s : CrisalidStore)
    → Finds given family (populate_researcher lower given family sent s)
unfolding populate_researcher
populate_researcher-Finds lower given family sent s = go (populate_identifiers lower sent s)
  where
    go :
        (r : Run (List Identifier))
        → Finds given family
            (and_then r (λ ids t. populate_with given family ids (public_ids ids) t))
    go (ok ids, t) = with-Finds given family ids (public_ids ids) t refl
    go (err e, t) = tt
