-- ===== src/Crisalid.antt =====
-- services/crisalid/populates and services/crisalid/manager.py: a researcher that CRISalid sends is
-- matched by its identifiers with those that are known. Every statement is committed by itself, so
-- that an exception keeps what was saved before it. A many-to-many relation is a list, in which an
-- identifier that was sent twice stands twice. `Lower`, the case folding of the database, is an
-- argument.
pub mod Kept
pub mod Owned
pub mod Found
mod Tests
use projects_backend.Base.{
  ◌==◌, if◌then◌else◌, mem, any, filter, Result, ok, err, ℕ, ◌+◌, Bool, true, false, not, ◌&&◌,
  Option, none, some, List, [], ◌∷◌, map,
}

-- `Identifier.Harvester`, with the three of `Researcher.PRIVACY_HARVESTER`
pub data Harvester : Type 0 where
  eppn ppn local_ : Harvester
  other : ℕ → Harvester

abbrev same_harvester : Harvester → Harvester → Bool
same_harvester eppn eppn = true
same_harvester ppn ppn = true
same_harvester local_ local_ = true
same_harvester (other a) (other b) = a == b
same_harvester _ _ = false

abbrev pub is_private : Harvester → Bool
is_private eppn = true
is_private ppn = true
is_private local_ = true
is_private (other a) = false

abbrev is_local : Harvester → Bool
is_local local_ = true
is_local _ = false

abbrev is_eppn : Harvester → Bool
is_eppn eppn = true
is_eppn _ = false

pub record Identifier : Type 0 where
  pub pk : ℕ
  pub harvester : Harvester
  pub value : ℕ

pub record Researcher : Type 0 where
  pub pk : ℕ
  pub user : Option ℕ
  pub given_name : ℕ
  pub family_name : ℕ
  pub identifiers : List Identifier

pub record ResearchUser : Type 0 where
  pub pk : ℕ
  pub email : ℕ
  pub given_name : ℕ
  pub family_name : ℕ

pub record CrisalidStore : Type 0 where
  pub identifiers : List Identifier
  pub researchers : List Researcher
  pub users : List ResearchUser
  -- the users of the organization
  pub members : List ℕ
  pub next_pk : ℕ

pub data PopulateError : Type 0 where
  multiple_objects_returned integrity_error : PopulateError

abbrev pub Run : Type 0 → Type 0
Run A = Result PopulateError A × CrisalidStore

-- what follows a call, unless that raised
abbrev pub and_then : {A B : Type 0} → Run A → (A → CrisalidStore → Run B) → Run B
and_then (ok a, s) f = f a s
and_then (err e, s) f = (err e, s)

-- the constraint `unique_harvester`
abbrev clashes : (lower : ℕ → ℕ) → Harvester → ℕ → Identifier → Bool
clashes lower h v i =
    not (is_local h)
    && not (is_local i.harvester)
    && same_harvester i.harvester h
    && lower i.value == lower v

abbrev insert_identifier : (lower : ℕ → ℕ) → Harvester → ℕ → CrisalidStore → Run Identifier
insert_identifier lower h v s =
    if any (clashes lower h v) s.identifiers
    then (err integrity_error, s)
    else (let i : Identifier = record { pk = s.next_pk; harvester = h; value = v } in
        (ok i, record s { identifiers = i ∷ s.identifiers; next_pk = s.next_pk + 1 }))

-- `cache.model` and `cache.save` for an identifier, from the rows that `get` finds
abbrev pub get_or_insert :
    (lower : ℕ → ℕ) → Harvester → ℕ → List Identifier → CrisalidStore → Run Identifier
get_or_insert lower h v [] s = insert_identifier lower h v s
get_or_insert lower h v (i ∷ []) s = (ok i, s)
get_or_insert lower h v (i ∷ j ∷ rest) s = (err multiple_objects_returned, s)

-- An identifier of the message, sanitized: `none` where the harvester or the value is not valid.
abbrev pub Sent : Type 0
Sent = Option (Harvester × ℕ)

-- `PopulateIdentifier.single`, for a valid one
abbrev pub populate_identifier : (lower : ℕ → ℕ) → Harvester → ℕ → CrisalidStore → Run Identifier
populate_identifier lower h v s =
    get_or_insert lower h v
      (filter (λ i. i.value == v && same_harvester i.harvester h) s.identifiers) s

-- `PopulateIdentifier.multiple`
unfoldable pub populate_identifiers :
    (lower : ℕ → ℕ) → List Sent → CrisalidStore → Run (List Identifier)
populate_identifiers lower [] s = (ok [], s)
populate_identifiers lower (none ∷ rest) s = populate_identifiers lower rest s
populate_identifiers lower (some (h, v) ∷ rest) s =
    and_then (populate_identifier lower h v s)
      λ i s1. and_then (populate_identifiers lower rest s1) λ is s2. (ok (i ∷ is), s2)

abbrev pub public_ids : List Identifier → List Identifier
public_ids = filter (λ i. not (is_private i.harvester))

abbrev pub pks : List Identifier → List ℕ
pks = map (λ i. i.pk)

-- `from_identifiers`: a researcher with one of the identifiers
abbrev pub touches : List ℕ → Researcher → Bool
touches ps r = any (λ i. mem i.pk ps) r.identifiers

abbrev pub add_member : ℕ → CrisalidStore → CrisalidStore
add_member u s = if mem u s.members then s else record s { members = u ∷ s.members }

-- `create_user`, from the users that `get` finds, with `update_user`
abbrev pub get_or_create_user :
    (email given family : ℕ) → List ResearchUser → CrisalidStore → Run (Option ℕ)
get_or_create_user email given family [] s =
    let u : ResearchUser = record {
      pk = s.next_pk;
      email = email;
      given_name = given;
      family_name = family;
    } in
    (ok (some u.pk), add_member u.pk (record s { users = u ∷ s.users; next_pk = s.next_pk + 1 }))
get_or_create_user email given family (u ∷ []) s = (ok (some u.pk), add_member u.pk s)
get_or_create_user email given family (u ∷ v ∷ rest) s = (err multiple_objects_returned, s)

abbrev pub map_by_eppn : (given family : ℕ) → List Identifier → CrisalidStore → Run (Option ℕ)
map_by_eppn given family [] s = (ok none, s)
map_by_eppn given family (i ∷ is) s =
    let later = map_by_eppn given family is s in
    if is_eppn i.harvester
    then get_or_create_user i.value given family (filter (λ u. u.email == i.value) s.users) s
    else later

-- `check_mapping_user`
abbrev pub check_mapping_user :
    Option ℕ → List Identifier → (given family : ℕ) → CrisalidStore → Run (Option ℕ)
check_mapping_user (some u) ids given family s = (ok (some u), add_member u s)
check_mapping_user none ids given family s = map_by_eppn given family ids s

abbrev pub has_user : Option ℕ → Researcher → Bool
has_user none r = false
has_user (some u) r = elim r.user [ none ↦ false | some v ↦ v == u ]

-- The saves at the end of `PopulateResearcher.single`: the row takes the place of the one that was
-- found, and a user has one researcher. The order of the rows has no meaning.
abbrev pub save_researcher :
    (researcher_pk : ℕ)
    → (given family : ℕ) → List Identifier
    → List Researcher
    → Option ℕ
    → CrisalidStore
    → Run (Option Researcher)
save_researcher k given family ids others user s =
    let r : Researcher = record {
      pk = k;
      user = user;
      given_name = given;
      family_name = family;
      identifiers = ids;
    } in
    if any (has_user user) others
    then (err integrity_error, s)
    else (ok (some r), record s { researchers = r ∷ others })

-- the rest of `single`, from the researchers that `from_identifiers(...).get()` finds
abbrev pub populate_found :
    (given family : ℕ)
    → List Identifier
    → (found others : List Researcher) → CrisalidStore
    → Run (Option Researcher)
populate_found given family ids [] others s =
    and_then (check_mapping_user none ids given family s) λ user s1.
      save_researcher s1.next_pk given family ids others user
        (record s1 { next_pk = s1.next_pk + 1 })
populate_found given family ids (r ∷ []) others s =
    and_then (check_mapping_user r.user ids given family s)
      λ user s1. save_researcher r.pk given family ids others user s1
populate_found given family ids (r ∷ q ∷ rest) others s = (err multiple_objects_returned, s)

abbrev pub populate_with :
    (given family : ℕ) → (ids public_ : List Identifier) → CrisalidStore → Run (Option Researcher)
populate_with given family ids [] s = (ok none, s)
populate_with given family ids (i ∷ is) s =
    populate_found given family ids (filter (touches (pks (i ∷ is))) s.researchers)
      (filter (λ r. not (touches (pks (i ∷ is)) r)) s.researchers) s

-- `PopulateResearcher.single`
unfoldable pub populate_researcher :
    (lower : ℕ → ℕ) → (given family : ℕ) → List Sent → CrisalidStore → Run (Option Researcher)
populate_researcher lower given family sent s =
    and_then (populate_identifiers lower sent s)
      λ ids s1. populate_with given family ids (public_ids ids) s1
