-- ===== src/Crisalid/Tests.antt =====
-- A researcher with an ORCID, known and unknown.
use projects_backend.Base.{ok, err, ◌≡◌, refl, none, some, List, [], ◌∷◌, arith}
use projects_backend.Crisalid.{
  Identifier, Researcher, CrisalidStore, Sent, populate_identifiers, populate_researcher, eppn,
  other, integrity_error,
}
use projects_backend.Crisalid.Owned.{IsOwned, populate_researcher-IsOwned}
use projects_backend.Crisalid.Found.{Finds, populate_researcher-Finds}

abbrev orcid : Identifier
orcid = record { pk = 1; harvester = other 1; value = 77 }

abbrev known : Researcher
known = record { pk = 2; user = none; given_name = 5; family_name = 6; identifiers = orcid ∷ [] }

abbrev store : CrisalidStore
store = record {
  identifiers = orcid ∷ [];
  researchers = known ∷ [];
  users = [];
  members = [];
  next_pk = 10;
}

-- the ORCID, an eppn and an invalid identifier
abbrev sent : List Sent
sent = some (other 1, 77) ∷ some (eppn, 88) ∷ none ∷ []

abbrev eppn_row : Identifier
eppn_row = record { pk = 10; harvester = eppn; value = 88 }

mapped_test : populate_researcher (λ v. v) 7 6 sent store ≡ (
  ok (
      some (record {
        pk = 2;
        user = some 11;
        given_name = 7;
        family_name = 6;
        identifiers = orcid ∷ eppn_row ∷ [];
      })),
  record {
    identifiers = eppn_row ∷ orcid ∷ [];
    researchers =
        record {
          pk = 2;
          user = some 11;
          given_name = 7;
          family_name = 6;
          identifiers = orcid ∷ eppn_row ∷ [];
        }
        ∷ [];
    users = record { pk = 11; email = 88; given_name = 7; family_name = 6 } ∷ [];
    members = 11 ∷ [];
    next_pk = 12;
  },
)
unfolding populate_researcher populate_identifiers
mapped_test = refl

private_only_test : (populate_researcher (λ v. v) 7 6 (some (eppn, 88) ∷ []) store).0 ≡ ok none
unfolding populate_researcher populate_identifiers
private_only_test = refl

-- a value that differs from a known one in case only: 77 and 99 fold to 0
case_test :
    (populate_researcher (λ v. 0) 7 6 (some (other 1, 99) ∷ []) store).0 ≡ err integrity_error
unfolding populate_researcher populate_identifiers
case_test = refl

store-IsOwned : IsOwned store
store-IsOwned = record { owned = λ k. ground arith; single = λ u. omega arith }

populate_researcher-IsOwned_example : IsOwned (populate_researcher (λ v. v) 7 6 sent store).1
populate_researcher-IsOwned_example =
    populate_researcher-IsOwned (λ v. v) 7 6 sent store store-IsOwned

populate_researcher-Finds_example : Finds 7 6 (populate_researcher (λ v. v) 7 6 sent store)
populate_researcher-Finds_example = populate_researcher-Finds (λ v. v) 7 6 sent store
