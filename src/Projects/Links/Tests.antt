-- ===== src/Projects/Links/Tests.antt =====
-- Tests of the table of links, with the projects 1 to 4, of which the user may change 1.
use projects_backend.Base.{
  ◌==◌, ok, err, ℕ, ◌≡◌, refl, ◌↔◌, true, not, ◌||◌, none, some, List, [], ◌∷◌, arith,
}
use projects_backend.Projects.Links.Created.{IsLinkTable}
use projects_backend.Projects.Links.Table.{serve-IsLinkTable}
use projects_backend.Projects.Links.Unlinked.{delete_many-add_many}
use projects_backend.Projects.Links.Exact.{add_many_exact, add_many_reaches, IsAddable, grown}
use projects_backend.Projects.Links.{
  LinkTable, LinkUser, Entry, insert_link, create_link, create_each, add_many, partial_update,
  delete_many, LinkRequest, serve, not_unique, link_project_to_self,
  linked_project_permission_denied, add, patch, unlink,
}

abbrev links_user : LinkUser
links_user = record {
  may_change = λ p. p == 1;
  can_see_project = λ p. not (p == 4);
  is_project = λ p. p == 1 || p == 2 || p == 3 || p == 4;
}

abbrev one_link : LinkTable
one_link = record { links = record { id = 5; project = 2; target = 1 } ∷ []; next_id = 6 }

abbrev to_one : ℕ → Entry
to_one p = record { project = p; target = 1 }

abbrev two_links : LinkTable
two_links = record {
  links =
      record { id = 5; project = 2; target = 1 } ∷ record { id = 6; project = 3; target = 1 } ∷ [];
  next_id = 7;
}

one_link-IsLinkTable : IsLinkTable one_link
one_link-IsLinkTable = record {
  single = λ p t. ground arith;
  apart = λ p. ground arith;
  ids = λ k. ground arith;
  below = λ k le. ground arith;
}

-- A link of 2 again, one of 1 with itself, and one of a project that the user does not see are
-- refused; a link is moved to 3.
refused_test :
    (add_many links_user 1 (to_one 2 ∷ []) one_link ≡ err not_unique)
    × (add_many links_user 1 (to_one 3 ∷ to_one 1 ∷ []) one_link ≡ err link_project_to_self)
    × (add_many links_user 1 (to_one 4 ∷ []) one_link ≡ err linked_project_permission_denied)
    × (partial_update links_user 1 5 (some 3) none one_link
        ≡ ok (record one_link { links = record { id = 5; project = 3; target = 1 } ∷ [] }))
unfolding add_many create_each create_link partial_update
refused_test = (refl, refl, refl, refl)

abbrev some_requests : List (LinkUser × ℕ × LinkRequest)
some_requests =
    (links_user, 1, add (to_one 3 ∷ []))
    ∷ (links_user, 1, patch 6 (some 2) none)
    ∷ (links_user, 1, unlink (2 ∷ []))
    ∷ []

serve-IsLinkTable_example : IsLinkTable (serve some_requests one_link)
serve-IsLinkTable_example = serve-IsLinkTable some_requests one_link one_link-IsLinkTable

add_three : add_many links_user 1 (to_one 3 ∷ []) one_link ≡ ok two_links
unfolding add_many create_each create_link
add_three = refl

delete_many-add_many_example :
    delete_many links_user 1 (3 ∷ []) two_links ≡ ok (record two_links { links = one_link.links })
delete_many-add_many_example =
    delete_many-add_many links_user 1 (to_one 3 ∷ []) one_link two_links refl add_three

-- The user may not change the project 3, and links 2 to it.
add_many_reaches_test :
    add_many links_user 1 (record { project = 2; target = 3 } ∷ []) one_link
    ≡ ok (insert_link (record { project = 2; target = 3 }) one_link)
add_many_reaches_test =
    add_many_reaches links_user 1 (record { project = 2; target = 3 }) one_link refl refl refl refl
      refl

add_many_exact_example :
    (add_many links_user 1 (record { project = 2; target = 3 } ∷ []) one_link
      ≡ ok (insert_link (record { project = 2; target = 3 }) one_link))
    ↔ ((links_user.may_change 1 ≡ true)
        × IsAddable links_user 6 one_link.links (record { project = 2; target = 3 } ∷ [])
        × (insert_link (record { project = 2; target = 3 }) one_link
            ≡ grown (record { project = 2; target = 3 } ∷ []) one_link))
add_many_exact_example =
    add_many_exact links_user 1 (record { project = 2; target = 3 } ∷ []) one_link
      (insert_link (record { project = 2; target = 3 }) one_link)
