-- ===== src/GroupPermissions/Batch.antt =====
-- `batch_reassign_permissions` of apps/commons/mixins.py: the same rows as setting up each group.
use projects_backend.Base.{
  ◌==◌, if◌then◌else◌, ==_iff, Bool-cases, mem, any, all, ℕ, ◌≡◌, refl, sym, ap, ◌∙◌, inl, inr,
  Bool, true, false, not, ◌&&◌, ◌||◌, List, [], ◌∷◌, ◌++◌, arith,
}
use projects_backend.GroupPermissions.{
  PermissionRow, GroupData, is_row, has_row, in_role, delete_others, create_rows, assign_each,
  batch_reassign_permissions, setup_group_object_permissions,
}
use projects_backend.GroupPermissions.Setup.{
  any-filter, has_row-assign_each, same_place, is_for, setup_group_object_permissions_exact,
}

-- whether some group of the role is this one with this object
abbrev holds_place : ℕ → ℕ → ℕ → List GroupData → Bool
holds_place role g o datas =
    any (λ (d : GroupData). d.role == role && same_place d.group d.object g o) datas

has_row-create_rows :
    (role : ℕ) (ps : List ℕ) (datas : List GroupData) (g p o : ℕ) (rows : List PermissionRow)
    → has_row g p o (create_rows role ps datas rows)
      ≡ (has_row g p o rows || (holds_place role g o datas && mem p ps))
unfolding create_rows
has_row-create_rows role ps [] g p o rows = ground arith
has_row-create_rows role ps (d ∷ datas) g p o rows = elim (Bool-cases (d.role == role)) [
  | inl e ↦
      rw (create_rows, e)
        (has_row-create_rows role ps datas g p o (assign_each ps d.group d.object rows)
          ∙ rw (has_row-assign_each ps d.group d.object g p o rows) (ground arith))
  | inr e ↦ rw (create_rows, e) (has_row-create_rows role ps datas g p o rows)
]

has_row-delete_others :
    (role : ℕ) (ps : List ℕ) (datas : List GroupData) (g p o : ℕ) (rows : List PermissionRow)
    → has_row g p o (delete_others role ps datas rows)
      ≡ (has_row g p o rows && not (in_role role g datas && not (mem p ps)))
unfolding delete_others
has_row-delete_others role ps datas g p o rows = any-filter (is_row g p o) _ rows ∙ kept rows
  where
    kept :
        (rs : List PermissionRow)
        → any
            (λ r. is_row g p o r && not (in_role role r.group datas && not (mem r.permission ps)))
            rs
          ≡ (any (is_row g p o) rs && not (in_role role g datas && not (mem p ps)))
    kept [] = refl
    kept (r ∷ rs) = elim (Bool-cases (is_row g p o r)) [
      | inr e ↦ rw e (kept rs)
      | inl e ↦
          let eg : r.group ≡ g = ground arith in
          let ep : r.permission ≡ p = ground arith in rw (e, eg, ep) (ground (arith, kept rs))
    ]

-- The group's data: it has one role, on one object.
pub record HasData (g role o : ℕ) (datas : List GroupData) : Type 0 where
  pub roles : (r : ℕ) → in_role r g datas ≡ (r == role)
  pub places : (r o' : ℕ) → holds_place r g o' datas ≡ (r == role && o' == o)

-- One round of the loop, at the group.
round_at :
    (g role o p role' : ℕ) (ps : List ℕ) (datas : List GroupData) (rows : List PermissionRow)
    → HasData g role o datas
    → has_row g p o (create_rows role' ps datas (delete_others role' ps datas rows))
      ≡ (if role' == role then mem p ps else has_row g p o rows)
round_at g role o p role' ps datas rows h =
    has_row-create_rows role' ps datas g p o (delete_others role' ps datas rows)
    ∙ rw (has_row-delete_others role' ps datas g p o rows, h.roles role', h.places role' o)
        (elim (Bool-cases (role' == role)) [
          | inl e ↦ rw e (ground arith)
          | inr e ↦ rw e (ground arith)
        ])

abbrev no_role : ℕ → List (ℕ × List ℕ) → Bool
no_role role list = all (λ (r, ps). not (r == role)) list

other_roles :
    (g role o p : ℕ) (list : List (ℕ × List ℕ)) (datas : List GroupData) (rows : List PermissionRow)
    → HasData g role o datas
    → no_role role list ≡ true
    → has_row g p o (batch_reassign_permissions list datas rows) ≡ has_row g p o rows
unfolding batch_reassign_permissions
other_roles g role o p [] datas rows h apart = refl
other_roles g role o p ((r, ps) ∷ list) datas rows h apart =
    let other : (r == role) ≡ false = ground arith in
    other_roles g role o p list datas (create_rows r ps datas (delete_others r ps datas rows)) h
      (ground arith)
    ∙ round_at g role o p r ps datas rows h
    ∙ rw other refl

batch-append :
    (before after : List (ℕ × List ℕ)) (datas : List GroupData) (rows : List PermissionRow)
    → batch_reassign_permissions (before ++ after) datas rows
      ≡ batch_reassign_permissions after datas (batch_reassign_permissions before datas rows)
unfolding batch_reassign_permissions
batch-append [] after datas rows = refl
batch-append ((r, ps) ∷ before) after datas rows = batch-append before after datas _

batch_at_role :
    (g role o p : ℕ) (ps : List ℕ) (after : List (ℕ × List ℕ)) (datas : List GroupData)
    (rows : List PermissionRow)
    → HasData g role o datas
    → no_role role after ≡ true
    → has_row g p o (batch_reassign_permissions ((role, ps) ∷ after) datas rows) ≡ mem p ps
unfolding batch_reassign_permissions
batch_at_role g role o p ps after datas rows h apart =
    other_roles g role o p after datas
      (create_rows role ps datas (delete_others role ps datas rows)) h apart
    ∙ round_at g role o p role ps datas rows h
    ∙ rw ((==_iff role role).1 refl) refl

-- On a group with one role on one object, all of whose rows are for that object, the bulk
-- reassignment, whatever other roles it goes through before and after, gives the same permissions as
-- `setup_group_object_permissions` on that group alone.
pub batch_equals_setup :
    (g role o p : ℕ) (ps : List ℕ) (before after : List (ℕ × List ℕ)) (datas : List GroupData)
    (rows : List PermissionRow)
    → HasData g role o datas
    → all (is_for g o) rows ≡ true
    → no_role role after ≡ true
    → has_row g p o (batch_reassign_permissions (before ++ (role, ps) ∷ after) datas rows)
      ≡ has_row g p o (setup_group_object_permissions g o ps rows)
batch_equals_setup g role o p ps before after datas rows h own apart =
    ap (has_row g p o) (batch-append before ((role, ps) ∷ after) datas rows)
    ∙ batch_at_role g role o p ps after datas (batch_reassign_permissions before datas rows) h apart
    ∙ sym (
        setup_group_object_permissions_exact g o ps rows own g p o
        ∙ rw ((==_iff g g).1 refl, (==_iff o o).1 refl) refl)
