-- ===== src/Group/Laws.antt =====
-- What the transactions on groups keep: unique names, and memberships of groups that are there.
use scim_server.Common.{
  ◌≡◌, refl, sym, ap, ◌∙◌, Bool, true, false, not, Option, none, some, List, [], ◌∷◌, ◌++◌, map,
  arith, any, all, keep, any-append, all-append, all-keep, all_mono, Option-cases, inl, inr, subst,
  append-nil,
}
use scim_server.Text.{Text, ◌==◌, codes}
use scim_server.Text.Laws.{eq_iff, eq_refl}
use scim_server.Error.{ok, ok-injective}
use scim_server.User.Laws.{keys_unique}
use scim_server.Group.{Member, PreparedGroup, GroupServices}
use scim_server.Group.Store.{
  GroupRow, Membership, Tables, is_group, displayed, another_group, in_group, has_member,
  insert_all, insert_group, replace_group, new_row, changed_row, execute_group_delete,
}
use scim_server.Group.Names.{
  groups_unique, append-groups_unique, keep-groups_unique, changed_row-groups_unique,
  any-is_group-changed_row,
}
use scim_server.Group.Members.{
  memberships_of, memberships_given, memberships_valid, insert_members-appends,
  insert_members-memberships_valid, keep-memberships_valid,
}

-- The group of the membership is in the table.
abbrev pub grounded : List GroupRow → Membership → Bool
grounded rows m = any (is_group m.group_id) rows

pub record WellFormed (t : Tables) : Type 0 where
  pub users : keys_unique t.users ≡ true
  pub groups : groups_unique t.groups ≡ true
  pub valid : memberships_valid t.memberships ≡ true
  pub all_grounded : all (grounded t.groups) t.memberships ≡ true

pub insert_all-appends :
    (services : GroupServices) (id : Text) (members : Option (List Member))
    (ms ms' : List Membership)
    → insert_all services id members ms ≡ ok ms'
    → ms' ≡ ms ++ memberships_given id members
insert_all-appends services id none ms ms' h = sym (ok-injective h) ∙ sym (append-nil ms)
insert_all-appends services id (some members) ms ms' h =
    insert_members-appends services id members ms ms' h

insert_all-memberships_valid :
    (services : GroupServices) (id : Text) (members : Option (List Member))
    (ms ms' : List Membership)
    → insert_all services id members ms ≡ ok ms'
    → memberships_valid ms ≡ true
    → memberships_valid ms' ≡ true
insert_all-memberships_valid services id none ms ms' h v =
    ap memberships_valid (sym (ok-injective h)) ∙ v
insert_all-memberships_valid services id (some members) ms ms' h v =
    insert_members-memberships_valid services id members ms ms' h v

memberships_of-grounded :
    (rows : List GroupRow) (id : Text) (members : List Member)
    → any (is_group id) rows ≡ true
    → all (grounded rows) (memberships_of id members) ≡ true
unfolding memberships_of
memberships_of-grounded rows id [] h = refl
memberships_of-grounded rows id (m ∷ members) h = elim (Option-cases m.value) [
  | inl e ↦ rw e (memberships_of-grounded rows id members h)
  | inr (member_id, e) ↦ rw e (ground (arith, memberships_of-grounded rows id members h))
]

-- The memberships written for a group that is there are grounded with the others.
insert_all-grounded :
    (services : GroupServices) (rows : List GroupRow) (id : Text) (members : Option (List Member))
    → (ms ms' : List Membership) → insert_all services id members ms ≡ ok ms'
    → any (is_group id) rows ≡ true
    → all (grounded rows) ms ≡ true
    → all (grounded rows) ms' ≡ true
insert_all-grounded services rows id members ms ms' h i g =
    let given : all (grounded rows) (memberships_given id members) ≡ true =
      elim members as (λ x. all (grounded rows) (memberships_given id x) ≡ true) [
        | none ↦ refl
        | some members ↦ memberships_of-grounded rows id members i
      ] in
    ap (all (grounded rows)) (insert_all-appends services id members ms ms' h)
    ∙ ground (arith, all-append (grounded rows) ms (memberships_given id members), given)

pub insert_group-ok :
    (services : GroupServices) (t : Tables) (p : PreparedGroup) (t' : Tables)
    → insert_group services t p ≡ ok t'
    → (ms : List Membership) × (any (displayed p.display_name) t.groups ≡ false)
      × (any (is_group p.id) t.groups ≡ false)
      × (insert_all services p.id p.members t.memberships ≡ ok ms)
      × (record t { groups = t.groups ++ new_row p ∷ []; memberships = ms } ≡ t')
unfolding insert_group
insert_group-ok services t p t' h = ground arith

pub insert_group-WellFormed :
    (services : GroupServices) (t : Tables) (p : PreparedGroup) (t' : Tables)
    → insert_group services t p ≡ ok t'
    → WellFormed t
    → WellFormed t'
insert_group-WellFormed services t p t' h w =
    let (ms, n, i, m, e) = insert_group-ok services t p t' h in
    let rows = t.groups ++ new_row p ∷ [] in
    let here : any (is_group p.id) rows ≡ true =
      any-append (is_group p.id) t.groups (new_row p ∷ []) ∙ ground (arith, eq_refl p.id) in
    let others : all (grounded rows) t.memberships ≡ true =
      all_mono (grounded t.groups) (grounded rows) t.memberships
        (λ x y. any-append (is_group x.group_id) t.groups (new_row p ∷ []) ∙ ground (arith, y))
        w.all_grounded in
    subst WellFormed e (record {
      users = w.users;
      groups = append-groups_unique t.groups (new_row p) w.groups i n;
      valid = insert_all-memberships_valid services p.id p.members t.memberships ms m w.valid;
      all_grounded =
          insert_all-grounded services rows p.id p.members t.memberships ms m here others;
    })

pub replace_group-ok :
    (services : GroupServices) (t : Tables) (p : PreparedGroup) (t' : Tables)
    → replace_group services t p ≡ ok (some t')
    → (ms : List Membership) × (any (another_group p.id (displayed p.display_name)) t.groups
        ≡ false)
      × (any (is_group p.id) t.groups ≡ true)
      × (insert_all services p.id p.members (keep (λ m. not (in_group p.id m)) t.memberships)
          ≡ ok ms)
      × (record t { groups = map (changed_row p) t.groups; memberships = ms } ≡ t')
unfolding replace_group
replace_group-ok services t p t' h = ground arith

pub replace_group-WellFormed :
    (services : GroupServices) (t : Tables) (p : PreparedGroup) (t' : Tables)
    → replace_group services t p ≡ ok (some t')
    → WellFormed t
    → WellFormed t'
replace_group-WellFormed services t p t' h w =
    let (ms, n, i, m, e) = replace_group-ok services t p t' h in
    let rows = map (changed_row p) t.groups in
    let left = keep (λ m. not (in_group p.id m)) t.memberships in
    let here = any-is_group-changed_row p p.id t.groups ∙ i in
    let others : all (grounded rows) left ≡ true =
      all-keep (grounded rows) (λ m. not (in_group p.id m)) t.memberships
        (all_mono (grounded t.groups) (grounded rows) t.memberships
          (λ x y. any-is_group-changed_row p x.group_id t.groups ∙ y) w.all_grounded) in
    subst WellFormed e (record {
      users = w.users;
      groups = changed_row-groups_unique p t.groups n w.groups;
      valid =
          insert_all-memberships_valid services p.id p.members left ms m
            (keep-memberships_valid (λ m. not (in_group p.id m)) t.memberships w.valid);
      all_grounded = insert_all-grounded services rows p.id p.members left ms m here others;
    })

any-is_group-keep-not :
    (id j : Text) (rows : List GroupRow)
    → j == id ≡ false
    → any (is_group j) (keep (λ row. not (is_group id row)) rows) ≡ any (is_group j) rows
any-is_group-keep-not id j [] n = refl
any-is_group-keep-not id j (row ∷ rows) n =
    ground (arith, eq_iff row.id id, eq_iff row.id j, eq_iff j id, any-is_group-keep-not id j rows)

left-grounded :
    (id : Text) (rows : List GroupRow) (ms : List Membership)
    → all (grounded rows) ms ≡ true
    → all (grounded (keep (λ row. not (is_group id row)) rows)) (keep (λ m. not (in_group id m)) ms)
      ≡ true
left-grounded id rows [] g = refl
left-grounded id rows (m ∷ ms) g =
    ground (arith, any-is_group-keep-not id m.group_id rows, left-grounded id rows ms)

pub execute_group_delete-WellFormed :
    (t : Tables) (id : Text) → WellFormed t → WellFormed (execute_group_delete t id).0
unfolding execute_group_delete
execute_group_delete-WellFormed t id w =
    let left = keep (λ m. not (in_group id m)) t.memberships in
    let rows = keep (λ row. not (is_group id row)) t.groups in
    let stays = λ (m : Membership). not (has_member (codes "Group") id m) in
    record {
      users = w.users;
      groups = keep-groups_unique (λ row. not (is_group id row)) t.groups w.groups;
      valid =
          keep-memberships_valid stays left
            (keep-memberships_valid (λ m. not (in_group id m)) t.memberships w.valid);
      all_grounded =
          all-keep (grounded rows) stays left
            (left-grounded id t.groups t.memberships w.all_grounded);
    }
