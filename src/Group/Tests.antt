-- ===== src/Group/Tests.antt =====
-- Groups created, replaced and deleted, with simple services.
use scim_server.Common.{
  take, drop, ◌≡◌, refl, ℕ, true, false, not, ◌&&◌, Option, none, some, List, [], ◌∷◌, ◌++◌, ◌-◌,
  any, keep, map, ℤ, length,
}
use scim_server.Text.{Text, codes, trim, ascii_lower}
use scim_server.Json.{null}
use scim_server.Error.{ok, err, conflict}
use scim_server.User.{Services, validate_user_id}
use scim_server.User.Store.{Row, has_id, delete_user}
use scim_server.User.Laws.{keys_unique}
use scim_server.Group.{
  Group, Member, GroupServices, prepare_group_for_insert, prepare_group_for_update,
  validate_group_id,
}
use scim_server.Group.Store.{
  GroupRow, Membership, Tables, insert_group, replace_group, delete_group, delete_user_everywhere,
  is_group, in_group, has_member,
}
use scim_server.Group.Read.{
  create_group, update_group, find_group_by_id, fetch_group_with_members, member_of, unless_empty,
  find_groups_by_user_id, write_group, meta_at, find_group, fetch_group_members,
}
use scim_server.Group.Pages.{page}
use scim_server.Group.Bounds.{page_lem, shown, skipped}
use scim_server.Group.Names.{groups_unique}
use scim_server.Group.Members.{memberships_valid, memberships_given, memberships_of}
use scim_server.Group.Laws.{WellFormed}
use scim_server.Group.RoundTrip.{WrittenFor}
use scim_server.Group.Reachable.{
  no_rows, Reachable, empty, next, group_created, group_replaced, Reachable-WellFormed,
}
use scim_server.Group.Answers.{update_group-members, create_group-members}
use scim_server.Group.Deletions.{delete_group-removes, delete_user_everywhere-removes}

abbrev pub staff : Option (List Member) → Group
staff members = record {
  id = codes "g";
  display_name = codes "Staff";
  external_id = none;
  members = members;
  meta = none;
  others = null;
}

-- Services of groups that are all the same.
abbrev pub services : GroupServices
services = record {
  to_value = λ g. ok null;
  from_value = λ v. ok (staff none);
  format_datetime = λ t. [];
  stored_datetime = λ t. [];
  constraint_message = [];
  json_extract = λ v path. none;
  normalize = λ v. v;
  compare_numbers = λ a b. none;
  parse_f64 = λ s. none;
}

abbrev member : Text → Option Text → Member
member id kind = record { value = some id; ref_ = none; display = none; type_ = kind }

abbrev membership : Text → Text → Text → Membership
membership group id kind = record { group_id = group; member_id = id; member_type = kind }

abbrev pub row : Text → Text → ℕ → GroupRow
row id name version = record {
  id = id;
  display_name = name;
  external_id = none;
  data_orig = null;
  data_norm = null;
  version = version;
  created_at = 1;
  updated_at = version;
}

abbrev user_row : Row
user_row = record {
  id = codes "a";
  username = codes "ann";
  external_id = none;
  data_orig = null;
  data_norm = null;
  version = 1;
  created_at = 1;
  updated_at = 1;
}

-- Two groups; "a" is a user in both, and the group "g" is in "h".
abbrev pub two_groups : Tables
two_groups = record {
  users = user_row ∷ [];
  groups = row (codes "g") (codes "Staff") 1 ∷ row (codes "h") (codes "All") 1 ∷ [];
  memberships =
      membership (codes "g") (codes "a") (codes "User")
      ∷ membership (codes "h") (codes "a") (codes "User")
      ∷ membership (codes "h") (codes "g") (codes "Group")
      ∷ [];
}

abbrev pub given : Option (List Member)
given = some (
    member (codes "b") none
    ∷ record (member [] none) { value = none }
    ∷ member (codes "h") (some (codes "Group"))
    ∷ [])

abbrev pub replaced : Tables
replaced = record two_groups {
  groups = row (codes "g") (codes "Staff") 2 ∷ row (codes "h") (codes "All") 1 ∷ [];
  memberships =
      membership (codes "h") (codes "a") (codes "User")
      ∷ membership (codes "h") (codes "g") (codes "Group")
      ∷ membership (codes "g") (codes "b") (codes "User")
      ∷ membership (codes "g") (codes "h") (codes "Group")
      ∷ [];
}

abbrev pub answered : Group
answered = record (staff none) {
  members = some (map (member_of services 7 replaced) (memberships_given (codes "g") given));
  meta = some (meta_at services (row (codes "g") (codes "Staff") 2) none);
}

pub updates :
    update_group services 2 7 two_groups (codes "g") (staff given) ≡ (replaced, ok (some answered))
unfolding update_group write_group replace_group validate_group_id prepare_group_for_update trim
    fetch_group_with_members fetch_group_members find_group memberships_of ascii_lower
updates = refl

update_group-members_example :
    (answered.members
      ≡ unless_empty (map (member_of services 7 replaced) (memberships_given (codes "g") given)))
    × WrittenFor (codes "g") given two_groups.memberships replaced.memberships
update_group-members_example =
    update_group-members services 2 7 two_groups (codes "g") (staff given) replaced answered updates

two_groups-WellFormed : WellFormed two_groups
unfolding keys_unique groups_unique memberships_valid ascii_lower
two_groups-WellFormed = record { users = refl; groups = refl; valid = refl; all_grounded = refl }

abbrev three_groups : Tables
three_groups = record two_groups {
  groups = two_groups.groups ++ row (codes "i") (codes "Rest") 1 ∷ [];
  memberships =
      two_groups.memberships
      ++ membership (codes "i") (codes "b") (codes "User")
        ∷ membership (codes "i") (codes "h") (codes "Group")
        ∷ [];
}

abbrev rest : Group
rest = record (staff given) { display_name = codes "Rest" }

abbrev rest_answered : Group
rest_answered = record (staff none) {
  members = some (map (member_of services 7 three_groups) (memberships_given (codes "i") given));
  meta = some (meta_at services (row (codes "i") (codes "Rest") 1) none);
}

creates : create_group services 1 (codes "i") 7 two_groups rest ≡ (three_groups, ok rest_answered)
unfolding create_group insert_group prepare_group_for_insert find_group_by_id fetch_group_members
    find_group memberships_of ascii_lower
creates = refl

create_group-members_example :
    (rest_answered.members
      ≡ some (map (member_of services 7 three_groups) (memberships_given (codes "i") given)))
    × WrittenFor (codes "i") given two_groups.memberships three_groups.memberships
create_group-members_example =
    create_group-members services 1 (codes "i") 7 two_groups rest three_groups rest_answered
      two_groups-WellFormed creates

abbrev one_group : Tables
one_group = record two_groups {
  groups = row (codes "h") (codes "All") 1 ∷ [];
  memberships = membership (codes "h") (codes "a") (codes "User") ∷ [];
}

deletes : delete_group two_groups (codes "g") ≡ ok (one_group, true)
unfolding delete_group validate_group_id trim
deletes = refl

delete_group-removes_example :
    (any (is_group (codes "g")) one_group.groups ≡ false)
    × (any (in_group (codes "g")) one_group.memberships ≡ false)
    × (any (has_member (codes "Group") (codes "g")) one_group.memberships ≡ false)
    × (one_group.groups ≡ keep (λ row. not (is_group (codes "g") row)) two_groups.groups)
    × (one_group.memberships
        ≡ keep
            (λ m. not (in_group (codes "g") m) && not (has_member (codes "Group") (codes "g") m))
            two_groups.memberships)
    × (one_group.users ≡ two_groups.users)
    × (true ≡ any (is_group (codes "g")) two_groups.groups)
delete_group-removes_example = delete_group-removes two_groups (codes "g") (one_group, true) deletes

abbrev no_users : Tables
no_users = record two_groups {
  users = [];
  memberships = membership (codes "h") (codes "g") (codes "Group") ∷ [];
}

deletes_user : delete_user_everywhere two_groups (codes "a") ≡ ok (no_users, true)
unfolding delete_user_everywhere delete_user validate_user_id trim
deletes_user = refl

delete_user_everywhere-removes_example :
    (any (has_id (codes "a")) no_users.users ≡ false)
    × (find_groups_by_user_id services 7 no_users (codes "a") ≡ ok [])
    × (no_users.users ≡ keep (λ row. not (has_id (codes "a") row)) two_groups.users)
    × (no_users.groups ≡ two_groups.groups)
    × (no_users.memberships
        ≡ keep (λ m. not (has_member (codes "User") (codes "a") m)) two_groups.memberships)
delete_user_everywhere-removes_example =
    delete_user_everywhere-removes services 7 two_groups (codes "a") (no_users, true) deletes_user

abbrev five : List ℕ
five = 1 ∷ 2 ∷ 3 ∷ 4 ∷ 5 ∷ []

page_lem_example :
    (page (some (ℤ.pos 2)) (some (ℤ.negsuc 0)) five
      ≡ take
          (shown (some (ℤ.negsuc 0)) (length five - skipped (some (ℤ.pos 2))))
          (drop (skipped (some (ℤ.pos 2))) five))
    × (length (page (some (ℤ.pos 2)) (some (ℤ.negsuc 0)) five)
        ≡ shown (some (ℤ.negsuc 0)) (length five - skipped (some (ℤ.pos 2))))
page_lem_example = page_lem (some (ℤ.pos 2)) (some (ℤ.negsuc 0)) five

-- A negative count is no bound.
unbounded : page none (some (ℤ.negsuc 0)) five ≡ five
unfolding page
unbounded = refl

abbrev pub users : Services
users = record {
  crypto = record {
    argon2 = λ p. ok p;
    is_phc = λ p. true;
    decoded_len = λ p. none;
    is_lowercase = λ c. true;
    is_uppercase = λ c. true;
  };
  to_value = λ u. ok null;
  from_value = λ v. ok (record {
    user_name = [];
    id = none;
    external_id = none;
    password = none;
    meta = none;
    others = null;
  });
  format_datetime = λ t. [];
  to_lowercase = λ s. s;
  normalize = λ v. v;
  compare_numbers = λ a b. none;
  parse_f64 = λ s. none;
}

-- A group is created, replaced with members, and created again under its name in capitals, which fails.
abbrev after_two : Tables
after_two =
    (update_group services 2 7 (create_group services 1 (codes "g") 7 no_rows (staff none)).0
      (codes "g") (staff given)).0

after_three :
    Reachable users services
      (create_group services 3
        (codes "i")
        7
        after_two
        (record (staff none) { display_name = codes "STAFF" })).0
after_three =
    next after_two
      (create_group services 3 (codes "i") 7 after_two
        (record (staff none) { display_name = codes "STAFF" })).0
      (next (create_group services 1 (codes "g") 7 no_rows (staff none)).0 after_two
        (next no_rows (create_group services 1 (codes "g") 7 no_rows (staff none)).0 empty
          (group_created 1 (codes "g") 7 no_rows (staff none)))
        (group_replaced 2 7 (create_group services 1 (codes "g") 7 no_rows (staff none)).0
          (codes "g") (staff given)))
      (group_created 3 (codes "i") 7 after_two
        (record (staff none) { display_name = codes "STAFF" }))

Reachable-WellFormed_example :
    WellFormed
      (create_group services 3
        (codes "i")
        7
        after_two
        (record (staff none) { display_name = codes "STAFF" })).0
Reachable-WellFormed_example =
    Reachable-WellFormed users services
      (create_group services 3 (codes "i") 7 after_two
        (record (staff none) { display_name = codes "STAFF" })).0
      after_three

-- The second name is refused, and the members are still there.
refused :
    (create_group services 3
      (codes "i")
      7
      after_two
      (record (staff none) { display_name = codes "STAFF" }))
    ≡ (after_two, err (conflict (codes "Group with this displayName already exists")))
unfolding create_group insert_group prepare_group_for_insert update_group write_group replace_group
    validate_group_id prepare_group_for_update trim ascii_lower
refused = refl

abbrev pub answered_group : Group
answered_group = record (staff none) {
  members =
      some
        (member_of services 7 two_groups (membership (codes "g") (codes "a") (codes "User")) ∷ []);
  meta = some (meta_at services (row (codes "g") (codes "Staff") 1) none);
}
