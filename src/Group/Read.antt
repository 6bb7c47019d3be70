-- ===== src/Group/Read.antt =====
-- src/backend/database/sqlite/group_read_impl.rs and group_update_impl.rs: the groups that are read
-- back, with their members, and the operations that end with reading one.
use scim_server.Common.{
  ℕ, ◌&&◌, ◌||◌, Option, none, some, List, [], ◌∷◌, ◌++◌, map, if◌then◌else◌, keep,
}
use scim_server.Text.{Text, ◌==◌, codes}
use scim_server.Text.Numbers.{show}
use scim_server.Password.{is_empty}
use scim_server.Json.{Value}
use scim_server.Error.{AppResult, ok, err, panicked, out_of_fuel, database, ◌>>=◌}
use scim_server.User.{Meta, Operation}
use scim_server.User.Store.{Row, find_row}
use scim_server.Group.{
  Group, Member, GroupServices, prepare_group_for_insert, prepare_group_for_update,
  validate_group_id, patch_all,
}
use scim_server.Group.Store.{
  GroupRow, Membership, Tables, is_group, displayed, in_group, has_member, insert_group,
  replace_group,
}

unfoldable pub find_group : Text → List GroupRow → Option GroupRow
find_group id [] = none
find_group id (row ∷ rows) =
    let rest = find_group id rows in if is_group id row then some row else rest

abbrev pub coalesce : Option Text → Option Text → Option Text
coalesce none o = o
coalesce (some s) o = some s

-- `a || ' ' || b` of SQL
abbrev pub spaced : Option Text → Option Text → Option Text
spaced none o = none
spaced (some a) none = none
spaced (some a) (some b) = some (a ++ b' ' ∷ b)

abbrev pub extract_from : GroupServices → Text → Option Value → Option Text
extract_from services path none = none
extract_from services path (some v) = services.json_extract v path

abbrev pub user_data : Text → List Row → Option Value
user_data id rows = elim (find_row id rows) [ none ↦ none | some row ↦ some row.data_orig ]

abbrev pub group_data : Text → List GroupRow → Option Value
group_data id rows = elim (find_group id rows) [ none ↦ none | some row ↦ some row.data_orig ]

unfoldable pub user_display_name : GroupServices → Option Value → Option Text
user_display_name services v = coalesce (extract_from services (codes "$.displayName") v) (
    coalesce (extract_from services (codes "$.name.formatted") v) (
      spaced (extract_from services (codes "$.name.givenName") v)
        (extract_from services (codes "$.name.familyName") v)))

-- `CASE … END as display_name`, on what the joins find
unfoldable pub display_name_of : GroupServices → Tables → Membership → Option Text
unfolding find_group user_display_name
display_name_of services t m =
    if m.member_type == codes "User"
    then user_display_name services (user_data m.member_id t.users)
    else if m.member_type == codes "Group"
    then extract_from services (codes "$.displayName") (group_data m.member_id t.groups)
    else none

abbrev pub collection_of : Text → Text
collection_of kind =
    if kind == codes "User"
    then codes "/Users/"
    else if kind == codes "Group"
    then codes "/Groups/"
    else codes "/Resources/"

unfoldable pub member_of : GroupServices → ℕ → Tables → Membership → Member
unfolding display_name_of
member_of services tenant_id t m = record {
  value = some m.member_id;
  ref_ = some (codes "/" ++ (show tenant_id ++ (collection_of m.member_type ++ m.member_id)));
  display = display_name_of services t m;
  type_ = some m.member_type;
}

unfoldable pub fetch_group_members : GroupServices → ℕ → Tables → Text → List Member
unfolding member_of
fetch_group_members services tenant_id t id =
    map (member_of services tenant_id t) (keep (in_group id) t.memberships)

abbrev pub version_tag : ℕ → Text
version_tag version = codes "W/\"" ++ (show version ++ codes "\"")

-- "Set version in meta (ensure meta exists)"
unfoldable pub meta_at : GroupServices → GroupRow → Option Meta → Meta
meta_at services row none = record {
  resource_type = some (codes "Group");
  created = some (services.stored_datetime row.created_at);
  last_modified = some (services.stored_datetime row.updated_at);
  location = none;
  version = some (version_tag row.version);
}
meta_at services row (some m) = record m { version = some (version_tag row.version) }

-- The members of the answer to an update: left out where there are none.
abbrev pub unless_empty : List Member → Option (List Member)
unless_empty [] = none
unless_empty (m ∷ ms) = some (m ∷ ms)

-- `fetch_group_with_members`, of which there are two; they differ in `shown`.
unfoldable pub fetch_group_with_members :
    GroupServices
    → (List Member → Option (List Member))
    → ℕ
    → Tables
    → Text
    → AppResult (Option Group)
unfolding find_group fetch_group_members meta_at
fetch_group_with_members services shown tenant_id t id =
    if is_empty id then ok none else elim (find_group id t.groups) [
      | none ↦ ok none
      | some row ↦ services.from_value row.data_orig >>= λ group. ok (
          some (record group {
            meta = some (meta_at services row group.meta);
            members = shown (fetch_group_members services tenant_id t id);
          }))
    ]

unfoldable pub find_group_by_id : GroupServices → ℕ → Tables → Text → AppResult (Option Group)
unfolding fetch_group_with_members
find_group_by_id services = fetch_group_with_members services some

unfoldable pub find_displayed : Text → List GroupRow → Option GroupRow
find_displayed name [] = none
find_displayed name (row ∷ rows) =
    let rest = find_displayed name rows in if displayed name row then some row else rest

unfoldable pub find_group_by_display_name :
    GroupServices → ℕ → Tables → Text → AppResult (Option Group)
unfolding find_group_by_id find_displayed
find_group_by_display_name services tenant_id t name = elim (find_displayed name t.groups) [
  | none ↦ ok none
  | some row ↦ find_group_by_id services tenant_id t row.id
]

abbrev pub push_some {ℓ} : {A : Type ℓ} → Option A → List A → List A
push_some none xs = xs
push_some (some x) xs = x ∷ xs

-- The loops `for row in rows`, over the identifiers of the rows.
unfoldable pub fetch_each : GroupServices → ℕ → Tables → List Text → AppResult (List Group)
unfolding find_group_by_id
fetch_each services tenant_id t [] = ok []
fetch_each services tenant_id t (id ∷ ids) = find_group_by_id services tenant_id t id >>= λ found.
    fetch_each services tenant_id t ids >>= λ rest. ok (push_some found rest)

-- `INNER JOIN … ON g.id = m.group_id WHERE …`: a group as often as the user is its member.
unfoldable pub group_ids_of_user : Text → List Membership → List GroupRow → List Text
group_ids_of_user user_id ms [] = []
group_ids_of_user user_id ms (row ∷ rows) =
    map (λ (m : Membership). row.id)
      (keep (λ m. in_group row.id m && has_member (codes "User") user_id m) ms)
    ++ group_ids_of_user user_id ms rows

unfoldable pub find_groups_by_user_id : GroupServices → ℕ → Tables → Text → AppResult (List Group)
unfolding fetch_each group_ids_of_user
find_groups_by_user_id services tenant_id t user_id =
    if is_empty user_id || user_id == codes "default_id"
    then ok []
    else fetch_each services tenant_id t (group_ids_of_user user_id t.memberships t.groups)

-- The tables after an operation, with its answer: what follows a commit may fail.
abbrev pub Outcome : Type 0 → Type 0
Outcome A = Tables × AppResult A

-- `r?`, before anything is written
abbrev pub try_at : {A B : Type 0} → Tables → AppResult A → (A → Outcome B) → Outcome B
try_at t (ok a) k = k a
try_at t (err e) k = (t, err e)
try_at t panicked k = (t, panicked)
try_at t out_of_fuel k = (t, out_of_fuel)

abbrev pub created_group : Option Group → AppResult Group
created_group none = err (database (codes "Failed to fetch created group"))
created_group (some group) = ok group

-- `create_group`
unfoldable pub create_group : GroupServices → ℕ → Text → ℕ → Tables → Group → Outcome Group
unfolding find_group_by_id
create_group services now fresh tenant_id t group =
    try_at t (prepare_group_for_insert services now fresh group >>= insert_group services t)
      (λ t'. (t', find_group_by_id services tenant_id t' fresh >>= created_group))

-- `validate_group_id`, the preparation and the transaction of an update
unfoldable pub write_group : GroupServices → ℕ → Tables → Text → Group → AppResult (Option Tables)
write_group services now t id group = validate_group_id id >>= λ checked.
    prepare_group_for_update services now id group >>= λ prep. replace_group services t prep

abbrev pub fetch_written :
    GroupServices → ℕ → Tables → Text → Option Tables → Outcome (Option Group)
fetch_written services tenant_id t id none = (t, ok none)
fetch_written services tenant_id t id (some t') =
    (t', fetch_group_with_members services unless_empty tenant_id t' id)

-- `UnifiedGroupUpdateOps::update_group`
unfoldable pub update_group : GroupServices → ℕ → ℕ → Tables → Text → Group → Outcome (Option Group)
unfolding write_group fetch_group_with_members
update_group services now tenant_id t id group =
    try_at t (write_group services now t id group) (fetch_written services tenant_id t id)

-- `patch_group` of the reader, from the group that it finds
unfoldable pub patch_found_group :
    GroupServices → ℕ → ℕ → Tables → Text → List Operation → Option Group → Outcome (Option Group)
unfolding update_group
patch_found_group services now tenant_id t id os none = (t, ok none)
patch_found_group services now tenant_id t id os (some group) =
    try_at t (patch_all services os group)
      (λ patched. update_group services now tenant_id t id patched)

unfoldable pub patch_group_reader :
    GroupServices → ℕ → ℕ → Tables → Text → List Operation → Outcome (Option Group)
unfolding patch_found_group find_group_by_id
patch_group_reader services now tenant_id t id os =
    if is_empty id
    then (t, ok none)
    else try_at t (find_group_by_id services tenant_id t id)
        (λ found. patch_found_group services now tenant_id t id os found)

-- `patch_group` of the backend: what is answered is read again.
abbrev pub read_again : GroupServices → ℕ → Text → Outcome (Option Group) → Outcome (Option Group)
read_again services tenant_id id (t, ok (some group)) =
    (t, find_group_by_id services tenant_id t id)
read_again services tenant_id id (t, r) = (t, r)

unfoldable pub patch_group :
    GroupServices → ℕ → ℕ → Tables → Text → List Operation → Outcome (Option Group)
unfolding patch_group_reader
patch_group services now tenant_id t id os =
    read_again services tenant_id id (patch_group_reader services now tenant_id t id os)
