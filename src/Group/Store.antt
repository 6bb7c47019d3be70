-- ===== src/Group/Store.antt =====
-- src/backend/database/sqlite/group_*_impl.rs and user_delete_impl.rs: the tables of a tenant, and
-- what is written to them. A transaction that does not commit leaves the tables. Rows stand in the
-- order in which they were made, which `created_at` orders them by.
use scim_server.Common.{
  ℕ, ◌+◌, Bool, false, not, ◌&&◌, ◌||◌, Option, none, some, List, [], ◌∷◌, ◌++◌, map, if◌then◌else◌,
  any, keep,
}
use scim_server.Text.{Text, ◌==◌, codes}
use scim_server.Json.{Value}
use scim_server.Error.{AppResult, ok, err, bad_request, conflict, database, ◌>>=◌}
use scim_server.User.Store.{Row, lower, delete_user}
use scim_server.Group.{Member, PreparedGroup, GroupServices, validate_group_id}

pub record GroupRow : Type 0 where
  pub id : Text
  pub display_name : Text
  pub external_id : Option Text
  pub data_orig : Value
  pub data_norm : Value
  pub version : ℕ
  pub created_at : ℕ
  pub updated_at : ℕ

-- A row of the table of memberships, without its own identifier and time.
pub record Membership : Type 0 where
  pub group_id : Text
  pub member_id : Text
  pub member_type : Text

pub record Tables : Type 0 where
  pub users : List Row
  pub groups : List GroupRow
  pub memberships : List Membership

abbrev pub is_group : Text → GroupRow → Bool
is_group id row = row.id == id

-- `LOWER(display_name) = LOWER(?1)`
abbrev pub displayed : Text → GroupRow → Bool
displayed name row = lower row.display_name == lower name

abbrev pub external_is : Option Text → GroupRow → Bool
external_is none row = false
external_is (some e) row = elim row.external_id [ none ↦ false | some f ↦ f == e ]

-- `CHECK (member_type IN ('User', 'Group'))`
abbrev pub is_member_type : Text → Bool
is_member_type t = t == codes "User" || t == codes "Group"

abbrev pub same_membership : Membership → Membership → Bool
same_membership m n =
    m.group_id == n.group_id && m.member_id == n.member_id && m.member_type == n.member_type

abbrev pub member_type_of : Member → Text
member_type_of m = elim m.type_ [ none ↦ codes "User" | some t ↦ t ]

-- The INSERT of one membership, with the constraints of the table. The group is there, which the
-- foreign key asks for.
unfoldable pub insert_membership :
    GroupServices → Membership → List Membership → AppResult (List Membership)
insert_membership services m ms =
    if not (is_member_type m.member_type) || any (same_membership m) ms
    then err (database (codes "Failed to insert group member: " ++ services.constraint_message))
    else ok (ms ++ m ∷ [])

-- The loop over the members, of an insert and of an update.
unfoldable pub insert_members :
    GroupServices → Text → List Member → List Membership → AppResult (List Membership)
unfolding insert_membership
insert_members services id [] ms = ok ms
insert_members services id (m ∷ members) ms = elim m.value [
  | none ↦ insert_members services id members ms
  | some member_id ↦
      insert_membership services
        (record { group_id = id; member_id = member_id; member_type = member_type_of m }) ms
      >>= λ ms'. insert_members services id members ms'
]

abbrev pub insert_all :
    GroupServices → Text → Option (List Member) → List Membership → AppResult (List Membership)
insert_all services id none ms = ok ms
insert_all services id (some members) ms = insert_members services id members ms

abbrev pub new_row : PreparedGroup → GroupRow
new_row prep = record {
  id = prep.id;
  display_name = prep.display_name;
  external_id = prep.external_id;
  data_orig = prep.data_orig;
  data_norm = prep.data_norm;
  version = 1;
  created_at = prep.timestamp;
  updated_at = prep.timestamp;
}

-- `execute_group_insert` up to its commit. Names are checked first, so that of the unique columns
-- only the identifier and the external identifier can fail.
unfoldable pub insert_group : GroupServices → Tables → PreparedGroup → AppResult Tables
unfolding insert_members
insert_group services t prep =
    if any (displayed prep.display_name) t.groups
    then err (conflict (codes "Group with this displayName already exists"))
    else if any (is_group prep.id) t.groups
    then err (conflict (codes "Resource already exists"))
    else if any (external_is prep.external_id) t.groups
    then err (conflict (codes "User with this externalId already exists"))
    else insert_all services prep.id prep.members t.memberships >>= λ ms.
        ok (record t { groups = t.groups ++ new_row prep ∷ []; memberships = ms })

abbrev pub another_group : Text → (GroupRow → Bool) → GroupRow → Bool
another_group id p row = p row && not (is_group id row)

unfoldable pub changed_row : PreparedGroup → GroupRow → GroupRow
changed_row prep row =
    if is_group prep.id row
    then record row {
      display_name = prep.display_name;
      external_id = prep.external_id;
      data_orig = prep.data_orig;
      data_norm = prep.data_norm;
      version = row.version + 1;
      updated_at = prep.timestamp;
    }
    else row

abbrev pub in_group : Text → Membership → Bool
in_group id m = m.group_id == id

-- `member_id = ?1 AND member_type = …`
abbrev pub has_member : Text → Text → Membership → Bool
has_member kind id m = m.member_id == id && m.member_type == kind

-- `execute_group_update` up to its commit, or `none` where there is no such group.
unfoldable pub replace_group : GroupServices → Tables → PreparedGroup → AppResult (Option Tables)
unfolding insert_members changed_row
replace_group services t prep =
    if any (another_group prep.id (displayed prep.display_name)) t.groups
    then err (bad_request (codes "Group already exists"))
    else if not (any (is_group prep.id) t.groups)
    then ok none
    else if any (another_group prep.id (external_is prep.external_id)) t.groups
    then err (bad_request (codes "A group with this external ID already exists"))
    else insert_all services prep.id prep.members
        (keep (λ m. not (in_group prep.id m)) t.memberships)
      >>= λ ms. ok (some (record t { groups = map (changed_row prep) t.groups; memberships = ms }))

-- `execute_group_delete`
unfoldable pub execute_group_delete : Tables → Text → Tables × Bool
execute_group_delete t id = (
  record t {
    groups = keep (λ row. not (is_group id row)) t.groups;
    memberships =
        keep (λ m. not (has_member (codes "Group") id m))
          (keep (λ m. not (in_group id m)) t.memberships);
  },
  any (is_group id) t.groups,
)

-- `UnifiedGroupDeleteOps::delete_group`
unfoldable pub delete_group : Tables → Text → AppResult (Tables × Bool)
unfolding execute_group_delete
delete_group t id = validate_group_id id >>= λ checked. ok (execute_group_delete t id)

-- `delete_user` on all tables: `execute_user_delete` takes the user from the groups first.
unfoldable pub delete_user_everywhere : Tables → Text → AppResult (Tables × Bool)
delete_user_everywhere t id = delete_user t.users id >>= λ (r : List Row × Bool). ok (
  record t {
    users = r.0;
    memberships = keep (λ m. not (has_member (codes "User") id m)) t.memberships;
  },
  r.1,
)
