-- ===== src/Group.antt =====
-- Groups and what their operations prepare, src/models.rs and src/backend/database/group_*.rs.
-- `Group::clone` goes through JSON and back; it is taken to return its group.
pub mod Store
pub mod Read
pub mod Pages
pub mod Bounds
pub mod Names
pub mod Members
pub mod Laws
pub mod RoundTrip
pub mod Answers
pub mod Deletions
pub mod Kept
pub mod Reachable
pub mod Handlers
pub mod Tests
use scim_server.Common.{ℕ, Option, none, some, List, [], ◌∷◌, if◌then◌else◌}
use scim_server.Text.{Text, codes, trim}
use scim_server.Json.{Value, Number}
use scim_server.Error.{AppResult, ok, err, bad_request, ◌>>=◌}
use scim_server.Config.{default_config}
use scim_server.Filter.Eval.{NumberCmp}
use scim_server.Password.{is_empty}
use scim_server.Patch.{apply_operation}
use scim_server.Patch.Path.{parse_path}
use scim_server.User.{Meta, Operation, or_default, or_null}

-- `Member` of the crate scim_v2
pub record Member : Type 0 where
  pub value : Option Text
  pub ref_ : Option Text
  pub display : Option Text
  pub type_ : Option Text

-- `Group` of src/models.rs, with the fields that the operations touch; `others` are all the others.
pub record Group : Type 0 where
  pub id : Text
  pub display_name : Text
  pub external_id : Option Text
  pub members : Option (List Member)
  pub meta : Option Meta
  pub others : Value

-- `PreparedGroupData` and `PreparedGroupUpdateData`
pub record PreparedGroup : Type 0 where
  pub group : Group
  pub id : Text
  pub external_id : Option Text
  pub display_name : Text
  pub members : Option (List Member)
  pub data_orig : Value
  pub data_norm : Value
  pub timestamp : ℕ

-- What the operations take from elsewhere: serde with the structs of scim_v2, chrono, sqlx with the
-- messages of its errors, SQLite's `json_extract`, the standard library's `parse::<f64>()`, and
-- `normalize_scim_data`.
pub record GroupServices : Type 0 where
  pub to_value : Group → AppResult Value
  pub from_value : Value → AppResult Group
  pub format_datetime : ℕ → Text
  pub stored_datetime : ℕ → Text
  pub constraint_message : Text
  pub json_extract : Value → Text → Option Text
  pub normalize : Value → Value
  pub compare_numbers : NumberCmp
  pub parse_f64 : Text → Option Number

-- `validate_group_id`, of an update and of a deletion
unfoldable pub validate_group_id : Text → AppResult (Unit {0})
validate_group_id id =
    if is_empty (trim id) then err (bad_request (codes "Group ID cannot be empty")) else ok tt

-- `set_group_metadata` of an insert
abbrev pub new_group_meta : GroupServices → ℕ → Meta
new_group_meta services now = record {
  resource_type = some (codes "Group");
  created = some (services.format_datetime now);
  last_modified = some (services.format_datetime now);
  location = none;
  version = none;
}

-- `set_group_metadata` of an update
abbrev pub touch_group : GroupServices → ℕ → Group → Group
touch_group services now group = record group {
  meta = elim group.meta [
    | none ↦ none
    | some m ↦ some (record m { last_modified = some (services.format_datetime now) })
  ];
}

-- The members are stored apart from the group.
abbrev pub without_members : Group → Group
without_members group = record group { members = none }

-- What both preparations end with.
unfoldable pub prepared_group : GroupServices → ℕ → Text → Group → AppResult PreparedGroup
prepared_group services now id group = services.to_value (without_members group) >>= λ v.
    ok (record {
      group = group;
      id = id;
      external_id = group.external_id;
      display_name = group.display_name;
      members = group.members;
      data_orig = v;
      data_norm = services.normalize v;
      timestamp = now;
    })

-- `fresh` is the UUID that it draws.
unfoldable pub prepare_group_for_insert : GroupServices → ℕ → Text → Group → AppResult PreparedGroup
unfolding prepared_group
prepare_group_for_insert services now fresh group =
    prepared_group services now fresh
      (record group { id = fresh; meta = some (new_group_meta services now) })

unfoldable pub prepare_group_for_update : GroupServices → ℕ → Text → Group → AppResult PreparedGroup
unfolding prepared_group
prepare_group_for_update services now id group =
    prepared_group services now id (touch_group services now (record group { id = id }))

-- One round of the loop of `patch_group` over the operations.
unfoldable pub patch_one : GroupServices → Operation → Group → AppResult Group
patch_one services operation group =
    parse_path services.parse_f64 (or_default operation.path) >>= λ path.
    services.to_value group >>= λ v.
    apply_operation services.compare_numbers default_config path v operation.op
      (or_null operation.value)
    >>= λ w. services.from_value w

unfoldable pub patch_all : GroupServices → List Operation → Group → AppResult Group
unfolding patch_one
patch_all services [] group = ok group
patch_all services (o ∷ os) group =
    patch_one services o group >>= λ group'. patch_all services os group'
