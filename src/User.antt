-- ===== src/User.antt =====
-- The operations on users, src/backend/database/user_*.rs with their SQLite adapters. `User::clone`
-- goes through JSON and back; it is taken to return its user.
pub mod Store
pub mod Laws
pub mod Reachable
pub mod Answers
pub mod Rows
pub mod Hashes
pub mod Passwords
mod Tests
use scim_server.Common.{ℕ, Bool, true, false, Option, none, some, List, [], ◌∷◌, if◌then◌else◌}
use scim_server.Text.{Text, ◌==◌, codes, trim}
use scim_server.Json.{Value, null}
use scim_server.Error.{AppResult, ok, err, bad_request, ◌>>=◌}
use scim_server.Config.{CompatibilityConfig}
use scim_server.Filter.Eval.{NumberCmp}
use scim_server.Json.{Number}
use scim_server.Password.{Crypto, is_empty, hash_password, is_hashed_password}
use scim_server.Patch.{apply_operation}
use scim_server.Patch.Path.{parse_path}

-- `Meta` of the crate scim_v2
pub record Meta : Type 0 where
  pub resource_type : Option Text
  pub created : Option Text
  pub last_modified : Option Text
  pub location : Option Text
  pub version : Option Text

-- `User` of src/models.rs, with the fields that the operations touch; `others` are all the others.
pub record User : Type 0 where
  pub user_name : Text
  pub id : Option Text
  pub external_id : Option Text
  pub password : Option Text
  pub meta : Option Meta
  pub others : Value

-- `PreparedUserData`, `PreparedUserUpdateData` and `PreparedUserPatchData`
pub record Prepared : Type 0 where
  pub user : User
  pub id : Text
  pub username : Text
  pub external_id : Option Text
  pub data_orig : Value
  pub data_norm : Value
  pub timestamp : ℕ

-- What the operations take from elsewhere: serde with the structs of scim_v2, chrono, the standard
-- library's `to_lowercase` and `parse::<f64>()`, and `normalize_scim_data`.
pub record Services : Type 0 where
  pub crypto : Crypto
  pub to_value : User → AppResult Value
  pub from_value : Value → AppResult User
  pub format_datetime : ℕ → Text
  pub to_lowercase : Text → Text
  pub normalize : Value → Value
  pub compare_numbers : NumberCmp
  pub parse_f64 : Text → Option Number

unfoldable pub validate_user_id : Text → AppResult (Unit {0})
validate_user_id id =
    if is_empty (trim id) then err (bad_request (codes "User ID cannot be empty")) else ok tt

-- `finalize_user_response` of an update and of a patch
unfoldable pub without_password : User → User
without_password user = record user { password = none }

-- `finalize_user_response` of an insert
unfoldable pub finalize_inserted : User → User
finalize_inserted user = record user {
  password = none;
  meta = elim user.meta [
    | none ↦ none
    | some m ↦ some (record m { version = some (codes "W/\"1\"") })
  ];
}

-- `process_password_for_storage` of an update and of a patch
unfoldable pub hash_always : Services → User → AppResult User
hash_always services user = elim user.password [
  | none ↦ ok user
  | some p ↦
      hash_password services.crypto p >>= λ hashed. ok (record user { password = some hashed })
]

-- `process_password_for_storage` of an insert
unfoldable pub hash_unless_hashed : Services → User → AppResult User
unfolding hash_always
hash_unless_hashed services user = elim user.password [
  | none ↦ ok user
  | some p ↦
      let hashed = hash_always services user in
      if is_hashed_password services.crypto p then ok user else hashed
]

-- `set_user_metadata` of an update and of a patch
abbrev pub touch : Services → ℕ → User → User
touch services now user = record user {
  meta = elim user.meta [
    | none ↦ none
    | some m ↦ some (record m { last_modified = some (services.format_datetime now) })
  ];
}

-- `set_user_metadata` of an insert
abbrev pub new_meta : Services → ℕ → Meta
new_meta services now = record {
  resource_type = some (codes "User");
  created = some (services.format_datetime now);
  last_modified = some (services.format_datetime now);
  location = none;
  version = none;
}

abbrev pub prepared : Services → ℕ → Text → User → AppResult Prepared
prepared services now id user = services.to_value user >>= λ v. ok (record {
  user = user;
  id = id;
  username = services.to_lowercase user.user_name;
  external_id = user.external_id;
  data_orig = v;
  data_norm = services.normalize v;
  timestamp = now;
})

-- `prepare_user_for_update` and `prepare_user_for_patch`
unfoldable pub prepare_user : Services → ℕ → Text → User → AppResult Prepared
unfolding hash_always
prepare_user services now id user = hash_always services user >>= λ hashed.
    prepared services now id (touch services now (record hashed { id = some id }))

-- `prepare_user_for_insert`; `fresh` is the UUID that it draws.
unfoldable pub prepare_user_for_insert : Services → ℕ → Text → User → AppResult Prepared
unfolding hash_unless_hashed
prepare_user_for_insert services now fresh user =
    hash_unless_hashed services (record user { id = some fresh }) >>= λ hashed.
    prepared services now fresh (record hashed { meta = some (new_meta services now) })

-- `ScimPatchOp` is a list of these.
pub record Operation : Type 0 where
  pub op : Text
  pub path : Option Text
  pub value : Option Value

abbrev pub or_default : Option Text → Text
or_default none = []
or_default (some s) = s

abbrev pub or_null : Option Value → Value
or_null none = null
or_null (some v) = v

-- One round of the loop over the operations.
unfoldable pub apply_one : Services → CompatibilityConfig → Operation → User → AppResult User
apply_one services config operation user =
    parse_path services.parse_f64 (or_default operation.path) >>= λ path.
    services.to_value user >>= λ v.
    apply_operation services.compare_numbers config path v operation.op (or_null operation.value)
    >>= λ w. services.from_value w

unfoldable pub apply_all : Services → CompatibilityConfig → List Operation → User → AppResult User
unfolding apply_one
apply_all services config [] user = ok user
apply_all services config (o ∷ os) user =
    apply_one services config o user >>= λ user'. apply_all services config os user'
