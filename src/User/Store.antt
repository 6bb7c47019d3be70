-- ===== src/User/Store.antt =====
-- src/backend/database/sqlite/user_*_impl.rs: the users' table of a tenant, and the operations on it.
-- A column of JSON text is the value that the text stands for. The table of memberships, from which a
-- deleted user is taken as well, is left out.
use scim_server.Common.{
  ℕ, ◌+◌, Bool, false, not, ◌&&◌, Option, none, some, List, [], ◌∷◌, map, if◌then◌else◌, any, keep,
}
use scim_server.Text.{Text, ◌==◌, codes, ascii_lower}
use scim_server.Json.{Value}
use scim_server.Error.{AppResult, ok, err, bad_request, conflict, ◌>>=◌}
use scim_server.Config.{CompatibilityConfig}
use scim_server.User.{
  User, Prepared, Services, Operation, validate_user_id, without_password, finalize_inserted,
  prepare_user, prepare_user_for_insert, apply_all,
}

pub record Row : Type 0 where
  pub id : Text
  pub username : Text
  pub external_id : Option Text
  pub data_orig : Value
  pub data_norm : Value
  pub version : ℕ
  pub created_at : ℕ
  pub updated_at : ℕ

-- `LOWER` of SQLite changes the ASCII letters.
abbrev pub lower : Text → Text
lower s = map ascii_lower s

abbrev pub named : Text → Row → Bool
named username row = lower row.username == lower username

abbrev pub has_id : Text → Row → Bool
has_id id row = row.id == id

abbrev pub same_external : Option Text → Row → Bool
same_external none row = false
same_external (some e) row = elim row.external_id [ none ↦ false | some f ↦ f == e ]

-- The INSERT, with the failures of the unique columns. Names are checked first, so that of these only
-- the identifier and the external identifier can fail.
unfoldable pub execute_user_insert : List Row → Prepared → AppResult (List Row × User)
execute_user_insert rows prep =
    if any (named prep.username) rows
    then err (conflict (codes "User with this userName already exists"))
    else if any (has_id prep.id) rows
    then err (conflict (codes "Resource already exists"))
    else if any (same_external prep.external_id) rows
    then err (conflict (codes "User with this externalId already exists"))
    else ok (
      record {
        id = prep.id;
        username = prep.username;
        external_id = prep.external_id;
        data_orig = prep.data_orig;
        data_norm = prep.data_norm;
        version = 1;
        created_at = prep.timestamp;
        updated_at = prep.timestamp;
      }
          ∷ rows,
      finalize_inserted prep.user,
    )

-- The UPDATE of one row.
unfoldable pub updated : Prepared → Row → Row
updated prep row = record row {
  username = prep.username;
  external_id = prep.external_id;
  data_orig = prep.data_orig;
  data_norm = prep.data_norm;
  version = row.version + 1;
  updated_at = prep.timestamp;
}

abbrev pub update_row : Prepared → Row → Row
update_row prep row = if has_id prep.id row then updated prep row else row

abbrev pub another : Text → (Row → Bool) → Row → Bool
another id p row = p row && not (has_id id row)

-- `execute_user_update` and `execute_user_patch`
unfoldable pub execute_user_update : List Row → Prepared → AppResult (List Row × Option User)
unfolding updated
execute_user_update rows prep =
    if any (another prep.id (named prep.username)) rows
    then err (bad_request (codes "User already exists"))
    else if not (any (has_id prep.id) rows)
    then ok (rows, none)
    else if any (another prep.id (same_external prep.external_id)) rows
    then err (bad_request (codes "A user with this external ID already exists"))
    else ok (map (update_row prep) rows, some prep.user)

unfoldable pub find_row : Text → List Row → Option Row
find_row id [] = none
find_row id (row ∷ rows) = let rest = find_row id rows in if has_id id row then some row else rest

-- `find_user_for_patch`
unfoldable pub find_user_for_patch : Services → List Row → Text → AppResult (Option User)
unfolding find_row
find_user_for_patch services rows id = elim (find_row id rows) [
  | none ↦ ok none
  | some row ↦ services.from_value row.data_orig >>= λ user.
      ok (some (record user { id = some row.id; password = none }))
]

abbrev pub finalized : List Row × Option User → List Row × Option User
finalized (rows, none) = (rows, none)
finalized (rows, some user) = (rows, some (without_password user))

-- `create_user`
unfoldable pub create_user : Services → ℕ → Text → List Row → User → AppResult (List Row × User)
unfolding execute_user_insert
create_user services now fresh rows user =
    prepare_user_for_insert services now fresh user >>= λ prep.
    execute_user_insert rows prep >>= λ (r : List Row × User). ok (r.0, finalize_inserted r.1)

-- `update_user`
unfoldable pub update_user :
    Services → ℕ → List Row → Text → User → AppResult (List Row × Option User)
unfolding execute_user_update
update_user services now rows id user = validate_user_id id >>= λ checked.
    prepare_user services now id user >>= λ prep.
    execute_user_update rows prep >>= λ r. ok (finalized r)

-- `patch_user`, of `UnifiedUserPatchOps`
unfoldable pub patch_found :
    Services
    → CompatibilityConfig
    → ℕ
    → List Row
    → Text
    → List Operation
    → Option User
    → AppResult (List Row × Option User)
unfolding execute_user_update
patch_found services config now rows id os none = ok (rows, none)
patch_found services config now rows id os (some user) =
    apply_all services config os user >>= λ patched.
    prepare_user services now id patched >>= λ prep.
    execute_user_update rows prep >>= λ r. ok (finalized r)

unfoldable pub patch_user :
    Services
    → CompatibilityConfig
    → ℕ
    → List Row
    → Text
    → List Operation
    → AppResult (List Row × Option User)
unfolding patch_found find_user_for_patch
patch_user services config now rows id os = validate_user_id id >>= λ checked.
    find_user_for_patch services rows id >>= λ found.
    patch_found services config now rows id os found

-- `delete_user` on the users' table
unfoldable pub delete_user : List Row → Text → AppResult (List Row × Bool)
delete_user rows id = validate_user_id id >>= λ checked.
    ok (keep (λ row. not (has_id id row)) rows, any (has_id id) rows)
