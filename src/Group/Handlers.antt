-- ===== src/Group/Handlers.antt =====
-- src/resource/group.rs: what the handlers of groups answer, and the tables that they leave. Of a
-- refusal only the status is kept.
pub mod Payload
pub mod Laws
pub mod Existing
pub mod Versions
pub mod Read
pub mod Search
mod Tests
use scim_server.Common.{
  ℕ, Bool, true, false, not, ◌&&◌, ◌||◌, Option, none, some, List, [], ◌∷◌, ◌++◌, map, length,
  if◌then◌else◌,
}
use scim_server.Text.{Text, ◌==◌, codes, starts_with}
use scim_server.Text.Numbers.{show}
use scim_server.Json.{Value}
use scim_server.Error.{AppResult, AppError, ok, err, panicked, out_of_fuel, status_code}
use scim_server.Config.{CompatibilityConfig}
use scim_server.Host.{trim_end_char}
use scim_server.Auth.{TenantInfo}
use scim_server.Response.Nulls.{remove_null_fields}
use scim_server.User.{Meta, User, Services, Operation}
use scim_server.User.Store.{Row, find_user_for_patch}
use scim_server.Group.{Group, Member, GroupServices}
use scim_server.Group.Store.{Tables, member_type_of, delete_group}
use scim_server.Group.Read.{Outcome, find_group_by_id, update_group, patch_group}
use scim_server.Group.Handlers.Payload.{group_of_payload, extract_resource_id, without}

-- What the handlers take from elsewhere, next to the backend's: `HeaderValue::from_str` as a test, the
-- epoch of a date (chrono), and the other fields of a default group with those schemas.
pub record HandlerServices : Type 0 where
  pub users : Services
  pub groups : GroupServices
  pub valid_header : Text → Bool
  pub epoch : Text → Option Text
  pub others_of : Option (List Text) → Value

-- Status, ETag and body; location, ETag and body of what is created; a status of an error; a panic.
pub data Answer : Type 0 where
  answered : ℕ → Option Text → Option Value → Answer
  answered_at : Text → Option Text → Value → Answer
  refused : ℕ → Answer
  crashed : Answer

abbrev pub failed {ℓ} : {A : Type ℓ} → (A → Answer) → AppResult A → Answer
failed k (ok a) = k a
failed k (err e) = refused (status_code e)
failed k panicked = crashed
failed k out_of_fuel = crashed

-- `build_resource_location`
abbrev pub build_resource_location : TenantInfo → Text → Text → Text
build_resource_location info kind id =
    trim_end_char b'/' info.base_path ++ (b'/' ∷ (kind ++ (b'/' ∷ id)))

unfoldable pub set_group_location : TenantInfo → Text → Group → Group
set_group_location info now group = record group {
  meta = elim group.meta [
    | none ↦ some (record {
      resource_type = some (codes "Group");
      created = some now;
      last_modified = some now;
      location = some (build_resource_location info (codes "Groups") group.id);
      version = none;
    })
    | some m ↦
        some (record m { location = some (build_resource_location info (codes "Groups") group.id) })
  ];
}

abbrev pub tenant_prefix : TenantInfo → Text
tenant_prefix info = codes "/" ++ (show info.tenant_id ++ codes "/")

unfoldable pub fix_ref : TenantInfo → Text → Text
unfolding without
fix_ref info ref_ =
    if starts_with ref_ (tenant_prefix info)
    then trim_end_char b'/' info.base_path
      ++ (b'/' ∷ without (length ref_) (tenant_prefix info) ref_)
    else ref_

abbrev pub fix_some : TenantInfo → Option Text → Option Text
fix_some info none = none
fix_some info (some r) = some (fix_ref info r)

abbrev pub fix_members : TenantInfo → Option (List Member) → Option (List Member)
fix_members info none = none
fix_members info (some ms) =
    some (map (λ (m : Member). record m { ref_ = fix_some info m.ref_ }) ms)

abbrev pub fix_meta : TenantInfo → Option Meta → Option Meta
fix_meta info none = none
fix_meta info (some m) = some (record m { location = fix_some info m.location })

unfoldable pub fix_group_refs : TenantInfo → Group → Group
unfolding fix_ref
fix_group_refs info group = record group {
  meta = fix_meta info group.meta;
  members = fix_members info group.members;
}

module _ (services : HandlerServices) where
  abbrev pub epoch_or_same : Option Text → Option Text
  epoch_or_same none = none
  epoch_or_same (some s) = elim (services.epoch s) [ none ↦ some s | some e ↦ some e ]

  abbrev pub epoch_meta : Option Meta → Option Meta
  epoch_meta none = none
  epoch_meta (some m) = some (record m {
    created = epoch_or_same m.created;
    last_modified = epoch_or_same m.last_modified;
  })

  unfoldable pub convert_group_datetime_for_response : Text → Group → Group
  convert_group_datetime_for_response format group =
      if format == codes "epoch" then record group { meta = epoch_meta group.meta } else group

  abbrev pub shown_members : Bool → Option (List Member) → Option (List Member)
  shown_members true none = some []
  shown_members true (some ms) = some ms
  shown_members false none = none
  shown_members false (some []) = none
  shown_members false (some (m ∷ ms)) = some (m ∷ ms)

  unfoldable pub handle_group_empty_members_for_response : Bool → Group → Group
  handle_group_empty_members_for_response shows group = record group {
    members = shown_members shows group.members;
  }

  -- A group as it is answered; `now` is the current time as a text.
  unfoldable pub for_response : TenantInfo → CompatibilityConfig → Text → Group → Group
  unfolding set_group_location fix_group_refs convert_group_datetime_for_response
      handle_group_empty_members_for_response
  for_response info config now group =
      handle_group_empty_members_for_response config.show_empty_groups_members (
        convert_group_datetime_for_response config.meta_datetime_format
          (fix_group_refs info (set_group_location info now group)))

  abbrev pub version_of : Group → Option Text
  version_of group = elim group.meta [ none ↦ none | some m ↦ m.version ]

  -- The answer with its ETag.
  abbrev pub with_etag : ℕ → Option Text → Value → Answer
  with_etag status none body = answered status none (some body)
  with_etag status (some v) body =
      if services.valid_header v then answered status (some v) (some body) else refused 500

  abbrev pub body_of : ℕ → Option Text → AppResult Value → Answer
  body_of status version (ok v) = with_etag status version (remove_null_fields v)
  body_of status version r = refused 500

  unfoldable pub respond : TenantInfo → CompatibilityConfig → Text → Group → Answer
  unfolding for_response
  respond info config now group =
      let shown = for_response info config now group in
      body_of 200 (version_of shown) (services.groups.to_value shown)

  -- `Ok(Some(_)) => continue`, or what is answered.
  abbrev pub unless_found {ℓ} : {A : Type ℓ} → AppResult (Option A) → Option Answer
  unless_found (ok (some a)) = none
  unless_found (ok none) = some (refused 400)
  unless_found r = some (refused 500)

  -- `find_user_by_id` without the groups fails and finds where `find_user_for_patch` does.
  unfoldable pub validate_member : TenantInfo → Tables → Text → Text → Option Answer
  validate_member info t id kind =
      if kind == codes "User"
      then unless_found (find_user_for_patch services.users t.users id)
      else if kind == codes "Group"
      then unless_found (find_group_by_id services.groups info.tenant_id t id)
      else some (refused 400)

  unfoldable pub validate_members : TenantInfo → Tables → List Member → Option Answer
  unfolding validate_member
  validate_members info t [] = none
  validate_members info t (m ∷ ms) =
      let rest = validate_members info t ms in
      elim m.value [
        | none ↦ rest
        | some id ↦ elim (validate_member info t id (member_type_of m)) [
          | some a ↦ some a
          | none ↦ rest
        ]
      ]

  abbrev pub validate_group_members : TenantInfo → Tables → Option (List Member) → Option Answer
  validate_group_members info t none = none
  validate_group_members info t (some ms) = validate_members info t ms

  abbrev pub compare_version : Text → Option Text → Option Answer
  compare_version given none = none
  compare_version given (some v) = if given == v then none else some (refused 412)

  abbrev pub check_found : Text → AppResult (Option Group) → Option Answer
  check_found given (ok (some group)) = compare_version given (version_of group)
  check_found given (ok none) = some (refused 404)
  check_found given (err e) = some (refused (status_code e))
  check_found given r = some crashed

  -- "Handle conditional requests (If-Match)": an early answer, or none.
  unfoldable pub check_if_match : TenantInfo → Tables → Text → Option Text → Option Answer
  check_if_match info t id none = none
  check_if_match info t id (some given) =
      check_found given (find_group_by_id services.groups info.tenant_id t id)

  abbrev pub unless : Tables → Option Answer → Tables × Answer → Tables × Answer
  unless t none next = next
  unless t (some a) next = (t, a)

  abbrev pub found_or_404 : (Group → Answer) → Option Group → Answer
  found_or_404 k none = refused 404
  found_or_404 k (some group) = k group

  abbrev pub settled : (Group → Answer) → Outcome (Option Group) → Tables × Answer
  settled k (t, r) = (t, failed (found_or_404 k) r)

  -- `update_group`, once the identifier is found in the path
  unfoldable pub replace_group_of_id :
      TenantInfo
      → CompatibilityConfig
      → ℕ
      → Text
      → Tables
      → Text
      → Option Text
      → Value
      → Tables × Answer
  unfolding respond validate_members check_if_match
  replace_group_of_id info config time now t id if_match payload =
      let group = group_of_payload services.others_of id payload in
      unless t (validate_group_members info t group.members) (
        unless t (check_if_match info t id if_match) (
          settled (respond info config now)
            (update_group services.groups time info.tenant_id t id group)))

  -- `patch_group`, once the identifier is found in the path
  unfoldable pub patch_group_of_id :
      TenantInfo
      → CompatibilityConfig
      → ℕ
      → Text
      → Tables
      → Text
      → Option Text
      → List Operation
      → Tables × Answer
  unfolding respond check_if_match
  patch_group_of_id info config time now t id if_match os =
      unless t (check_if_match info t id if_match) (
        settled (respond info config now) (patch_group services.groups time info.tenant_id t id os))

  abbrev pub deleted : Tables → AppResult (Tables × Bool) → Tables × Answer
  deleted t (ok (t', true)) = (t', answered 204 none none)
  deleted t (ok (t', false)) = (t', refused 404)
  deleted t (err e) = (t, refused (status_code e))
  deleted t r = (t, crashed)

  -- `delete_group`, once the identifier is found in the path
  unfoldable pub delete_group_of_id : TenantInfo → Tables → Text → Option Text → Tables × Answer
  unfolding check_if_match
  delete_group_of_id info t id if_match =
      unless t (check_if_match info t id if_match) (deleted t (delete_group t id))

  -- The head of each handler.
  unfoldable pub with_id : Tables → Text → (Text → Tables × Answer) → Tables × Answer
  unfolding extract_resource_id
  with_id t path handle = elim (extract_resource_id path) [
    | none ↦ (t, refused 400)
    | some id ↦ handle id
  ]
