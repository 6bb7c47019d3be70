-- ===== src/Group/Handlers/Read.antt =====
-- src/resource/group.rs: `create_group`, `get_group` and the list of a search.
use scim_server.Common.{ℕ, Option, none, some, [], if◌then◌else◌}
use scim_server.Text.{Text, ◌==◌, codes}
use scim_server.Json.{Value}
use scim_server.Error.{AppResult, ok}
use scim_server.Config.{CompatibilityConfig}
use scim_server.Auth.{TenantInfo}
use scim_server.Schema.Lookup.{group_type}
use scim_server.Response.Nulls.{remove_null_fields}
use scim_server.Response.Attributes.{AttributeFilter, from_params, apply_to_resource}
use scim_server.Group.{Group}
use scim_server.Group.Store.{Tables}
use scim_server.Group.Read.{Outcome, find_group_by_id, create_group}
use scim_server.Group.Handlers.{
  HandlerServices, Answer, answered, answered_at, refused, failed, found_or_404, for_response,
  version_of, with_etag, build_resource_location, validate_group_members, unless,
}
use scim_server.Group.Handlers.Payload.{group_of_payload, text_at}

module _ (services : HandlerServices) where
  -- The answer with its headers Location and ETag.
  abbrev pub with_location : Text → Option Text → Value → Answer
  with_location location none body = answered_at location none body
  with_location location (some v) body =
      if services.valid_header v then answered_at location (some v) body else refused 500

  abbrev pub created_body : Text → Option Text → AppResult Value → Answer
  created_body location version (ok v) =
      if services.valid_header location
      then with_location location version (remove_null_fields v)
      else refused 500
  created_body location version r = refused 500

  unfoldable pub respond_created : TenantInfo → CompatibilityConfig → Text → Group → Answer
  unfolding for_response
  respond_created info config now g =
      let shown = for_response services info config now g in
      created_body (build_resource_location info (codes "Groups") shown.id)
        (version_of services shown) (services.groups.to_value shown)

  abbrev pub settled_created : (Group → Answer) → Outcome Group → Tables × Answer
  settled_created k (t, r) = (t, failed k r)

  abbrev pub unless_unnamed : Tables → Option Text → Tables × Answer → Tables × Answer
  unless_unnamed t none next = (t, refused 400)
  unless_unnamed t (some name) next = next

  -- `create_group`; the identifier of the default group is replaced by `fresh`.
  unfoldable pub create_group_of_payload :
      TenantInfo → CompatibilityConfig → ℕ → Text → Text → Tables → Value → Tables × Answer
  unfolding respond_created
  create_group_of_payload info config time now fresh t payload =
      let g = group_of_payload services.others_of [] payload in
      unless_unnamed t (text_at (codes "displayName") payload) (
        unless services t (validate_group_members services info t g.members) (
          settled_created (respond_created info config now)
            (create_group services.groups time fresh info.tenant_id t g)))

  -- "Handle conditional requests (If-None-Match)": the version that the client has already.
  abbrev pub unchanged : Option Text → Option Text → Option Text
  unchanged none version = none
  unchanged (some given) none = none
  unchanged (some given) (some v) = if given == v then some v else none

  abbrev pub filtered_body : AttributeFilter → Option Text → AppResult Value → Answer
  filtered_body filter version (ok v) =
      with_etag services 200 version (apply_to_resource filter v group_type)
  filtered_body filter version r = refused 500

  abbrev pub not_modified : Text → Answer
  not_modified v = answered 304 (if services.valid_header v then some v else none) none

  unfoldable pub respond_read :
      TenantInfo → CompatibilityConfig → Text → AttributeFilter → Option Text → Group → Answer
  unfolding for_response apply_to_resource
  respond_read info config now filter if_none_match g =
      let shown = for_response services info config now g in
      let version = version_of services shown in
      let full = filtered_body filter version (services.groups.to_value shown) in
      elim (unchanged if_none_match version) [ none ↦ full | some v ↦ not_modified v ]

  -- `get_group`, once the identifier is found in the path, with the parameters `attributes` and
  -- `excludedAttributes`.
  unfoldable pub get_group_of_id :
      TenantInfo
      → CompatibilityConfig
      → Text
      → Tables
      → Text
      → Option Text
      → Option Text
      → Option Text
      → Answer
  unfolding respond_read from_params
  get_group_of_id info config now t id attributes excluded if_none_match =
      failed
        (found_or_404 services
          (respond_read info config now (from_params attributes excluded) if_none_match))
        (find_group_by_id services.groups info.tenant_id t id)
