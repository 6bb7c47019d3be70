-- ===== src/Group/Handlers/Search.antt =====
-- src/resource/group.rs: `search_groups`, for a filter on members and for no filter and no sort order.
pub mod ByMember
use scim_server.Common.{
  ℕ, suc, ◌+◌, ◌-◌, ◌≡◌, refl, sym, ap, ◌∙◌, Bool, true, false, not, ◌&&◌, Option, none, some, List,
  [], ◌∷◌, ◌++◌, map, length, take, drop, ℤ, leb, if◌then◌else◌, arith,
}
use scim_server.Text.{Text, codes, starts_with, ends_with, find, rfind}
use scim_server.Json.{Value, null}
use scim_server.Error.{AppResult, ok, err, panicked, out_of_fuel, status_code}
use scim_server.Config.{CompatibilityConfig}
use scim_server.Auth.{TenantInfo}
use scim_server.Schema.Lookup.{group_type}
use scim_server.Response.Attributes.{AttributeFilter, apply_to_resource}
use scim_server.Group.{Group}
use scim_server.Group.Store.{Tables}
use scim_server.Group.Read.{find_groups_by_user_id}
use scim_server.Group.Pages.{find_all_groups, unwrap_or}
use scim_server.Group.Handlers.{HandlerServices, for_response}

pub record ListResponse : Type 0 where
  pub total_results : ℕ
  pub start_index : ℤ
  pub items_per_page : ℕ
  pub resources : List Value

pub data SearchAnswer : Type 0 where
  listed : ListResponse → SearchAnswer
  search_refused : ℕ → SearchAnswer
  search_crashed : SearchAnswer

-- `&filter_str[start_quote + 1..end_quote]`
abbrev pub between : ℕ → ℕ → Text → Text
between start_quote end_quote s = take (end_quote - suc start_quote) (drop (suc start_quote) s)

-- The user's identifier in the filter; none is the answer 400.
abbrev pub between_quotes : Option ℕ → Option ℕ → Text → Option Text
between_quotes none o s = none
between_quotes (some i) none s = none
between_quotes (some i) (some j) s = if leb j i then none else some (between i j s)

unfoldable pub user_id_of_filter : Text → Option Text
user_id_of_filter s = between_quotes (find b'"' s) (rfind b'"' s) s

abbrev pub is_members_filter : Text → Bool
is_members_filter s = starts_with s (codes "members[value eq ") && ends_with s (codes "]")

module _ (services : HandlerServices) where
  -- `serde_json::to_value(&group).unwrap_or_default()`
  abbrev pub value_or_null : AppResult Value → Value
  value_or_null (ok v) = v
  value_or_null r = null

  unfoldable pub create_filtered_group_list_response :
      List Group → ℕ → Option ℤ → AttributeFilter → ListResponse
  create_filtered_group_list_response groups total start_index filter =
      let resources =
        map (λ g. apply_to_resource filter (value_or_null (services.groups.to_value g)) group_type)
          groups in
      record {
        total_results = total;
        start_index = unwrap_or (ℤ.pos 1) start_index;
        items_per_page = length resources;
        resources = resources;
      }

  abbrev pub listed_all :
      TenantInfo
      → CompatibilityConfig
      → Text
      → Option ℤ
      → AttributeFilter
      → List Group
      → ℕ
      → SearchAnswer
  listed_all info config now start_index filter groups total = listed (
      create_filtered_group_list_response (map (for_response services info config now) groups) total
        start_index filter)

  abbrev pub searched {ℓ} : {A : Type ℓ} → (A → SearchAnswer) → AppResult A → SearchAnswer
  searched k (ok a) = k a
  searched k (err e) = search_refused (status_code e)
  searched k panicked = search_crashed
  searched k out_of_fuel = search_crashed

  -- "Get groups by user"
  unfoldable pub groups_of_user :
      TenantInfo
      → CompatibilityConfig
      → Text
      → Tables
      → Option ℤ
      → AttributeFilter
      → Text
      → SearchAnswer
  unfolding create_filtered_group_list_response for_response
  groups_of_user info config now t start_index filter user_id =
      searched (λ groups. listed_all info config now start_index filter groups (length groups))
        (find_groups_by_user_id services.groups info.tenant_id t user_id)

  abbrev pub unless_invalid : Option Text → (Text → SearchAnswer) → SearchAnswer
  unless_invalid none k = search_refused 400
  unless_invalid (some user_id) k = k user_id

  -- "Handle filter for user membership", or none at another filter.
  unfoldable pub search_by_member :
      TenantInfo
      → CompatibilityConfig
      → Text
      → Tables
      → Option ℤ
      → AttributeFilter
      → Text
      → Option SearchAnswer
  unfolding groups_of_user user_id_of_filter
  search_by_member info config now t start_index filter s =
      let found =
        unless_invalid (user_id_of_filter s)
          (groups_of_user info config now t start_index filter) in
      if not (is_members_filter s)
      then none
      else if not config.support_group_members_filter
      then some (search_refused 400)
      else some found

  -- "Default behavior: get all groups paginated", without a sort order
  unfoldable pub search_all :
      TenantInfo
      → CompatibilityConfig
      → Text
      → Tables
      → Option ℤ
      → Option ℤ
      → AttributeFilter
      → SearchAnswer
  unfolding create_filtered_group_list_response for_response
  search_all info config now t start_index count filter =
      searched (λ found. listed_all info config now start_index filter found.0 found.1)
        (find_all_groups services.groups info.tenant_id t start_index count)
