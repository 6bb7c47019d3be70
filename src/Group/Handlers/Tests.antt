-- ===== src/Group/Handlers/Tests.antt =====
-- Requests on groups over HTTP.
use scim_server.User.Store.{find_user_for_patch}
use scim_server.Text.Numbers.{show}
use scim_server.Common.{◌≡◌, refl, true, none, some, [], if◌then◌else◌}
use scim_server.Text.{split, Text, codes}
use scim_server.Json.{get, Value, null, string, object, array, field, end, cons, nil}
use scim_server.Error.{ok}
use scim_server.Config.{default_config}
use scim_server.Auth.{TenantInfo}
use scim_server.Tenant.Tests.{tenant}
use scim_server.Group.Read.{meta_at, find_group_by_id}
use scim_server.Group.Tests.{
  services, users, two_groups, answered_group, staff, given, replaced, answered, updates,
}
use scim_server.Group.Handlers.{Answer, for_response}
use scim_server.Group.Handlers.Search.{search_by_member, groups_of_user, search_refused}
use scim_server.Group.Handlers.Search.ByMember.{members_filter, search_by_member-members_filter}
use scim_server.Response.Attributes.{from_params}
use scim_server.Group.Handlers.Versions.{update_group-stale}
use scim_server.Group.Handlers.Read.{create_group_of_payload, get_group_of_id, respond_read}
use scim_server.Group.Handlers.{
  HandlerServices, refused, replace_group_of_id, patch_group_of_id, delete_group_of_id, version_of,
}
use scim_server.Group.Handlers.Payload.{group_of_payload, extract_resource_id}
use scim_server.Group.Handlers.Laws.{check_if_match-stale}
use scim_server.Group.Handlers.Existing.{Kept, replace_group_of_id-Kept}

abbrev handling : HandlerServices
handling = record {
  users = users;
  groups = services;
  valid_header = λ s. true;
  epoch = λ s. none;
  others_of = λ s. null;
}

abbrev info : TenantInfo
info = record {
  tenant_id = 7;
  tenant_config = tenant 7 (codes "/a");
  base_path = codes "http://x/a/";
}

abbrev member_of_payload : Text → Value
member_of_payload id = object (field (codes "value") (string id) end)

abbrev payload : Text → Value
payload id = object (
    field (codes "displayName") (string (codes "Staff"))
      (field (codes "members") (array (cons (member_of_payload id) nil)) end))

replace_group_of_id-Kept_example :
    Kept two_groups
      (codes "g")
      (replace_group_of_id handling info default_config 2 [] two_groups
        (codes "g")
        none
        (payload (codes "a"))).0
replace_group_of_id-Kept_example =
    replace_group_of_id-Kept handling info default_config 2 [] two_groups (codes "g") none
      (payload (codes "a"))

finds : find_group_by_id services 7 two_groups (codes "g") ≡ ok (some answered_group)
unfolding find_group_by_id
finds = refl

version : version_of handling answered_group ≡ some (codes "W/\"1\"")
unfolding meta_at show
version = refl

check_if_match-stale_example :
    ((replace_group_of_id handling info default_config 2 [] two_groups
        (codes "g")
        (some (codes "W/\"0\""))
        (payload (codes "a"))).0
      ≡ two_groups)
    × (patch_group_of_id handling info default_config 2 [] two_groups
          (codes "g")
          (some (codes "W/\"0\""))
          []
        ≡ (two_groups, refused 412))
    × (delete_group_of_id handling info two_groups (codes "g") (some (codes "W/\"0\""))
        ≡ (two_groups, refused 412))
check_if_match-stale_example =
    check_if_match-stale handling info default_config 2 [] two_groups (codes "g") (codes "W/\"0\"")
      (payload (codes "a")) [] answered_group (codes "W/\"1\"") finds version refl

-- A member that is not there is refused.
no_member :
    replace_group_of_id handling info default_config 2 [] two_groups
      (codes "g")
      none
      (payload (codes "z"))
    ≡ (two_groups, refused 400)
unfolding replace_group_of_id group_of_payload get find_user_for_patch
no_member = refl

identifier : extract_resource_id (codes "/a/Groups/g") ≡ some (codes "g")
unfolding extract_resource_id split
identifier = refl

-- The version 1 that was current before the update is refused after it.
update_group-stale_example :
    ((replace_group_of_id handling info default_config 2 [] replaced
        (codes "g")
        (some (codes "W/\"1\""))
        (payload (codes "a"))).0
      ≡ replaced)
    × (patch_group_of_id handling info default_config 2 [] replaced
          (codes "g")
          (some (codes "W/\"1\""))
          []
        ≡ (replaced, refused 412))
    × (delete_group_of_id handling info replaced (codes "g") (some (codes "W/\"1\""))
        ≡ (replaced, refused 412))
update_group-stale_example =
    update_group-stale handling info default_config 2 [] two_groups (codes "g") (staff given)
      answered_group (codes "W/\"1\"") replaced answered (payload (codes "a")) [] finds version
      updates

-- A group without a name is not created.
no_name :
    create_group_of_payload handling info default_config 2 [] (codes "i") two_groups null
    ≡ (two_groups, refused 400)
unfolding create_group_of_payload get
no_name = refl

-- A group whose version the client has is not sent again.
not_sent :
    get_group_of_id handling info default_config [] two_groups
      (codes "g")
      none
      none
      (some (codes "W/\"1\""))
    ≡ Answer.answered 304 (some (codes "W/\"1\"")) none
unfolding get_group_of_id respond_read for_response find_group_by_id meta_at show
not_sent = refl

search_by_member-members_filter_example :
    search_by_member handling info default_config [] two_groups none
      (from_params none none)
      (members_filter (codes "a"))
    ≡ some (
        if default_config.support_group_members_filter
        then groups_of_user handling info default_config [] two_groups none
            (from_params none none)
            (codes "a")
        else search_refused 400)
search_by_member-members_filter_example =
    search_by_member-members_filter handling info default_config [] two_groups none
      (from_params none none) (codes "a")
