-- ===== src/Response/Attributes/Tests.antt =====
-- Attribute filters, run on a user with a password and the enterprise extension.
use scim_server.Common.{◌≡◌, refl, true, false, none, some, [], ◌∷◌}
use scim_server.Text.{Text, codes, split, trim, starts_with, ascii_lower}
use scim_server.Json.{Fields, string, array, object, nil, cons, end, field, get, get_key}
use scim_server.Schema.Definitions.{find_attribute}
use scim_server.Schema.Definitions.Contacts
use scim_server.Schema.Lookup.{
  user_type, any_require_external_table_access, requires_external_table_access,
}
use scim_server.Response.Nulls.{remove_null_fields, shows_empty}
use scim_server.Response.Attributes.{
  from_params, names_of, apply_to_resource, should_fetch_external_attributes,
}
use scim_server.Response.Attributes.Laws.{
  only, without, apply_to_resource-excluded, apply_to_resource-id,
}
use scim_server.Response.Attributes.Sets.{touches}
use scim_server.Response.Attributes.Requested.{declares_touching, apply_to_resource-unrequested}

abbrev enterprise : Text
enterprise = codes "urn:ietf:params:scim:schemas:extension:enterprise:2.0:User"

abbrev ann : Fields
ann =
    field (codes "emails")
      (array (cons (object (field (codes "value") (string (codes "a@b")) end)) nil))
      (field (codes "id") (string (codes "7")) (
        field (codes "password") (string (codes "secret")) (
          field (codes "userName") (string (codes "ann")) (
            field enterprise (object (field (codes "department") (string (codes "sales")) end))
              end))))

parses :
    from_params (some (codes " userName,, emails")) none
    ≡ only (codes "userName" ∷ codes "emails" ∷ []) none
unfolding from_params names_of split trim
parses = refl

-- The extension is requested, and comes without its content.
extension_emptied :
    apply_to_resource (only (enterprise ∷ []) none) (object ann) user_type
    ≡ object (field (codes "id") (string (codes "7")) (field enterprise (object end) end))
unfolding apply_to_resource get remove_null_fields shows_empty find_attribute split ascii_lower
    starts_with
extension_emptied = refl

-- A name of another case is found in the schema, and excludes nothing.
case_ignored :
    get_key
      (codes "emails")
      (apply_to_resource (without (codes "Emails" ∷ [])) (object ann) user_type)
    ≡ get (codes "emails") ann
unfolding apply_to_resource get remove_null_fields shows_empty find_attribute split ascii_lower
    starts_with
case_ignored = refl

-- A path below `groups` is requested, and the groups are not fetched.
not_fetched :
    should_fetch_external_attributes (only (codes "groups.value" ∷ []) none) user_type true ≡ false
unfolding should_fetch_external_attributes any_require_external_table_access
    requires_external_table_access
not_fetched = refl

apply_to_resource-excluded_example :
    get_key
      (codes "emails")
      (apply_to_resource (without (codes "emails" ∷ [])) (object ann) user_type)
    ≡ none
unfolding find_attribute split ascii_lower
apply_to_resource-excluded_example =
    apply_to_resource-excluded (codes "emails") user_type (codes "emails" ∷ []) Contacts.emails ann
      refl refl refl

apply_to_resource-id_example :
    get_key (codes "id") (apply_to_resource (without (codes "id" ∷ [])) (object ann) user_type)
    ≡ some (string (codes "7"))
unfolding get
apply_to_resource-id_example =
    apply_to_resource-id user_type (without (codes "id" ∷ [])) ann (codes "7") refl

apply_to_resource-unrequested_example :
    get_key
      (codes "emails")
      (apply_to_resource (only (codes "userName" ∷ []) none) (object ann) user_type)
    ≡ none
unfolding touches declares_touching starts_with
apply_to_resource-unrequested_example =
    apply_to_resource-unrequested (codes "emails") refl user_type (codes "userName" ∷ []) none ann
      refl refl
