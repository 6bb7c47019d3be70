-- ===== src/Patch/Path/Tests.antt =====
-- The unit tests of `ScimPath::parse`, and a path with a schema's URN.
use scim_server.Common.{◌≡◌, refl, none, some, [], ◌∷◌}
use scim_server.Text.{
  Text, codes, starts_with, trim, ascii_lower, find, rfind, split, strip_prefix, strip_suffix,
  split_at_byte,
}
use scim_server.Json.{string, object, end}
use scim_server.Error.{AppResult, ok}
use scim_server.Filter.{equal}
use scim_server.Filter.Scan.{closes_at_end, find_keyword, find_operator_position}
use scim_server.Filter.Parser.{parse_filter_str}
use scim_server.Patch.{ScimPath, attr_path, value_path}
use scim_server.Patch.Path.{parse_path, parse_attr_path}
use scim_server.Patch.Path.Qualified.{parse_attr_path-no_schema_update}
use scim_server.Patch.Attribute.{apply_attr_path_operation, navigate_and_apply}
use scim_server.Config.{default_config}

abbrev parsed : Text → AppResult ScimPath
unfolding parse_path parse_filter_str starts_with trim ascii_lower find_keyword find strip_suffix
    find_operator_position rfind split_at_byte closes_at_end split strip_prefix
parsed = parse_path (λ s. none)

test_parse_simple_attr_path :
    parsed (codes "name.givenName") ≡ ok (attr_path (codes "name" ∷ codes "givenName" ∷ []))
unfolding parsed
test_parse_simple_attr_path = refl

test_parse_value_path_with_sub_attr :
    parsed (codes "addresses[type eq \"work\"].street")
    ≡ ok (
        value_path
          (codes "addresses" ∷ [])
          (equal (codes "type") (string (codes "work")))
          (some (codes "street")))
unfolding parsed
test_parse_value_path_with_sub_attr = refl

qualified :
    parsed (codes "urn:ietf:params:scim:schemas:extension:enterprise:2.0:User:manager.value")
    ≡ ok (
        attr_path (
          codes "urn:ietf:params:scim:schemas:extension:enterprise:2.0:User"
          ∷ codes "manager"
          ∷ codes "value"
          ∷ []))
unfolding parsed
qualified = refl

abbrev employee_number : Text
employee_number = codes "urn:ietf:params:scim:schemas:extension:enterprise:2.0:User:employeeNumber"

abbrev enterprise : Text
enterprise = codes "urn:ietf:params:scim:schemas:extension:enterprise:2.0:User"

employee_number_path :
    parse_attr_path employee_number ≡ ok (attr_path (enterprise ∷ codes "employeeNumber" ∷ []))
unfolding parse_attr_path starts_with rfind split
employee_number_path = refl

parse_attr_path-no_schema_update_example :
    apply_attr_path_operation default_config
      (object end)
      (enterprise ∷ codes "employeeNumber" ∷ [])
      (codes "add")
      (string (codes "701"))
    ≡ navigate_and_apply default_config
        (object end)
        (enterprise ∷ codes "employeeNumber" ∷ [])
        (codes "add")
        (string (codes "701"))
unfolding starts_with
parse_attr_path-no_schema_update_example =
    parse_attr_path-no_schema_update employee_number enterprise (codes "employeeNumber" ∷ []) refl
      employee_number_path default_config (object end) (codes "add") (string (codes "701"))
