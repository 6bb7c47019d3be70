-- ===== src/Patch.antt =====
-- SCIM PATCH, src/parser/patch_parser.rs. A failed call of the program may leave its JSON partly
-- changed; its callers drop that JSON, so a failure here carries none.
pub mod Path
pub mod Items
pub mod Attribute
pub mod ValuePath
use scim_server.Common.{Bool, true, false, Option, List, ◌||◌, any}
use scim_server.Text.{Text, codes, ◌==◌}
use scim_server.Filter.{FilterOperator}
use scim_server.Json.{Value, null}
use scim_server.Error.{AppResult}
use scim_server.Config.{CompatibilityConfig}
use scim_server.Filter.Eval.{NumberCmp}
use scim_server.Patch.Attribute.{apply_attr_path_operation}
use scim_server.Patch.ValuePath.{apply_value_path_operation}

pub data ScimPath : Type 0 where
  attr_path : List Text → ScimPath
  value_path : List Text → FilterOperator → Option Text → ScimPath

-- `apply_operation_with_compatibility`
unfoldable pub apply_operation :
    NumberCmp → CompatibilityConfig → ScimPath → Value → Text → Value → AppResult Value
apply_operation num config (attr_path path) json op v =
    apply_attr_path_operation config json path op v
apply_operation num config (value_path path filter sub) json op v =
    apply_value_path_operation num json path filter sub op v
