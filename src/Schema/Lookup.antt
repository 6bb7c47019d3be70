-- ===== src/Schema/Lookup.antt =====
-- `ResourceType`, and the lookups of src/schema/definitions.rs in the schema of a resource type.
use scim_server.Common.{Bool, false, not, none, some, List, any}
use scim_server.Text.{Text, ◌==◌, codes}
use scim_server.Schema.Definitions.{
  AttributeDefinition, attribute_definition, SchemaDefinition, find_attribute,
}
use scim_server.Schema.Tables.{user_schema, group_schema}

pub data ResourceType : Type 0 where
  user_type group_type : ResourceType

-- `match resource_type { … }` at the head of each lookup.
abbrev pub schema_for : ResourceType → SchemaDefinition
schema_for user_type = user_schema
schema_for group_type = group_schema

abbrev pub case_exact_of : AttributeDefinition → Bool
case_exact_of (attribute_definition _ _ _ _ _ case_exact _ _ _ _) = case_exact

abbrev pub multi_valued_of : AttributeDefinition → Bool
multi_valued_of (attribute_definition _ _ multi_valued _ _ _ _ _ _ _) = multi_valued

unfoldable pub is_case_insensitive_attribute : Text → ResourceType → Bool
is_case_insensitive_attribute attr t = elim (find_attribute (schema_for t) attr) [
  | none ↦ false
  | some d ↦ not (case_exact_of d)
]

unfoldable pub is_multi_valued_attribute : Text → ResourceType → Bool
is_multi_valued_attribute attr t = elim (find_attribute (schema_for t) attr) [
  | none ↦ false
  | some d ↦ multi_valued_of d
]

unfoldable pub is_case_exact_field_for_resource : Text → ResourceType → Bool
is_case_exact_field_for_resource attr t = elim (find_attribute (schema_for t) attr) [
  | none ↦ false
  | some d ↦ case_exact_of d
]

-- The attributes that are kept in a table of their own.
unfoldable pub requires_external_table_access : Text → ResourceType → Bool
requires_external_table_access attr user_type = attr == codes "groups"
requires_external_table_access attr group_type = attr == codes "members"

unfoldable pub any_require_external_table_access : List Text → ResourceType → Bool
any_require_external_table_access attrs t = any (λ a. requires_external_table_access a t) attrs
