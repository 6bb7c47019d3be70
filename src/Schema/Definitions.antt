-- ===== src/Schema/Definitions.antt =====
-- The schema tables of src/schema/definitions.rs and the lookup in them.
pub mod Identity
pub mod Contacts
pub mod Rights
pub mod GroupTable
pub mod EnterpriseTable
use Prim.Native.String.{String}
use scim_server.Common.{Bool, Option, none, some, List, [], ◌∷◌, map, if◌then◌else◌}
use scim_server.Text.{Text, ◌==◌, split, ascii_lower}

pub data AttributeType : Type 0 where
  string_type boolean integer decimal date_time reference complex_type : AttributeType

pub data Mutability : Type 0 where
  read_only read_write immutable write_only : Mutability

pub data Returned : Type 0 where
  always never default on_request : Returned

pub data Uniqueness : Type 0 where
  no_uniqueness server global : Uniqueness

mutual
  -- name, attr_type, multi_valued, description, required, case_exact, mutability, returned,
  -- uniqueness, sub_attributes
  pub data AttributeDefinition : Type 0 where
    attribute_definition :
        Text
        → AttributeType
        → Bool
        → String
        → Bool
        → Bool
        → Mutability
        → Returned
        → Uniqueness
        → Attributes
        → AttributeDefinition

  -- `Vec<AttributeDefinition>`
  pub data Attributes : Type 0 where
    no_attributes : Attributes
    attribute : AttributeDefinition → Attributes → Attributes

pub record SchemaDefinition : Type 0 where
  pub id : Text
  pub name : Text
  pub description : Text
  pub attributes : Attributes

abbrev pub name_of : AttributeDefinition → Text
name_of (attribute_definition name _ _ _ _ _ _ _ _ _) = name

abbrev pub returned_of : AttributeDefinition → Returned
returned_of (attribute_definition _ _ _ _ _ _ _ returned _ _) = returned

abbrev pub sub_attributes_of : AttributeDefinition → Attributes
sub_attributes_of (attribute_definition _ _ _ _ _ _ _ _ _ sub_attributes) = sub_attributes

abbrev pub eq_ignore_ascii_case : Text → Text → Bool
eq_ignore_ascii_case s t = map ascii_lower s == map ascii_lower t

-- `current_attrs.iter().find(|a| a.name.eq_ignore_ascii_case(part))`
unfoldable pub find_named : Text → Attributes → Option AttributeDefinition
find_named part no_attributes = none
find_named part (attribute a rest) =
    let others = find_named part rest in
    if eq_ignore_ascii_case (name_of a) part then some a else others

-- The attributes of the next round: an attribute without sub-attributes leaves them as they are.
abbrev pub descend : Attributes → Attributes → Attributes
descend current no_attributes = current
descend current (attribute a rest) = attribute a rest

-- The loop over the parts, with its `result`.
unfoldable pub find_parts :
    Option AttributeDefinition → Attributes → List Text → Option AttributeDefinition
unfolding find_named
find_parts result current [] = result
find_parts result current (part ∷ parts) = elim (find_named part current) [
  | none ↦ none
  | some a ↦ find_parts (some a) (descend current (sub_attributes_of a)) parts
]

unfoldable pub find_attribute : SchemaDefinition → Text → Option AttributeDefinition
unfolding find_parts
find_attribute schema attr_path = find_parts none schema.attributes (split b'.' attr_path)
