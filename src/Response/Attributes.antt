-- ===== src/Response/Attributes.antt =====
-- `AttributeFilter` of src/resource/attribute_filter.rs: the `attributes` and `excludedAttributes`
-- parameters of a request. A `HashSet<String>` is a list of its elements, of which only membership
-- is read.
pub mod Sets
pub mod Laws
pub mod Requested
mod Tests
use scim_server.Common.{
  Bool, true, false, not, ◌||◌, Option, none, some, List, [], ◌∷◌, ◌++◌, map, if◌then◌else◌, keep,
  any,
}
use scim_server.Text.{Text, ◌==◌, codes, split, trim, starts_with}
use scim_server.Json.{Value, Items, Fields, array, object, nil, cons, end, field}
use scim_server.Schema.Definitions.{
  AttributeDefinition, attribute_definition, Attributes, no_attributes, attribute, SchemaDefinition,
  Returned, always, never, default, on_request, returned_of, sub_attributes_of, find_attribute,
}
use scim_server.Schema.Lookup.{ResourceType, schema_for, any_require_external_table_access}
use scim_server.Response.Nulls.{remove_null_fields}

pub record AttributeFilter : Type 0 where
  pub attributes : Option (List Text)
  pub excluded_attributes : Option (List Text)

abbrev pub is_empty : Text → Bool
is_empty [] = true
is_empty (c ∷ s) = false

-- `.split(',')`, trimmed, without the empty ones.
unfoldable pub names_of : Text → List Text
names_of s = keep (λ t. not (is_empty t)) (map trim (split b',' s))

unfoldable pub from_params : Option Text → Option Text → AttributeFilter
from_params attributes excluded = record {
  attributes = elim attributes [ none ↦ none | some s ↦ some (names_of s) ];
  excluded_attributes = elim excluded [ none ↦ none | some s ↦ some (names_of s) ];
}

-- `set.contains(k)`
abbrev pub has : Text → List Text → Bool
has k set = any (λ t. t == k) set

-- `format!("{}.", k)`, and `format!("{}.{}", parent, name)`.
abbrev pub dot : Text → Text
dot k = k ++ b'.' ∷ []

abbrev pub dotted : Text → Text → Text
dotted parent name = parent ++ b'.' ∷ name

abbrev pub is_always : Returned → Bool
is_always always = true
is_always _ = false

abbrev pub is_default : Returned → Bool
is_default default = true
is_default _ = false

-- `add_sub_attributes_recursive`; the test for sub-attributes before its own call saves a call that
-- adds nothing.
unfoldable pub add_sub_attributes_recursive : Text → Attributes → List Text → List Text
add_sub_attributes_recursive parent no_attributes set = set
add_sub_attributes_recursive parent
      (attribute (attribute_definition name _ _ _ _ _ _ _ _ subs) rest) set =
    add_sub_attributes_recursive parent rest
      (add_sub_attributes_recursive (dotted parent name) subs (dotted parent name ∷ set))

unfoldable pub add_sub_attributes : Text → SchemaDefinition → List Text → List Text
unfolding add_sub_attributes_recursive
add_sub_attributes attr schema set = elim (find_attribute schema attr) [
  | none ↦ set
  | some d ↦ add_sub_attributes_recursive attr (sub_attributes_of d) set
]

-- One round of the loop of `get_included_attributes_from_list`.
unfoldable pub add_requested : SchemaDefinition → Text → List Text → List Text
unfolding add_sub_attributes
add_requested schema attr set = elim (find_attribute schema attr) [
  | none ↦ add_sub_attributes attr schema (attr ∷ set)
  | some d ↦
      let with_sub_attributes = add_sub_attributes attr schema (attr ∷ set) in
      if is_always (returned_of d) then attr ∷ set else with_sub_attributes
]

unfoldable pub add_all_requested : SchemaDefinition → List Text → List Text → List Text
unfolding add_requested
add_all_requested schema [] set = set
add_all_requested schema (attr ∷ attrs) set =
    add_all_requested schema attrs (add_requested schema attr set)

-- The loop over the schema's attributes that have one of the given `returned`.
unfoldable pub add_returned : (Returned → Bool) → Attributes → List Text → List Text
unfolding add_sub_attributes_recursive
add_returned p no_attributes set = set
add_returned p (attribute (attribute_definition name _ _ _ _ _ _ returned _ subs) rest) set =
    let added = add_returned p rest (add_sub_attributes_recursive name subs (name ∷ set)) in
    let skipped = add_returned p rest set in if p returned then added else skipped

abbrev pub add_always_returned_attributes : SchemaDefinition → List Text → List Text
add_always_returned_attributes schema set = add_returned is_always schema.attributes set

unfoldable pub get_included_attributes_from_list : SchemaDefinition → List Text → List Text
unfolding add_all_requested add_returned
get_included_attributes_from_list schema attrs =
    add_always_returned_attributes schema (add_all_requested schema attrs [])

unfoldable pub remove_sub_attributes : Text → List Text → List Text
remove_sub_attributes attr set = keep (λ t. not (starts_with t (dot attr))) set

-- One round of the loop over the excluded attributes.
unfoldable pub exclude : SchemaDefinition → Text → List Text → List Text
unfolding remove_sub_attributes
exclude schema attr set = elim (find_attribute schema attr) [
  | none ↦ set
  | some d ↦
      let removed = remove_sub_attributes attr (keep (λ t. not (t == attr)) set) in
      if is_always (returned_of d) then set else removed
]

unfoldable pub exclude_all : SchemaDefinition → List Text → List Text → List Text
unfolding exclude
exclude_all schema [] set = set
exclude_all schema (attr ∷ attrs) set = exclude_all schema attrs (exclude schema attr set)

abbrev pub is_shown : Returned → Bool
is_shown r = is_always r || is_default r

-- All attributes that are returned by default.
unfoldable pub default_attributes : SchemaDefinition → List Text
unfolding add_returned
default_attributes schema = add_returned is_shown schema.attributes []

unfoldable pub get_default_attributes_minus_excluded :
    SchemaDefinition → Option (List Text) → List Text
unfolding default_attributes exclude_all
get_default_attributes_minus_excluded schema none = default_attributes schema
get_default_attributes_minus_excluded schema (some excluded) =
    exclude_all schema excluded (default_attributes schema)

unfoldable pub should_include_attribute : Text → List Text → Bool
should_include_attribute k set = has k set || any (λ t. starts_with t (dot k)) set

-- The entries of `filter_complex_attribute` and of `filter_array_item`.
unfoldable pub filter_sub_fields : Text → List Text → Fields → Fields
filter_sub_fields k set end = end
filter_sub_fields k set (field sub v m) =
    let rest = filter_sub_fields k set m in
    if has (dotted k sub) set then field sub v rest else rest

unfoldable pub filter_array_items : Text → List Text → Items → Items
unfolding filter_sub_fields
filter_array_items k set nil = nil
filter_array_items k set (cons (object m) xs) =
    cons (object (filter_sub_fields k set m)) (filter_array_items k set xs)
filter_array_items k set (cons v xs) = cons v (filter_array_items k set xs)

unfoldable pub filter_complex_attribute : Text → List Text → Value → Value
unfolding filter_array_items
filter_complex_attribute k set (object m) = object (filter_sub_fields k set m)
filter_complex_attribute k set (array xs) = array (filter_array_items k set xs)
filter_complex_attribute k set v = v

-- The loop of `filter_json_object`.
unfoldable pub filter_fields : List Text → Fields → Fields
unfolding filter_complex_attribute should_include_attribute
filter_fields set end = end
filter_fields set (field k v m) =
    let rest = filter_fields set m in
    if should_include_attribute k set then field k (filter_complex_attribute k set v) rest else rest

unfoldable pub filter_json_object : List Text → Value → Value
unfolding filter_fields
filter_json_object set (object m) = object (filter_fields set m)
filter_json_object set v = v

-- The set that `apply_to_resource` filters by, if it filters.
unfoldable pub included_attributes : AttributeFilter → SchemaDefinition → Option (List Text)
unfolding get_included_attributes_from_list get_default_attributes_minus_excluded
included_attributes f schema = elim f.attributes [
  | some attrs ↦ some (get_included_attributes_from_list schema attrs)
  | none ↦ elim f.excluded_attributes [
    | none ↦ none
    | some excluded ↦ some (get_default_attributes_minus_excluded schema (some excluded))
  ]
]

unfoldable pub apply_to_resource : AttributeFilter → Value → ResourceType → Value
unfolding included_attributes filter_json_object
apply_to_resource f resource t = elim (included_attributes f (schema_for t)) [
  | none ↦ remove_null_fields resource
  | some set ↦ filter_json_object set (remove_null_fields resource)
]

-- `should_fetch_external_attributes` of src/schema/definitions.rs
unfoldable pub should_fetch_external_attributes : AttributeFilter → ResourceType → Bool → Bool
should_fetch_external_attributes f t default_include = elim f.attributes [
  | some attrs ↦ any_require_external_table_access attrs t
  | none ↦ elim f.excluded_attributes [
    | some excluded ↦ not (any_require_external_table_access excluded t)
    | none ↦ default_include
  ]
]
