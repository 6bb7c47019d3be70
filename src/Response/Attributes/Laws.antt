-- ===== src/Response/Attributes/Laws.antt =====
-- What a response shows of a resource's top-level attributes.
use scim_server.Common.{
  ◌≡◌, refl, ◌∙◌, true, false, ◌||◌, Option, none, some, List, [], arith, any, all, if◌then◌else◌,
}
use scim_server.Text.{Text, codes, starts_with, split, ascii_lower}
use scim_server.Text.Laws.{eq_iff}
use scim_server.Json.{Value, Fields, string, object, end, field, get, get_key}
use scim_server.Schema.Definitions.{AttributeDefinition, returned_of, find_attribute}
use scim_server.Schema.Definitions.Identity
use scim_server.Schema.Definitions.GroupTable
use scim_server.Schema.Lookup.{ResourceType, user_type, group_type, schema_for}
use scim_server.Response.Nulls.{remove_null_fields, clean_fields}
use scim_server.Response.Nulls.Laws.{is_scalar, get-clean_fields}
use scim_server.Response.Attributes.{
  AttributeFilter, has, is_always, is_shown, add_all_requested, default_attributes,
  get_included_attributes_from_list, get_default_attributes_minus_excluded,
  should_include_attribute, filter_complex_attribute, filter_fields, filter_json_object,
  apply_to_resource,
}
use scim_server.Response.Attributes.Sets.{
  declares-shown, touches, should_include_attribute_lem, no_dot, exclude_all-any,
  exclude_all-touches, exclude_all-has, add_all_requested-has, add_returned-has, declares,
  add_returned-declares,
}

abbrev pub filtered : Text → List Text → Option Value → Option Value
filtered k set none = none
filtered k set (some v) = some (filter_complex_attribute k set v)

-- The filter decides by the name alone which attributes are shown.
pub get-filter_fields :
    (k : Text) (set : List Text) (m : Fields)
    → get k (filter_fields set m)
      ≡ (if should_include_attribute k set then filtered k set (get k m) else none)
unfolding get filter_fields
get-filter_fields k set end = ground arith
get-filter_fields k set (field j v m) = ground (arith, eq_iff j k, get-filter_fields k set m)

filter_scalar :
    (k : Text) (set : List Text) (v : Value)
    → is_scalar v ≡ true
    → filter_complex_attribute k set v ≡ v
unfolding filter_complex_attribute
filter_scalar k set v h = ground arith

get-shown :
    (k : Text) (set : List Text) (m : Fields) (v : Value)
    → has k set ≡ true
    → get k m ≡ some v
    → is_scalar v ≡ true
    → get_key k (filter_json_object set (remove_null_fields (object m))) ≡ some v
unfolding filter_json_object remove_null_fields should_include_attribute
get-shown k set m v h g s =
    ground (
      arith,
      get-filter_fields k set (clean_fields m),
      get-clean_fields k m v,
      filter_scalar k set v,
    )

pub get-hidden :
    (k : Text) (set : List Text) (m : Fields)
    → any (touches k) set ≡ false
    → get_key k (filter_json_object set (remove_null_fields (object m))) ≡ none
unfolding filter_json_object remove_null_fields
get-hidden k set m h =
    get-filter_fields k set (clean_fields m) ∙ rw (should_include_attribute_lem k set) (rw h refl)

-- A requested attribute, and one that is always returned, are in the set.
has-requested :
    (k : Text) (t : ResourceType) (attrs : List Text)
    → has k attrs || declares is_always k (schema_for t).attributes ≡ true
    → has k (get_included_attributes_from_list (schema_for t) attrs) ≡ true
unfolding get_included_attributes_from_list
has-requested k t attrs h =
    let requested = add_all_requested (schema_for t) attrs [] in
    ground (
      arith,
      add_all_requested-has k (schema_for t) attrs [],
      add_returned-has k is_always (schema_for t).attributes requested,
      add_returned-declares k is_always (schema_for t).attributes requested,
    )

abbrev given : Option (List Text) → Option (List Text) → AttributeFilter
given attrs excluded = record { attributes = attrs; excluded_attributes = excluded }

abbrev pub only : List Text → Option (List Text) → AttributeFilter
only attrs excluded = record { attributes = some attrs; excluded_attributes = excluded }

abbrev pub without : List Text → AttributeFilter
without excluded = record { attributes = none; excluded_attributes = some excluded }

-- A request with `attributes` is answered with each attribute it names exactly, and with those that
-- the schema always returns, where they have a string, a number or a Boolean.
pub apply_to_resource-requested :
    (k : Text) (t : ResourceType) (attrs : List Text) (excluded : Option (List Text))
    → (m : Fields) (v : Value)
    → has k attrs || declares is_always k (schema_for t).attributes ≡ true
    → get k m ≡ some v
    → is_scalar v ≡ true
    → get_key k (apply_to_resource (only attrs excluded) (object m) t) ≡ some v
unfolding apply_to_resource
apply_to_resource-requested k t attrs excluded m v h g s =
    get-shown k (get_included_attributes_from_list (schema_for t) attrs) m v
      (has-requested k t attrs h) g s

-- A request with `excludedAttributes` alone is answered without each attribute that it names exactly
-- and that the schema has and does not always return.
pub apply_to_resource-excluded :
    (k : Text) (t : ResourceType) (excluded : List Text) (d : AttributeDefinition) (m : Fields)
    → has k excluded ≡ true
    → find_attribute (schema_for t) k ≡ some d
    → is_always (returned_of d) ≡ false
    → get_key k (apply_to_resource (without excluded) (object m) t) ≡ none
unfolding apply_to_resource get_default_attributes_minus_excluded
apply_to_resource-excluded k t excluded d m h f n =
    get-hidden k _ m
      (exclude_all-touches (schema_for t) k d excluded (default_attributes (schema_for t)) f n h)

not_default-hidden :
    (k : Text) (t : ResourceType) (excluded : List Text) (m : Fields)
    → any (touches k) (default_attributes (schema_for t)) ≡ false
    → get_key k (apply_to_resource (without excluded) (object m) t) ≡ none
unfolding apply_to_resource get_default_attributes_minus_excluded
not_default-hidden k t excluded m h =
    get-hidden k _ m
      (exclude_all-any (schema_for t) (touches k) excluded (default_attributes (schema_for t)) h)

-- A request with `excludedAttributes` alone is never answered with a user's password.
pub apply_to_resource-no_password :
    (excluded : List Text) (m : Fields)
    → get_key (codes "password") (apply_to_resource (without excluded) (object m) user_type) ≡ none
unfolding default_attributes touches starts_with
apply_to_resource-no_password excluded m =
    not_default-hidden (codes "password") user_type excluded m refl

-- A request with `excludedAttributes` alone is answered without `schemas`, whatever it excludes.
pub apply_to_resource-no_schemas :
    (t : ResourceType) (excluded : List Text) (m : Fields)
    → get_key (codes "schemas") (apply_to_resource (without excluded) (object m) t) ≡ none
unfolding default_attributes touches starts_with
apply_to_resource-no_schemas user_type excluded m =
    not_default-hidden (codes "schemas") user_type excluded m refl
apply_to_resource-no_schemas group_type excluded m =
    not_default-hidden (codes "schemas") group_type excluded m refl

module _ (k : Text) (t : ResourceType) (d : AttributeDefinition) where
  has-default :
      (excluded : List Text)
      → find_attribute (schema_for t) k ≡ some d
      → is_always (returned_of d) ≡ true
      → declares is_always k (schema_for t).attributes ≡ true
      → all no_dot k ≡ true
      → has k (get_default_attributes_minus_excluded (schema_for t) (some excluded)) ≡ true
  unfolding get_default_attributes_minus_excluded default_attributes
  has-default excluded f a dc nd =
      exclude_all-has (schema_for t) k d excluded (default_attributes (schema_for t)) f a nd (
        add_returned-declares k is_shown (schema_for t).attributes []
          (declares-shown k (schema_for t).attributes dc))

  -- Whatever is requested or excluded, a response keeps the value of an attribute of the schema that
  -- is always returned, where it has a string, a number or a Boolean.
  apply_to_resource-always :
      (attrs excluded : Option (List Text)) (m : Fields) (v : Value)
      → find_attribute (schema_for t) k ≡ some d
      → is_always (returned_of d) ≡ true
      → declares is_always k (schema_for t).attributes ≡ true
      → all no_dot k ≡ true
      → get k m ≡ some v
      → is_scalar v ≡ true
      → get_key k (apply_to_resource (given attrs excluded) (object m) t) ≡ some v
  unfolding apply_to_resource remove_null_fields
  apply_to_resource-always (some attrs) excluded m v f a dc nd g s =
      apply_to_resource-requested k t attrs excluded m v (ground arith) g s
  apply_to_resource-always none (some excluded) m v f a dc nd g s =
      get-shown k _ m v (has-default excluded f a dc nd) g s
  apply_to_resource-always none none m v f a dc nd g s = get-clean_fields k m v g s

-- Whatever is requested or excluded, a response to a user or a group has its `id`.
pub apply_to_resource-id :
    (t : ResourceType) (f : AttributeFilter) (m : Fields) (s : Text)
    → get (codes "id") m ≡ some (string s)
    → get_key (codes "id") (apply_to_resource f (object m) t) ≡ some (string s)
unfolding default_attributes find_attribute declares split ascii_lower
apply_to_resource-id user_type f m s g =
    apply_to_resource-always (codes "id") user_type Identity.id f.attributes f.excluded_attributes m
      (string s) refl refl refl refl g refl
apply_to_resource-id group_type f m s g =
    apply_to_resource-always (codes "id") group_type GroupTable.id f.attributes
      f.excluded_attributes m (string s) refl refl refl refl g refl
