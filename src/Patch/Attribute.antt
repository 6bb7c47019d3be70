-- ===== src/Patch/Attribute.antt =====
-- PATCH on an attribute path: `apply_attr_path_operation_with_compatibility`,
-- `navigate_and_apply_with_compatibility` and `update_schemas_attribute`.
pub mod Laws
pub mod Keeps
pub mod Invariant
mod Tests
use scim_server.Common.{
  ℕ, zero, suc, ◌-◌, Bool, true, false, not, ◌&&◌, ◌||◌, Option, none, some, List, [], ◌∷◌, ◌++◌,
  map, nat_eq, leb, length, take, if◌then◌else◌, any,
}
use scim_server.Text.{Text, ◌==◌, codes, starts_with, split, join}
use scim_server.Json.{
  Value, Fields, Items, null, string, array, object, nil, cons, end, get, insert, remove, len,
  to_list, from_list, is_array, value_eq,
}
use scim_server.Error.{AppResult, ok, err, panicked, bad_request, ◌>>=◌}
use scim_server.Config.{CompatibilityConfig}
use scim_server.Schema.Primary.{is_primary, drop_primary, enforce_single_primary}
use scim_server.Patch.Items.{remove_items_from_array}

unfoldable pub is_multi_valued_attribute : Text → Bool
is_multi_valued_attribute k =
    k == codes "emails"
    || k == codes "phoneNumbers"
    || k == codes "addresses"
    || k == codes "photos"
    || k == codes "ims"
    || k == codes "entitlements"
    || k == codes "roles"
    || k == codes "x509Certificates"

-- "add" of an array to an existing array.
unfoldable pub add_elements : Text → List Value → List Value → AppResult (List Value)
add_elements key existing added =
    if is_multi_valued_attribute key
    then enforce_single_primary added >>= (λ new_elements. ok (
        (if any is_primary new_elements then map drop_primary existing else existing)
        ++ new_elements))
    else ok (existing ++ added)

-- "add" where the key is not there.
unfoldable pub add_new : Text → Value → AppResult Value
add_new key (array xs) =
    if is_multi_valued_attribute key
    then enforce_single_primary (to_list xs) >>= (λ vs. ok (array (from_list vs)))
    else ok (array xs)
add_new key v = ok v

-- "add" where the key has a value.
unfoldable pub add_existing : Text → Value → Value → AppResult Value
add_existing key (array xs) (array ys) =
    add_elements key (to_list xs) (to_list ys) >>= λ vs. ok (array (from_list vs))
add_existing key _ v = ok v

unfoldable pub apply_add : Fields → Text → Value → AppResult Fields
unfolding add_elements add_new add_existing
apply_add m key v = elim (get key m) [
  | some existing ↦ add_existing key existing v >>= λ w. ok (insert key w m)
  | none ↦ add_new key v >>= λ w. ok (insert key w m)
]

-- The pattern `[{"value": ""}]`.
abbrev pub is_empty_value : List Value → Bool
is_empty_value (object m ∷ []) =
    nat_eq (len m) 1
    && elim (get (codes "value") m) [ none ↦ false | some v ↦ value_eq v (string []) ]
is_empty_value _ = false

-- "replace" of a multi-valued attribute by an array; `none` removes the attribute.
unfoldable pub replace_multi : CompatibilityConfig → List Value → AppResult (Option Value)
replace_multi config [] = ok none
replace_multi config (v ∷ vs) =
    if is_empty_value (v ∷ vs) && config.support_patch_replace_empty_value
    then ok none
    else enforce_single_primary (v ∷ vs) >>= λ ws. ok (some (array (from_list ws)))

abbrev pub replaced : CompatibilityConfig → Text → Value → AppResult (Option Value)
replaced config key (array xs) =
    if is_multi_valued_attribute key
    then replace_multi config (to_list xs)
    else ok (some (array xs))
replaced config key v = ok (some v)

abbrev pub set_or_remove : Text → Option Value → Fields → Fields
set_or_remove key none m = remove key m
set_or_remove key (some v) m = insert key v m

unfoldable pub apply_replace : CompatibilityConfig → Fields → Text → Value → AppResult Fields
unfolding replace_multi
apply_replace config m key v = replaced config key v >>= λ w. ok (set_or_remove key w m)

-- "remove" with an array as value, at an existing value of the attribute.
abbrev pub remove_selected : Fields → Text → Items → Value → Fields
remove_selected m key to_remove (array xs) =
    insert key (array (from_list (remove_items_from_array (to_list xs) (to_list to_remove)))) m
remove_selected m key to_remove _ = m

unfoldable pub apply_remove : Fields → Text → Value → Fields
apply_remove m key (array to_remove) = elim (get key m) [
  | none ↦ m
  | some existing ↦ remove_selected m key to_remove existing
]
apply_remove m key _ = remove key m

abbrev pub unsupported : Text → AppResult Value
unsupported op = err (bad_request (codes "Unsupported operation: " ++ op))

abbrev cannot_set : AppResult Value
cannot_set = err (bad_request (codes "Cannot set value: parent is not an object"))

-- The `match op` at the parent of the final attribute.
unfoldable pub apply_final : CompatibilityConfig → Value → Text → Text → Value → AppResult Value
unfolding apply_add apply_replace apply_remove
apply_final config (object m) key op v =
    if op == codes "add"
    then apply_add m key v >>= (λ m'. ok (object m'))
    else if op == codes "replace"
    then apply_replace config m key v >>= (λ m'. ok (object m'))
    else if op == codes "remove"
    then ok (object (apply_remove m key v))
    else unsupported op
apply_final config current key op v =
    if op == codes "add" || op == codes "replace"
    then cannot_set
    else if op == codes "remove"
    then ok current
    else unsupported op

-- `obj.entry(segment).or_insert({})`
abbrev pub entry_or : Text → Value → Fields → Value
entry_or k d m = elim (get k m) [ none ↦ d | some v ↦ v ]

unfoldable pub navigate_and_apply :
    CompatibilityConfig → Value → List Text → Text → Value → AppResult Value
unfolding apply_final
navigate_and_apply config current [] op v = panicked
navigate_and_apply config current (key ∷ []) op v = apply_final config current key op v
navigate_and_apply config (object m) (segment ∷ next ∷ path) op v =
    navigate_and_apply config (entry_or segment (object end) m) (next ∷ path) op v >>= λ child.
    ok (object (insert segment child m))
navigate_and_apply config _ (segment ∷ next ∷ path) op v =
    err (bad_request (codes "Cannot navigate path: expected object at '" ++ segment ++ codes "'"))

abbrev pub last_of : Text → List Text → Text
last_of k [] = k
last_of k (j ∷ ks) = last_of j ks

abbrev pub starts : List Text → List Text → Bool
starts ps [] = true
starts [] (q ∷ qs) = false
starts (p ∷ ps) (q ∷ qs) = p == q && starts ps qs

abbrev pub push_missing : Value → List Value → List Value
push_missing v vs = if any (λ w. value_eq w v) vs then vs else vs ++ v ∷ []

abbrev pub add_schema : Value → Value → Value
add_schema v (array xs) = array (from_list (push_missing v (to_list xs)))
add_schema v w = w

abbrev pub schemas : Text
schemas = codes "schemas"

-- The schema of a fully qualified attribute name: all its parts but the last.
unfoldable pub schema_of : Text → Option Text
schema_of attr =
    let parts = split b':' attr in
    if leb 7 (length parts)
      && starts parts
          (codes "urn" ∷ codes "ietf" ∷ codes "params" ∷ codes "scim" ∷ codes "schemas" ∷ [])
    then some (join (codes ":") (take (length parts - 1) parts))
    else none

unfoldable pub update_schemas_attribute : Value → Text → Value
unfolding schema_of
update_schemas_attribute (object m) attr = elim (schema_of attr) [
  | none ↦ object m
  | some urn ↦ object (insert schemas (add_schema (string urn) (entry_or schemas (array nil) m)) m)
]
update_schemas_attribute v attr = v

abbrev pub urn_prefix : Text
urn_prefix = codes "urn:ietf:params:scim:schemas:"

abbrev pub needs_schema_update : Text → Text → Bool
needs_schema_update key op = starts_with key urn_prefix && not (op == codes "remove")

unfoldable pub apply_attr_path_operation :
    CompatibilityConfig → Value → List Text → Text → Value → AppResult Value
unfolding navigate_and_apply update_schemas_attribute
apply_attr_path_operation config json [] op v = err (bad_request (codes "Empty attribute path"))
apply_attr_path_operation config json (k ∷ ks) op v =
    navigate_and_apply config json (k ∷ ks) op v >>= λ json'. ok (
      if needs_schema_update (last_of k ks) op
      then update_schemas_attribute json' (last_of k ks)
      else json')
