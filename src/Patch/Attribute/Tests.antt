-- ===== src/Patch/Attribute/Tests.antt =====
-- Attribute path operations on a small user, and the theorems at them.
use scim_server.Common.{◌≡◌, refl, true, [], ◌∷◌, indices, update_each, arith}
use scim_server.Text.{Text, codes, starts_with}
use scim_server.Json.{
  Value, Fields, bool, string, array, object, nil, cons, field, end, get, insert, remove, value_eq,
}
use scim_server.Error.{ok}
use scim_server.Config.{default_config}
use scim_server.Schema.Primary.{is_primary, enforce_single_primary}
use scim_server.Patch.Attribute.{is_multi_valued_attribute, apply_attr_path_operation}
use scim_server.Patch.Attribute.Laws.{OnePrimary, Opt}
use scim_server.Patch.Attribute.Invariant.{
  apply_attr_path_operation_frame, apply_attr_path_operation-OnePrimary,
}

abbrev emails : Text
emails = codes "emails"

abbrev email : Text → Value
email value =
    object (field (codes "primary") (bool true) (field (codes "value") (string value) end))

abbrev bare : Text → Value
bare value = object (field (codes "value") (string value) end)

abbrev user : Fields
user =
    field emails (array (cons (email (codes "a")) nil))
      (field (codes "userName") (string (codes "u")) end)

abbrev added : Value
added = array (cons (email (codes "b")) nil)

abbrev changed : Fields
changed =
    field emails (array (cons (bare (codes "a")) (cons (email (codes "b")) nil)))
      (field (codes "userName") (string (codes "u")) end)

-- A primary address that is added takes over from the one that was there.
add_primary :
    apply_attr_path_operation default_config (object user) (emails ∷ []) (codes "add") added
    ≡ ok (object changed)
unfolding apply_attr_path_operation is_multi_valued_attribute is_primary enforce_single_primary get
    insert remove value_eq indices update_each starts_with
add_primary = refl

emails_multi : is_multi_valued_attribute emails ≡ true
unfolding is_multi_valued_attribute
emails_multi = refl

apply_attr_path_operation-OnePrimary_example :
    (m' : Fields) × (object changed ≡ object m') × Opt OnePrimary (get emails m')
unfolding get is_primary value_eq
apply_attr_path_operation-OnePrimary_example =
    apply_attr_path_operation-OnePrimary default_config user emails [] (codes "add") added
      (object changed) emails emails_multi (omega arith) tt add_primary

apply_attr_path_operation_frame_example :
    (m' : Fields) × (object changed ≡ object m')
    × (get (codes "userName") m' ≡ get (codes "userName") user)
apply_attr_path_operation_frame_example =
    apply_attr_path_operation_frame default_config user emails [] (codes "add") added
      (object changed) (codes "userName") add_primary (λ e. cc) (λ e. cc)
