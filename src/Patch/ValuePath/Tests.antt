-- ===== src/Patch/ValuePath/Tests.antt =====
-- Value path operations on two addresses, and the theorems at them.
use scim_server.Common.{
  ◌≡◌, ◌≢◌, refl, true, not, none, some, List, [], ◌∷◌, map, keep, any, indices, update_each,
  remove_each_rev, if◌then◌else◌,
}
use scim_server.Text.{Text, codes}
use scim_server.Json.{
  Value, Fields, bool, string, array, object, nil, cons, field, end, get, insert, remove, value_eq,
}
use scim_server.Error.{ok}
use scim_server.Filter.{FilterOperator, equal}
use scim_server.Filter.Eval.{NumberCmp, evaluate_filter}
use scim_server.Schema.Primary.{primary, drop_primary}
use scim_server.Schema.Primary.Laws.{primaries}
use scim_server.Patch.ValuePath.{
  item_matches, replace_item, apply_to_array, apply_value_path_operation,
}
use scim_server.Patch.ValuePath.Laws.{sets_primary, apply_to_array-replace, apply_to_array-remove}
use scim_server.Patch.ValuePath.Primaries.{matching, primaries-replace}
use scim_server.Patch.ValuePath.Frame.{ChangesOnly, apply_value_path_operation_frame}

abbrev no_numbers : NumberCmp
no_numbers a b = none

abbrev work : FilterOperator
work = equal (codes "type") (string (codes "work"))

abbrev address : Text → Value
address kind = object (field (codes "type") (string kind) end)

abbrev primary_address : Text → Value
primary_address kind =
    object (field (codes "primary") (bool true) (field (codes "type") (string kind) end))

abbrev addresses : List Value
addresses = address (codes "work") ∷ primary_address (codes "home") ∷ address (codes "work") ∷ []

abbrev both_primary : List Value
both_primary =
    primary_address (codes "work") ∷ address (codes "home") ∷ primary_address (codes "work") ∷ []

work_matches : any (item_matches no_numbers work) addresses ≡ true
unfolding item_matches evaluate_filter get value_eq
work_matches = refl

-- Two addresses match, and both become primary.
replace_primary :
    apply_to_array no_numbers work (some primary) (codes "replace") (bool true) addresses
    ≡ ok both_primary
unfolding apply_to_array item_matches evaluate_filter get insert remove value_eq indices update_each
    drop_primary
replace_primary = refl

primaries-replace_example : primaries both_primary ≡ matching no_numbers work addresses
primaries-replace_example =
    primaries-replace no_numbers work addresses both_primary work_matches replace_primary

apply_to_array-replace_example :
    apply_to_array no_numbers work none (codes "replace") (object end) addresses
    ≡ ok (
        map
          (λ x.
            if item_matches no_numbers work x
            then replace_item work none (object end) x
            else if sets_primary none (object end)
            then drop_primary x
            else x)
          addresses)
apply_to_array-replace_example =
    apply_to_array-replace no_numbers work none (object end) addresses work_matches

abbrev other : FilterOperator
other = equal (codes "type") (string (codes "other"))

apply_to_array-remove_example :
    apply_to_array no_numbers work none (codes "remove") (bool true) addresses
    ≡ ok (keep (λ x. not (item_matches no_numbers work x)) addresses)
apply_to_array-remove_example = apply_to_array-remove no_numbers work (bool true) addresses

abbrev new_primary : Fields
new_primary = field (codes "primary") (bool true) end

abbrev one_more : List Value
one_more =
    address (codes "work")
    ∷ primary_address (codes "home")
    ∷ address (codes "work")
    ∷ primary_address (codes "work")
    ∷ []

abbrev user : Fields
user = field (codes "addresses") (array (cons (address (codes "work")) nil)) end

abbrev no_addresses : Value
no_addresses = object (field (codes "addresses") (array nil) end)

remove_work :
    apply_value_path_operation no_numbers
      (object user)
      (codes "addresses" ∷ [])
      work
      none
      (codes "remove")
      (bool true)
    ≡ ok no_addresses
unfolding apply_value_path_operation item_matches evaluate_filter get insert value_eq indices
    remove_each_rev
remove_work = refl

apply_value_path_operation_frame_example :
    (get (codes "addresses") user ≢ none) × ChangesOnly (codes "addresses") user no_addresses
apply_value_path_operation_frame_example =
    apply_value_path_operation_frame no_numbers user (codes "addresses") [] work none
      (codes "remove") (bool true) no_addresses remove_work
