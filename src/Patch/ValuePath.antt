-- ===== src/Patch/ValuePath.antt =====
-- PATCH on a value path, `addresses[type eq "work"].street`:
-- `apply_value_path_operation_with_compatibility`.
pub mod Laws
pub mod Primaries
pub mod Frame
mod Tests
use scim_server.Common.{
  ℕ, Bool, true, false, not, ◌&&◌, Option, none, some, List, [], ◌∷◌, ◌++◌, map, if◌then◌else◌,
  indices, update_each, remove_each_rev, nat_eq, any,
}
use scim_server.Text.{Text, ◌==◌, codes}
use scim_server.Json.{
  Value, Fields, Items, bool, string, array, object, get, insert, remove, to_list, from_list,
  is_object, value_eq,
}
use scim_server.Error.{AppResult, ok, err, bad_request, ◌>>=◌}
use scim_server.Filter.{FilterOperator}
use scim_server.Filter.Eval.{NumberCmp, evaluate_filter, get_condition}
use scim_server.Schema.Primary.{primary, drop_primary}
use scim_server.Patch.Attribute.{unsupported}

-- The attribute and the value of the filter's first condition, put into a new item.
unfoldable pub with_condition : FilterOperator → Fields → Value
with_condition filter m =
    let (attr, op, val) = get_condition filter in object (insert attr (string val) m)

-- What "replace" does to one matching element.
unfoldable pub replace_item : FilterOperator → Option Text → Value → Value → Value
unfolding with_condition
replace_item filter (some sub) v (object m) = object (insert sub v m)
replace_item filter (some sub) v item = item
replace_item filter none (object n) item = with_condition filter n
replace_item filter none v item = item

-- What "remove" does to one matching element under a sub-attribute.
unfoldable pub remove_sub : Text → Value → Value
remove_sub sub (object m) = object (remove sub m)
remove_sub sub item = item

-- `for (index, item) in array.iter_mut().enumerate() { if !indices.contains(&index) { … } }`
unfoldable pub clear_others : List ℕ → ℕ → List Value → List Value
clear_others matching i [] = []
clear_others matching i (v ∷ vs) =
    (if any (nat_eq i) matching then v else drop_primary v) ∷ clear_others matching (ℕ.suc i) vs

-- The primary rule at the end.
unfoldable pub primary_rule : Option Text → Text → Value → List ℕ → List Value → List Value
unfolding clear_others
primary_rule none op v matching vs = vs
primary_rule (some sub) op v matching vs =
    if sub == primary && not (op == codes "remove") && value_eq v (bool true)
    then clear_others matching 0 vs
    else vs

module _ (num : NumberCmp) where
  unfoldable pub item_matches : FilterOperator → Value → Bool
  item_matches filter (object m) = evaluate_filter num m filter
  item_matches filter _ = false

  unfoldable pub add_item : FilterOperator → Value → List Value → AppResult (List Value)
  add_item filter (object m) vs = ok (vs ++ with_condition filter m ∷ [])
  add_item filter _ vs =
      err (bad_request (codes "Add operation with valuePath requires object value"))

  no_match : FilterOperator → AppResult (List Value)
  no_match filter =
      let (attr, op, val) = get_condition filter in
      err (
        bad_request
          (codes "No matching elements found for filter: " ++ (attr ++ (codes " eq " ++ val))))

  unfoldable pub replace_items :
      FilterOperator → Option Text → Value → List ℕ → List Value → AppResult (List Value)
  unfolding no_match replace_item
  replace_items filter sub v [] vs = no_match filter
  replace_items filter sub v (i ∷ is) vs = ok (update_each (replace_item filter sub v) (i ∷ is) vs)

  -- A sub-attribute leaves the elements where they are, so that the order of the visits, from the
  -- last to the first, shows only in the removal of whole elements.
  unfoldable pub remove_items : Option Text → List ℕ → List Value → List Value
  unfolding remove_sub
  remove_items (some sub) matching vs = update_each (remove_sub sub) matching vs
  remove_items none matching vs = remove_each_rev matching vs

  -- The `match op`, before the primary rule.
  unfoldable pub apply_to_matching :
      FilterOperator → Option Text → Text → Value → List ℕ → List Value → AppResult (List Value)
  unfolding add_item replace_items remove_items
  apply_to_matching filter sub op v matching vs =
      if op == codes "add"
      then add_item filter v vs
      else if op == codes "replace"
      then replace_items filter sub v matching vs
      else if op == codes "remove"
      then ok (remove_items sub matching vs)
      else err (bad_request (codes "Unsupported operation: " ++ op))

  unfoldable pub apply_to_array :
      FilterOperator → Option Text → Text → Value → List Value → AppResult (List Value)
  unfolding apply_to_matching primary_rule
  apply_to_array filter sub op v vs =
      let matching = indices (item_matches filter) 0 vs in
      apply_to_matching filter sub op v matching vs >>= λ ws. ok (primary_rule sub op v matching ws)

  unfoldable pub apply_value_path_operation :
      Value → List Text → FilterOperator → Option Text → Text → Value → AppResult Value
  unfolding apply_to_array
  apply_value_path_operation (array xs) [] filter sub op v =
      apply_to_array filter sub op v (to_list xs) >>= λ vs. ok (array (from_list vs))
  apply_value_path_operation _ [] filter sub op v =
      err (bad_request (codes "Value path requires multi-valued attribute (array)"))
  apply_value_path_operation (object m) (segment ∷ path) filter sub op v = elim (get segment m) [
    | none ↦ err (bad_request (codes "Attribute '" ++ (segment ++ codes "' not found")))
    | some child ↦ apply_value_path_operation child path filter sub op v >>= λ child'.
        ok (object (insert segment child' m))
  ]
  apply_value_path_operation _ (segment ∷ path) filter sub op v =
      err
        (bad_request (codes "Cannot navigate path: expected object at '" ++ (segment ++ codes "'")))
