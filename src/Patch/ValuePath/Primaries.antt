-- ===== src/Patch/ValuePath/Primaries.antt =====
-- How many elements are primary after a value path operation.
use scim_server.Common.{
  ℕ, ◌+◌, ◌≡◌, refl, true, List, [], ◌∷◌, map, arith, any, if◌then◌else◌, some,
}
use scim_server.Text.{Text, codes}
use scim_server.Json.{Value, bool, object, value_eq}
use scim_server.Json.Laws.{get-insert}
use scim_server.Json.Equality.{value_eq_refl}
use scim_server.Error.{ok}
use scim_server.Filter.{FilterOperator}
use scim_server.Filter.Eval.{NumberCmp}
use scim_server.Schema.Primary.{primary, drop_primary, is_primary}
use scim_server.Schema.Primary.Laws.{primaries, is_primary-drop_primary}
use scim_server.Patch.ValuePath.{replace_item, item_matches, apply_to_array}
use scim_server.Patch.ValuePath.Laws.{sets_primary, apply_to_array-replace}

module _ (num : NumberCmp) (filter : FilterOperator) where
  -- How many elements match the filter.
  abbrev pub matching : List Value → ℕ
  matching [] = 0
  matching (v ∷ vs) = (if item_matches num filter v then 1 else 0) + matching vs

  -- An object whose `primary` has been set to true.
  is_primary-replace_item :
      (x : Value)
      → item_matches num filter x ≡ true
      → is_primary (replace_item filter (some primary) (bool true) x) ≡ true
  unfolding item_matches replace_item is_primary value_eq
  is_primary-replace_item (object m) h =
      rw (replace_item, is_primary, get-insert primary primary (bool true) m) refl
  is_primary-replace_item v h = cc

  abbrev made_primary : Value → Value
  made_primary x =
      if item_matches num filter x
      then replace_item filter (some primary) (bool true) x
      else if sets_primary (some primary) (bool true)
      then drop_primary x
      else x

  primaries-made_primary : (vs : List Value) → primaries (map made_primary vs) ≡ matching vs
  primaries-made_primary [] = refl
  primaries-made_primary (v ∷ vs) = ground (
    arith,
    value_eq_refl (bool true),
    is_primary-replace_item v,
    is_primary-drop_primary v,
    primaries-made_primary vs,
  )

  -- After a replace of `attr[filter].primary` by true exactly the matching elements are primary:
  -- as many as match, so that a filter which matches two elements leaves two primary ones.
  pub primaries-replace :
      (vs ws : List Value)
      → any (item_matches num filter) vs ≡ true
      → apply_to_array num filter (some primary) (codes "replace") (bool true) vs ≡ ok ws
      → primaries ws ≡ matching vs
  primaries-replace vs ws some_match h =
      let e : ws ≡ map made_primary vs =
        cc (apply_to_array-replace num filter (some primary) (bool true) vs some_match) in
      rw e (primaries-made_primary vs)
