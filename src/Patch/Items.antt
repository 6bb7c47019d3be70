-- ===== src/Patch/Items.antt =====
-- `remove_items_from_array`, `items_match` and `objects_match_partially`: the selective removal of
-- array elements by a PATCH remove with a value.
pub mod Laws
mod Tests
use scim_server.Common.{
  Bool, true, false, not, ◌&&◌, Option, none, some, List, [], ◌∷◌, nat_eq, if◌then◌else◌, keep,
}
use scim_server.Text.{Text, ◌==◌, codes}
use scim_server.Json.{
  Value, Fields, end, field, object, get, get_key, len, value_eq, as_str, is_object,
}

-- The loop over the entries of the removed object.
unfoldable pub fields_match : Fields → Fields → Bool
fields_match existing end = true
fields_match existing (field k v m) = elim (get k existing) [
  | none ↦ false
  | some w ↦ value_eq w v && fields_match existing m
]

unfoldable pub objects_match_partially : Value → Value → Bool
unfolding fields_match
objects_match_partially (object m) (object n) = fields_match m n
objects_match_partially _ _ = false

-- `item.get(k).and_then(|v| v.as_str())`
abbrev pub get_str : Text → Value → Option Text
get_str k v = elim (get_key k v) [ none ↦ none | some w ↦ as_str w ]

-- Two texts that are both there.
abbrev both : Option Text → Option Text → Option (Text × Text)
both (some a) (some b) = some (a, b)
both _ _ = none

-- `remove_item.as_object().is_some_and(|obj| obj.len() == 1)`
abbrev has_one_field : Value → Bool
has_one_field (object m) = nat_eq (len m) 1
has_one_field _ = false

-- Strategies 3 and 4.
abbrev match_whole : Value → Value → Bool
match_whole existing removed =
    if is_object existing && is_object removed
    then objects_match_partially existing removed
    else value_eq existing removed

-- Strategy 2: by `type`, where the two types agree.
abbrev match_type : Value → Value → Bool
match_type existing removed =
    elim (both (get_str (codes "type") existing) (get_str (codes "type") removed)) [
      | some (a, b) ↦
          if a == b
          then (if has_one_field removed then true else objects_match_partially existing removed)
          else match_whole existing removed
      | none ↦ match_whole existing removed
    ]

-- Strategy 1 first: by `value`.
unfoldable pub items_match : Value → Value → Bool
unfolding objects_match_partially
items_match existing removed =
    elim (both (get_str (codes "value") existing) (get_str (codes "value") removed)) [
      | some (a, b) ↦ a == b
      | none ↦ match_type existing removed
    ]

-- `retain` for each of the items to remove, in turn.
unfoldable pub remove_items_from_array : List Value → List Value → List Value
remove_items_from_array existing [] = existing
remove_items_from_array existing (r ∷ rs) =
    remove_items_from_array (keep (λ v. not (items_match v r)) existing) rs
