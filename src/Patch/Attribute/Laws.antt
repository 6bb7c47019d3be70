-- ===== src/Patch/Attribute/Laws.antt =====
-- PATCH on an attribute path keeps "at most one primary element" in every multi-valued attribute.
use scim_server.Common.{
  ◌≤◌, ◌≡◌, refl, Bool, true, false, not, List, [], ◌∷◌, map, arith, any, keep, Option, none, some,
}
use scim_server.Text.{Text}
use scim_server.Json.{Value, array, to_list}
use scim_server.Error.{ok}
use scim_server.Schema.Primary.{is_primary, drop_primary}
use scim_server.Schema.Primary.Laws.{primaries, primaries-append, is_primary-drop_primary}
use scim_server.Schema.Primary.Enforce.{
  keep_first, enforce_single_primary_lem, primaries-keep_first-le,
}
use scim_server.Patch.Items.{items_match, remove_items_from_array}
use scim_server.Patch.Attribute.{is_multi_valued_attribute, add_elements}

-- A value that is no array, or one with at most one primary element.
abbrev pub OnePrimary : Value → Type 0
OnePrimary (array xs) = primaries (to_list xs) ≤ 1
OnePrimary _ = Unit

abbrev pub IsArray : Value → Type 0
IsArray (array xs) = Unit
IsArray _ = ⊥

-- There is no value, or `P` holds of it.
abbrev pub Opt : (Value → Type 0) → Option Value → Type 0
Opt P none = Unit
Opt P (some v) = P v

primaries-drop_all : (vs : List Value) → primaries (map drop_primary vs) ≡ 0
primaries-drop_all [] = refl
primaries-drop_all (v ∷ vs) = ground (arith, is_primary-drop_primary v, primaries-drop_all vs)

primaries_none : (vs : List Value) → any is_primary vs ≡ false → primaries vs ≡ 0
primaries_none [] h = refl
primaries_none (v ∷ vs) h = ground (arith, primaries_none vs)

pub primaries-keep-le : (p : Value → Bool) (vs : List Value) → primaries (keep p vs) ≤ primaries vs
primaries-keep-le p [] = omega arith
primaries-keep-le p (v ∷ vs) = ground (arith, primaries-keep-le p vs)

pub primaries-remove_items-le :
    (rs vs : List Value) → primaries (remove_items_from_array vs rs) ≤ primaries vs
unfolding remove_items_from_array
primaries-remove_items-le [] vs = omega arith
primaries-remove_items-le (r ∷ rs) vs = omega (
  arith,
  primaries-keep-le (λ v. not (items_match v r)) vs,
  primaries-remove_items-le rs (keep (λ v. not (items_match v r)) vs),
)

-- Elements added to a multi-valued attribute take over its primary element.
pub add_elements-primaries :
    (k : Text) (xs ys zs : List Value)
    → is_multi_valued_attribute k ≡ true
    → primaries xs ≤ 1
    → add_elements k xs ys ≡ ok zs
    → primaries zs ≤ 1
unfolding add_elements
add_elements-primaries k xs ys zs multi few h = ground (
  arith,
  enforce_single_primary_lem ys,
  primaries-keep_first-le ys,
  primaries_none (keep_first ys),
  primaries-drop_all xs,
  primaries-append xs (keep_first ys),
  primaries-append (map drop_primary xs) (keep_first ys),
)
