-- ===== src/Patch/ValuePath/Laws.antt =====
-- A value path changes exactly the elements that its filter matches.
use scim_server.Common.{
  ℕ, suc, ◌≤◌, ◌<◌, ◌≡◌, refl, ◌∙◌, sym, ap, Bool, true, false, not, ◌&&◌, List, [], ◌∷◌, map,
  arith, keep, any, indices, update_each, update_each-indices, remove_each_rev-indices, where_holds,
  nat_eq, if◌then◌else◌, Option, none, some, indices_some, indices_none, map_same,
}
use scim_server.Text.{Text, ◌==◌, codes}
use scim_server.Json.{Value, bool, value_eq}
use scim_server.Error.{AppError, ok, err}
use scim_server.Filter.{FilterOperator}
use scim_server.Filter.Eval.{NumberCmp}
use scim_server.Schema.Primary.{primary, drop_primary}
use scim_server.Patch.ValuePath.{
  replace_item, remove_sub, clear_others, primary_rule, item_matches, replace_items, apply_to_array,
  no_match,
}

module _ {ℓ} {A : Type ℓ} where
  indices_below :
      (p : A → Bool) (n i : ℕ) (vs : List A) → n < i → any (nat_eq n) (indices p i vs) ≡ false
  unfolding indices
  indices_below p n i [] h = refl
  indices_below p n i (v ∷ vs) h = ground (arith, indices_below p n (suc i) vs)

-- Clearing outside the collected indices, in terms of the test that collected them.
clear_others-indices :
    (p : Value → Bool) (g : Value → Value) (i : ℕ) (ns : List ℕ) (vs : List Value)
    → ((n : ℕ) → i ≤ n → any (nat_eq n) ns ≡ any (nat_eq n) (indices p i vs))
    → clear_others ns i (map g vs) ≡ map (λ v. if p v then g v else drop_primary (g v)) vs
unfolding clear_others indices
clear_others-indices p g i ns [] h = refl
clear_others-indices p g i ns (v ∷ vs) h = ground (
  arith,
  h i,
  indices_below p i (suc i) vs,
  clear_others-indices p g (suc i) ns vs (λ n le. ground (arith, h n)),
)

-- The primary rule applies to a "replace" of the sub-attribute `primary` by `true`.
abbrev pub sets_primary : Option Text → Value → Bool
sets_primary none v = false
sets_primary (some sub) v = sub == primary && value_eq v (bool true)

module _ (num : NumberCmp) (filter : FilterOperator) where
  -- "remove" without a sub-attribute keeps, in their order, the elements that do not match.
  pub apply_to_array-remove :
      (v : Value) (vs : List Value)
      → apply_to_array num filter none (codes "remove") v vs
        ≡ ok (keep (λ x. not (item_matches num filter x)) vs)
  unfolding apply_to_array
  apply_to_array-remove v vs = rw remove_each_rev-indices

  -- "remove" of a sub-attribute takes it from the elements that match, and leaves the others.
  pub apply_to_array-remove_sub :
      (sub : Text) (v : Value) (vs : List Value)
      → apply_to_array num filter (some sub) (codes "remove") v vs
        ≡ ok (map (where_holds (item_matches num filter) (remove_sub sub)) vs)
  unfolding apply_to_array
  apply_to_array-remove_sub sub v vs =
      ground (arith, update_each-indices (item_matches num filter) (remove_sub sub) vs)

  replace_items_lem :
      (sub : Option Text) (v : Value) (vs : List Value)
      → any (item_matches num filter) vs ≡ true
      → replace_items num filter sub v (indices (item_matches num filter) 0 vs) vs
        ≡ ok (map (where_holds (item_matches num filter) (replace_item filter sub v)) vs)
  unfolding replace_items
  replace_items_lem sub v vs h =
      let p = item_matches num filter in
      let f = replace_item filter sub v in
      let (j, js, e) = indices_some p 0 vs h in
      rw (e, replace_items)
        (ap ok (ap (λ is. update_each f is vs) (sym e) ∙ update_each-indices p f vs))

  clear_others-if :
      (b : Bool) (g : Value → Value) (vs : List Value)
      → let p = item_matches num filter in
        (if b then clear_others (indices p 0 vs) 0 (map g vs) else map g vs)
        ≡ map (λ x. if p x then g x else if b then drop_primary (g x) else g x) vs
  clear_others-if true g vs =
      let p = item_matches num filter in
      clear_others-indices p g 0 (indices p 0 vs) vs (λ n le. refl)
  clear_others-if false g vs = map_same g _ (λ x. ground arith) vs

  primary_rule-replace :
      (sub : Option Text) (v : Value) (g : Value → Value) (vs : List Value)
      → let p = item_matches num filter in
        primary_rule sub (codes "replace") v (indices p 0 vs) (map g vs)
        ≡ map (λ x. if p x then g x else if sets_primary sub v then drop_primary (g x) else g x) vs
  unfolding primary_rule
  primary_rule-replace none v g vs = clear_others-if false g vs
  primary_rule-replace (some sub) v g vs =
      ground (arith, clear_others-if (sub == primary && value_eq v (bool true)) g vs)

  -- "replace" changes exactly the elements that match; if it sets `primary` to true it takes
  -- `primary` from all others.
  pub apply_to_array-replace :
      (sub : Option Text) (v : Value) (vs : List Value)
      → any (item_matches num filter) vs ≡ true
      → apply_to_array num filter sub (codes "replace") v vs
        ≡ ok (
            map
              (λ x.
                if item_matches num filter x
                then replace_item filter sub v x
                else if sets_primary sub v
                then drop_primary x
                else x)
              vs)
  unfolding apply_to_array
  apply_to_array-replace sub v vs h =
      rw (replace_items_lem sub v vs h)
        (ap ok (primary_rule-replace sub v _ vs ∙ map_same _ _ (λ x. ground arith) vs))

  -- "replace" where nothing matches is refused.
  pub apply_to_array-no_match :
      (sub : Option Text) (v : Value) (vs : List Value)
      → any (item_matches num filter) vs ≡ false
      → (e : AppError) × (apply_to_array num filter sub (codes "replace") v vs ≡ err e)
  unfolding apply_to_array no_match
  apply_to_array-no_match sub v vs h = rw (indices_none (item_matches num filter) 0 vs h) (_, refl)
