-- ===== src/Patch/Attribute/Keeps.antt =====
-- What an operation on an attribute path does to the attributes of the resource.
use scim_server.Common.{
  ◌≡◌, subst, true, ◌&&◌, List, [], ◌∷◌, arith, if◌then◌else◌, Option, none, some, Bool-cases,
  Option-cases, inl, inr,
}
use native.Mathlib.Nat.{le_trans}
use scim_server.Text.{Text, ◌==◌, codes}
use scim_server.Text.Laws.{eq_iff}
use scim_server.Json.{Value, Fields, Items, object, array, get, insert, remove, to_list, from_list}
use scim_server.Json.Laws.{get-insert, get-remove, to_list-from_list}
use scim_server.Error.{ok, >>=-Steps}
use scim_server.Config.{CompatibilityConfig}
use scim_server.Schema.Primary.{enforce_single_primary}
use scim_server.Schema.Primary.Enforce.{
  keep_first, enforce_single_primary_lem, primaries-keep_first-le,
}
use scim_server.Patch.Items.{remove_items_from_array}
use scim_server.Patch.Attribute.{
  is_multi_valued_attribute, add_elements, add_new, add_existing, apply_add, replace_multi,
  replaced, set_or_remove, remove_selected, is_empty_value, apply_replace, apply_remove,
  apply_final,
}
use scim_server.Patch.Attribute.Laws.{
  OnePrimary, IsArray, Opt, add_elements-primaries, primaries-remove_items-le,
}

-- `m'` is `m` with another value, or none, at the key `k`; if `k` is a multi-valued attribute that
-- had at most one primary element it still has.
pub record Sets (k : Text) (m m' : Fields) : Type 0 where
  pub value : Option Value
  pub others : (j : Text) → get j m' ≡ (if k == j then value else get j m)
  pub one :
      is_multi_valued_attribute k ≡ true
      → Opt OnePrimary (get k m)
      → Opt IsArray (get k m)
      → Opt OnePrimary value

pub insert-Sets :
    (k : Text) (m : Fields) (w : Value)
    → (is_multi_valued_attribute k ≡ true
        → Opt OnePrimary (get k m)
        → Opt IsArray (get k m)
        → OnePrimary w)
    → Sets k m (insert k w m)
insert-Sets k m w one = record { value = some w; others = λ j. get-insert k j w m; one = one }

remove-Sets : (k : Text) (m : Fields) → Sets k m (remove k m)
remove-Sets k m = record { value = none; others = λ j. get-remove k j m; one = λ _ _ _. tt }

OnePrimary-enforced :
    (vs ws : List Value) → enforce_single_primary vs ≡ ok ws → OnePrimary (array (from_list ws))
OnePrimary-enforced vs ws h =
    let e : ws ≡ keep_first vs = cc (enforce_single_primary_lem vs) in
    rw (to_list-from_list ws, e) (primaries-keep_first-le vs)

add_new-OnePrimary :
    (k : Text) (v w : Value)
    → is_multi_valued_attribute k ≡ true
    → add_new k v ≡ ok w
    → OnePrimary w
unfolding add_new
add_new-OnePrimary k (array xs) w multi h =
    let e : array (from_list (keep_first (to_list xs))) ≡ w =
      ground (arith, enforce_single_primary_lem (to_list xs)) in
    rw (← e, to_list-from_list (keep_first (to_list xs))) (primaries-keep_first-le (to_list xs))
add_new-OnePrimary k v w multi h = let e : v ≡ w = cc in subst OnePrimary e tt

add_existing-OnePrimary :
    (k : Text) (old v w : Value)
    → is_multi_valued_attribute k ≡ true
    → OnePrimary old
    → IsArray old
    → add_existing k old v ≡ ok w
    → OnePrimary w
unfolding add_existing
add_existing-OnePrimary k (array xs) (array ys) w multi few is h =
    let (zs, p, q) = >>=-Steps (add_elements k (to_list xs) (to_list ys)) _ h in
    let same : array (from_list zs) ≡ w = cc in
    subst OnePrimary same (
      rw (to_list-from_list zs) (add_elements-primaries k (to_list xs) (to_list ys) zs multi few p))
add_existing-OnePrimary k (array xs) v w multi few is h =
    let e : v ≡ w = cc in subst OnePrimary e tt
add_existing-OnePrimary k old v w multi few is h = absurd is

-- "add"
apply_add-Sets : (k : Text) (m m' : Fields) (v : Value) → apply_add m k v ≡ ok m' → Sets k m m'
unfolding apply_add
apply_add-Sets k m m' v h = elim (Option-cases (get k m)) [
  | inl e ↦
      let (w, p, q) =
        >>=-Steps (add_new k v) (λ (x : Value). ok (insert k x m)) (rw (e, apply_add) at h) in
      let same : insert k w m ≡ m' = cc in
      subst (Sets k m) same (insert-Sets k m w (λ multi _ _. add_new-OnePrimary k v w multi p))
  | inr (old, e) ↦
      let (w, p, q) =
        >>=-Steps (add_existing k old v) (λ (x : Value). ok (insert k x m))
          (rw (e, apply_add) at h) in
      let same : insert k w m ≡ m' = cc in
      subst (Sets k m) same (
        insert-Sets k m w
          (λ multi few is. add_existing-OnePrimary k old v w multi (rw e at few) (rw e at is) p))
]

replace_multi-OnePrimary :
    (config : CompatibilityConfig) (vs : List Value) (o : Option Value)
    → replace_multi config vs ≡ ok o
    → Opt OnePrimary o
unfolding replace_multi
replace_multi-OnePrimary config [] o h = let e : none ≡ o = cc in subst (Opt OnePrimary) e tt
replace_multi-OnePrimary config (v ∷ vs) o h =
    elim (Bool-cases (is_empty_value (v ∷ vs) && config.support_patch_replace_empty_value)) [
      | inl y ↦
          let g : ok none ≡ ok o = rw (y, replace_multi) at h in
          let e : none ≡ o = cc in subst (Opt OnePrimary) e tt
      | inr n ↦
          let (ws, p, q) =
            >>=-Steps (enforce_single_primary (v ∷ vs))
              (λ (x : List Value). ok (some (array (from_list x)))) (rw (n, replace_multi) at h) in
          let e : some (array (from_list ws)) ≡ o = cc in
          subst (Opt OnePrimary) e (OnePrimary-enforced (v ∷ vs) ws p)
    ]

replaced-OnePrimary :
    (config : CompatibilityConfig) (k : Text) (v : Value) (o : Option Value)
    → is_multi_valued_attribute k ≡ true
    → replaced config k v ≡ ok o
    → Opt OnePrimary o
replaced-OnePrimary config k (array xs) o multi h =
    replace_multi-OnePrimary config (to_list xs) o (rw multi at h)
replaced-OnePrimary config k v o multi h = let e : some v ≡ o = cc in subst (Opt OnePrimary) e tt

set_or_remove-Sets :
    (k : Text) (m : Fields) (o : Option Value)
    → (is_multi_valued_attribute k ≡ true → Opt OnePrimary o)
    → Sets k m (set_or_remove k o m)
set_or_remove-Sets k m none one = remove-Sets k m
set_or_remove-Sets k m (some w) one = insert-Sets k m w (λ multi _ _. one multi)

-- "replace"
apply_replace-Sets :
    (config : CompatibilityConfig) (k : Text) (m m' : Fields) (v : Value)
    → apply_replace config m k v ≡ ok m'
    → Sets k m m'
unfolding apply_replace
apply_replace-Sets config k m m' v h =
    let (o, p, q) =
      >>=-Steps (replaced config k v) (λ (x : Option Value). ok (set_or_remove k x m)) h in
    let same : set_or_remove k o m ≡ m' = cc in
    subst (Sets k m) same
      (set_or_remove-Sets k m o (λ multi. replaced-OnePrimary config k v o multi p))

same-Sets : (k : Text) (m : Fields) → Sets k m m
same-Sets k m = record {
  value = get k m;
  others = λ j. ground (arith, eq_iff k j);
  one = λ _ few _. few;
}

remove_selected-Sets :
    (k : Text) (m : Fields) (rs : Items) (old : Value)
    → get k m ≡ some old
    → Sets k m (remove_selected m k rs old)
remove_selected-Sets k m rs (array xs) e = insert-Sets k m _ (λ _ few _.
    rw (to_list-from_list (remove_items_from_array (to_list xs) (to_list rs)))
      (le_trans (primaries-remove_items-le (to_list rs) (to_list xs)) (rw e at few)))
remove_selected-Sets k m rs _ e = same-Sets k m

-- "remove"
apply_remove-Sets : (k : Text) (m : Fields) (v : Value) → Sets k m (apply_remove m k v)
unfolding apply_remove
apply_remove-Sets k m (array rs) = elim (Option-cases (get k m)) [
  | inl e ↦ rw (e, apply_remove) (same-Sets k m)
  | inr (old, e) ↦ rw (e, apply_remove) (remove_selected-Sets k m rs old e)
]
apply_remove-Sets k m v = remove-Sets k m

-- `r` is an object that differs from `m` as `Sets` says.
abbrev pub SetsIn : Text → Fields → Value → Type 0
SetsIn k m r = (m' : Fields) × (r ≡ object m') × Sets k m m'

pub apply_final-SetsIn :
    (config : CompatibilityConfig) (k op : Text) (m : Fields) (v r : Value)
    → apply_final config (object m) k op v ≡ ok r
    → SetsIn k m r
unfolding apply_final
apply_final-SetsIn config k op m v r h = elim (Bool-cases (op == codes "add")) [
  | inl add ↦
      let (m', p, q) =
        >>=-Steps (apply_add m k v) (λ (x : Fields). ok (object x)) (rw (add, apply_final) at h) in
      (m', cc, apply_add-Sets k m m' v p)
  | inr not_add ↦ elim (Bool-cases (op == codes "replace")) [
    | inl replace ↦
        let (m', p, q) =
          >>=-Steps (apply_replace config m k v) (λ (x : Fields). ok (object x))
            (rw (not_add, replace, apply_final) at h) in
        (m', cc, apply_replace-Sets config k m m' v p)
    | inr not_replace ↦ elim (Bool-cases (op == codes "remove")) [
      | inl remove ↦ (
        apply_remove m k v,
        cc (rw (not_add, not_replace, remove, apply_final) at h),
        apply_remove-Sets k m v,
      )
      | inr not_remove ↦ cc (rw (not_add, not_replace, not_remove, apply_final) at h)
    ]
  ]
]
