-- ===== src/Schema/Primary/Enforce.antt =====
-- `enforce_single_primary` keeps the first primary element and clears the others.
use scim_server.Common.{
  ℕ, suc, ◌≤◌, ◌≡◌, refl, ap, ◌∙◌, List, [], ◌∷◌, map, arith, if◌then◌else◌, indices, update_each,
  indices-suc, update_each-suc, update_each-shift, update_each-indices, where_holds,
}
use scim_server.Json.{Value}
use scim_server.Error.{ok}
use scim_server.Schema.Primary.{
  is_primary, drop_primary, enforce_single_primary, validate_primary_constraint,
}
use scim_server.Schema.Primary.Laws.{
  primaries, is_primary-drop_primary, validate_primary_constraint_iff,
}

-- One pass: up to and with the first primary element nothing changes, all later ones are cleared.
abbrev pub keep_first : List Value → List Value
keep_first [] = []
keep_first (v ∷ vs) =
    let rest = keep_first vs in
    if is_primary v then v ∷ map (where_holds is_primary drop_primary) vs else v ∷ rest

-- What is left after the second loop, given the indices of the first.
kept : List ℕ → List Value → List Value
kept [] vs = vs
kept (i ∷ is) vs = update_each drop_primary is vs

kept-suc : (is : List ℕ) (v : Value) (vs : List Value) → kept (map suc is) (v ∷ vs) ≡ v ∷ kept is vs
unfolding kept
kept-suc [] v vs = refl
kept-suc (i ∷ is) v vs = update_each-suc drop_primary is v vs

kept-shift :
    (v : Value) (vs : List Value)
    → kept (indices is_primary 1 vs) (v ∷ vs) ≡ v ∷ kept (indices is_primary 0 vs) vs
kept-shift v vs = rw (indices-suc is_primary 0 vs) (kept-suc (indices is_primary 0 vs) v vs)

kept-eq-keep_first : (vs : List Value) → kept (indices is_primary 0 vs) vs ≡ keep_first vs
unfolding kept indices
kept-eq-keep_first [] = refl
kept-eq-keep_first (v ∷ vs) = ground (
  arith,
  kept-shift v vs,
  update_each-shift is_primary drop_primary v vs,
  update_each-indices is_primary drop_primary vs,
  kept-eq-keep_first vs,
)

enforce-eq-kept :
    (vs : List Value) → enforce_single_primary vs ≡ ok (kept (indices is_primary 0 vs) vs)
unfolding enforce_single_primary kept update_each
enforce-eq-kept vs = ground arith

-- The index loops of the program and the one pass have the same result.
pub enforce_single_primary_lem : (vs : List Value) → enforce_single_primary vs ≡ ok (keep_first vs)
enforce_single_primary_lem vs = enforce-eq-kept vs ∙ ap ok (kept-eq-keep_first vs)

primaries-cleared : (vs : List Value) → primaries (map (where_holds is_primary drop_primary) vs) ≡ 0
primaries-cleared [] = refl
primaries-cleared (v ∷ vs) = ground (arith, is_primary-drop_primary v, primaries-cleared vs)

pub primaries-keep_first-le : (vs : List Value) → primaries (keep_first vs) ≤ 1
primaries-keep_first-le [] = omega arith
primaries-keep_first-le (v ∷ vs) = ground (arith, primaries-cleared vs, primaries-keep_first-le vs)

-- Where at most one element is primary, nothing changes.
map_cleared_same :
    (vs : List Value) → primaries vs ≡ 0 → map (where_holds is_primary drop_primary) vs ≡ vs
map_cleared_same [] h = refl
map_cleared_same (v ∷ vs) h = ground (arith, map_cleared_same vs)

pub keep_first_same : (vs : List Value) → primaries vs ≤ 1 → keep_first vs ≡ vs
keep_first_same [] h = refl
keep_first_same (v ∷ vs) h = ground (arith, map_cleared_same vs, keep_first_same vs)

-- What `enforce_single_primary` returns passes validation, and enforcing again changes nothing.
pub enforce_single_primary-validates :
    (vs ws : List Value)
    → enforce_single_primary vs ≡ ok ws
    → (validate_primary_constraint ws ≡ ok tt) × (enforce_single_primary ws ≡ ok ws)
enforce_single_primary-validates vs ws h =
    let e : ws ≡ keep_first vs = cc (enforce_single_primary_lem vs) in
    let few : primaries ws ≤ 1 = rw e (primaries-keep_first-le vs) in
    (
      (validate_primary_constraint_iff ws).1 few,
      enforce_single_primary_lem ws ∙ ap ok (keep_first_same ws few),
    )
