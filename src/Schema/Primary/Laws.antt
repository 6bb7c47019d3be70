-- ===== src/Schema/Primary/Laws.antt =====
-- What validation accepts, by a count of the primary elements.
use scim_server.Common.{
  ℕ, ◌+◌, ◌≤◌, ◌≡◌, refl, ◌↔◌, false, List, [], ◌∷◌, ◌++◌, arith, if◌then◌else◌,
}
use scim_server.Json.{Value, object}
use scim_server.Json.Laws.{get-remove}
use scim_server.Error.{ok}
use scim_server.Schema.Primary.{
  primary, is_primary, drop_primary, count_primary, validate_primary_constraint,
}

-- How many elements are primary.
abbrev pub primaries : List Value → ℕ
primaries [] = 0
primaries (v ∷ vs) = (if is_primary v then 1 else 0) + primaries vs

pub count_primary_lem : (n : ℕ) (vs : List Value) → count_primary n vs ≡ n + primaries vs
unfolding count_primary
count_primary_lem n [] = omega arith
count_primary_lem n (v ∷ vs) =
    ground (arith, count_primary_lem (if is_primary v then n + 1 else n) vs)

-- Validation accepts an array exactly if at most one of its elements is primary.
pub validate_primary_constraint_iff :
    (vs : List Value) → (validate_primary_constraint vs ≡ ok tt) ↔ (primaries vs ≤ 1)
unfolding validate_primary_constraint
validate_primary_constraint_iff vs = ground (arith, count_primary_lem 0 vs)

pub is_primary-drop_primary : (v : Value) → is_primary (drop_primary v) ≡ false
unfolding is_primary drop_primary
is_primary-drop_primary (object m) = rw (is_primary, get-remove primary primary m)
is_primary-drop_primary _ = refl

pub primaries-append : (vs ws : List Value) → primaries (vs ++ ws) ≡ primaries vs + primaries ws
primaries-append [] ws = omega arith
primaries-append (v ∷ vs) ws = omega (arith, primaries-append vs ws)
