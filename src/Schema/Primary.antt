-- ===== src/Schema/Primary.antt =====
-- `validate_primary_constraint`, `validate_user_primary_constraints` and `enforce_single_primary`
-- of src/schema/validation.rs: a multi-valued attribute has at most one element with primary=true.
pub mod Laws
pub mod Enforce
mod Tests
use scim_server.Common.{
  ℕ, zero, suc, ◌+◌, Bool, true, false, Option, none, some, List, [], ◌∷◌, ltb, if◌then◌else◌,
  indices, update_each,
}
use scim_server.Text.{Text, codes}
use scim_server.Json.{Value, Fields, bool, array, object, get, remove, value_eq, to_list}
use scim_server.Error.{AppResult, ok, err, bad_request, ◌>>=◌}

abbrev pub primary : Text
primary = codes "primary"

-- The test on an element of both loops: an object whose `primary` is `true`.
unfoldable pub is_primary : Value → Bool
is_primary (object m) = elim (get primary m) [ none ↦ false | some v ↦ value_eq v (bool true) ]
is_primary _ = false

-- The loop of `validate_primary_constraint`.
unfoldable pub count_primary : ℕ → List Value → ℕ
count_primary n [] = n
count_primary n (v ∷ vs) = count_primary (if is_primary v then n + 1 else n) vs

unfoldable pub validate_primary_constraint : List Value → AppResult (Unit {0})
validate_primary_constraint vs =
    if ltb 1 (count_primary 0 vs)
    then err
        (bad_request (codes "At most one element can have primary=true in multi-valued attribute"))
    else ok tt

-- The multi-valued attributes that `validate_user_primary_constraints` checks, in its order.
abbrev pub checked_attributes : List Text
checked_attributes =
    codes "emails"
    ∷ codes "phoneNumbers"
    ∷ codes "addresses"
    ∷ codes "photos"
    ∷ codes "ims"
    ∷ codes "entitlements"
    ∷ codes "roles"
    ∷ codes "x509Certificates"
    ∷ []

-- One `if let Some(attr) … if let Value::Array(arr)` of it.
unfoldable pub check_attribute : Fields → Text → AppResult (Unit {0})
check_attribute m k = elim (get k m) [
  | some (array xs) ↦ validate_primary_constraint (to_list xs)
  | _ ↦ ok tt
]

-- All of them, in their order: the first failure is the result.
unfoldable pub check_attributes : Fields → List Text → AppResult (Unit {0})
check_attributes m [] = ok tt
check_attributes m (k ∷ ks) = check_attribute m k >>= λ _. check_attributes m ks

unfoldable pub validate_user_primary_constraints : Value → AppResult (Unit {0})
validate_user_primary_constraints (object m) = check_attributes m checked_attributes
validate_user_primary_constraints _ = ok tt

-- `if let Value::Object(obj) = v { obj.remove("primary"); }`
unfoldable pub drop_primary : Value → Value
drop_primary (object m) = object (remove primary m)
drop_primary v = v

-- The first loop collects the indices of the primary elements; the second one visits
-- `&primary_indices[1..]`.
unfoldable pub enforce_single_primary : List Value → AppResult (List Value)
unfolding drop_primary
enforce_single_primary vs = elim (indices is_primary 0 vs) [
  | i ∷ j ∷ is ↦ ok (update_each drop_primary (j ∷ is) vs)
  | _ ↦ ok vs
]
