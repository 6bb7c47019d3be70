-- ===== src/Schema/Primary/Tests.antt =====
-- The unit tests of src/schema/validation.rs, and the theorems at their data.
use scim_server.Common.{◌≡◌, refl, Bool, true, false, List, [], ◌∷◌, update_each, indices}
use scim_server.Text.{codes}
use scim_server.Json.{Value, bool, string, object, field, end, get, remove, value_eq}
use scim_server.Error.{ok}
use scim_server.Schema.Primary.{is_primary, enforce_single_primary}
use scim_server.Schema.Primary.Enforce.{keep_first, enforce_single_primary_lem}

abbrev email : Bool → Value
email b =
    object (
      field (codes "primary") (bool b) (field (codes "value") (string (codes "a@example.com")) end))

abbrev bare : Value
bare = object (field (codes "value") (string (codes "a@example.com")) end)

abbrev two_primary : List Value
two_primary = email true ∷ email false ∷ email true ∷ []

abbrev one_primary : List Value
one_primary = email true ∷ email false ∷ bare ∷ []

test_enforce_single_primary : enforce_single_primary two_primary ≡ ok one_primary
unfolding enforce_single_primary is_primary get remove value_eq indices update_each
test_enforce_single_primary = refl

enforce_single_primary_example : enforce_single_primary two_primary ≡ ok (keep_first two_primary)
enforce_single_primary_example = enforce_single_primary_lem two_primary
