-- ===== src/Response/Nulls.antt =====
-- `AttributeFilter::remove_null_fields`: a response has no null attributes.
pub mod Laws
mod Tests
use scim_server.Common.{Bool, true, false, ◌||◌, if◌then◌else◌}
use scim_server.Text.{Text, ◌==◌, codes}
use scim_server.Json.{
  Value, Items, Fields, null, array, object, nil, cons, end, field, is_empty, is_null,
}

-- The test on a cleaned element of an attribute's array.
abbrev pub keeps_element : Value → Bool
keeps_element null = false
keeps_element (object end) = false
keeps_element _ = true

abbrev pub is_nil : Items → Bool
is_nil nil = true
is_nil (cons v xs) = false

-- The attributes that are shown as an empty array.
unfoldable pub shows_empty : Text → Bool
shows_empty k = k == codes "members" || k == codes "groups"

-- The entries come in the order of their keys, so that `insert` puts each one behind the others.
unfoldable mutual
  pub remove_null_fields : Value → Value
  remove_null_fields (object m) = object (clean_fields m)
  remove_null_fields (array xs) = array (clean_items xs)
  remove_null_fields v = v

  -- The loop over an object's entries.
  pub clean_fields : Fields → Fields
  clean_fields end = end
  clean_fields (field k null m) = clean_fields m
  clean_fields (field k (object n) m) =
      let inner = clean_fields n in
      let rest = clean_fields m in if is_empty inner then rest else field k (object inner) rest
  clean_fields (field k (array xs) m) =
      let cleaned = clean_elements xs in
      let rest = clean_fields m in
      if shows_empty k
      then field k (array cleaned) rest
      else if is_nil cleaned
      then rest
      else field k (array cleaned) rest
  clean_fields (field k v m) = field k v (clean_fields m)

  -- The elements of an attribute's array.
  pub clean_elements : Items → Items
  clean_elements nil = nil
  clean_elements (cons v xs) =
      let cleaned = remove_null_fields v in
      let rest = clean_elements xs in if keeps_element cleaned then cons cleaned rest else rest

  -- The elements of an array that is no attribute's value.
  pub clean_items : Items → Items
  clean_items nil = nil
  clean_items (cons v xs) =
      let cleaned = remove_null_fields v in
      let rest = clean_items xs in if is_null cleaned then rest else cons cleaned rest
