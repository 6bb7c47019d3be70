-- ===== src/Response/Nulls/Laws.antt =====
-- Removing nulls leaves none, loses nothing else, and is done after one pass.
use scim_server.Common.{◌≡◌, refl, Bool, true, false, not, ◌&&◌, some, arith, if◌then◌else◌}
use scim_server.Text.{Text}
use scim_server.Text.Laws.{eq_iff}
use scim_server.Json.{
  Value, Items, Fields, null, bool, number, string, array, object, nil, cons, end, field, get,
  is_null, is_empty,
}
use scim_server.Response.Nulls.{
  remove_null_fields, clean_fields, clean_elements, clean_items, keeps_element, is_nil, shows_empty,
}

mutual
  unfolding remove_null_fields

  idempotent : (v : Value) → remove_null_fields (remove_null_fields v) ≡ remove_null_fields v
  idempotent null = refl
  idempotent (bool b) = refl
  idempotent (number n) = refl
  idempotent (string s) = refl
  idempotent (array xs) = ground (arith, items_idempotent xs)
  idempotent (object m) = ground (arith, fields_idempotent m)

  fields_idempotent : (m : Fields) → clean_fields (clean_fields m) ≡ clean_fields m
  fields_idempotent end = refl
  fields_idempotent (field k null m) = fields_idempotent m
  fields_idempotent (field k (bool b) m) = ground (arith, fields_idempotent m)
  fields_idempotent (field k (number n) m) = ground (arith, fields_idempotent m)
  fields_idempotent (field k (string s) m) = ground (arith, fields_idempotent m)
  fields_idempotent (field k (array xs) m) =
      ground (arith, fields_idempotent m, elements_idempotent xs)
  fields_idempotent (field k (object n) m) =
      ground (arith, fields_idempotent m, fields_idempotent n)

  elements_idempotent : (xs : Items) → clean_elements (clean_elements xs) ≡ clean_elements xs
  elements_idempotent nil = refl
  elements_idempotent (cons v xs) = ground (arith, idempotent v, elements_idempotent xs)

  items_idempotent : (xs : Items) → clean_items (clean_items xs) ≡ clean_items xs
  items_idempotent nil = refl
  items_idempotent (cons v xs) = ground (arith, idempotent v, items_idempotent xs)

-- Cleaning a clean value changes nothing.
pub remove_null_fields-idempotent :
    (v : Value) → remove_null_fields (remove_null_fields v) ≡ remove_null_fields v
remove_null_fields-idempotent v = idempotent v

-- No object below has a null, no array below has a null element.
unfoldable mutual
  pub no_nulls : Value → Bool
  no_nulls (object m) = no_nulls_fields m
  no_nulls (array xs) = no_nulls_items xs
  no_nulls _ = true

  pub no_nulls_fields : Fields → Bool
  no_nulls_fields end = true
  no_nulls_fields (field k v m) = not (is_null v) && no_nulls v && no_nulls_fields m

  pub no_nulls_items : Items → Bool
  no_nulls_items nil = true
  no_nulls_items (cons v xs) = not (is_null v) && no_nulls v && no_nulls_items xs

keeps_element_not_null : (v : Value) → keeps_element v ≡ true → is_null v ≡ false
keeps_element_not_null v h = ground arith

-- An entry that is put before the others or not.
entry_clean :
    (b c : Bool) (k : Text) (w : Value) (m : Fields)
    → is_null w ≡ false
    → no_nulls w ≡ true
    → no_nulls_fields m ≡ true
    → no_nulls_fields (if b then field k w m else if c then m else field k w m) ≡ true
unfolding no_nulls
entry_clean true c k w m h i j = ground arith
entry_clean false true k w m h i j = j
entry_clean false false k w m h i j = ground arith

mutual
  unfolding remove_null_fields no_nulls

  clean : (v : Value) → no_nulls (remove_null_fields v) ≡ true
  clean null = refl
  clean (bool b) = refl
  clean (number n) = refl
  clean (string s) = refl
  clean (array xs) = items_clean xs
  clean (object m) = fields_clean m

  fields_clean : (m : Fields) → no_nulls_fields (clean_fields m) ≡ true
  fields_clean end = refl
  fields_clean (field k null m) = fields_clean m
  fields_clean (field k (bool b) m) = ground (arith, fields_clean m)
  fields_clean (field k (number n) m) = ground (arith, fields_clean m)
  fields_clean (field k (string s) m) = ground (arith, fields_clean m)
  fields_clean (field k (array xs) m) =
      entry_clean (shows_empty k) (is_nil (clean_elements xs)) k (array (clean_elements xs))
        (clean_fields m) refl (elements_clean xs) (fields_clean m)
  fields_clean (field k (object n) m) =
      entry_clean false (is_empty (clean_fields n)) k (object (clean_fields n)) (clean_fields m)
        refl (fields_clean n) (fields_clean m)

  elements_clean : (xs : Items) → no_nulls_items (clean_elements xs) ≡ true
  elements_clean nil = refl
  elements_clean (cons v xs) =
      ground (arith, clean v, elements_clean xs, keeps_element_not_null (remove_null_fields v))

  items_clean : (xs : Items) → no_nulls_items (clean_items xs) ≡ true
  items_clean nil = refl
  items_clean (cons v xs) = ground (arith, clean v, items_clean xs)

-- What is left has no null below it.
pub remove_null_fields-no_nulls : (v : Value) → no_nulls (remove_null_fields v) ≡ true
remove_null_fields-no_nulls v = clean v

abbrev pub is_scalar : Value → Bool
is_scalar (bool b) = true
is_scalar (number n) = true
is_scalar (string s) = true
is_scalar _ = false

get_entry :
    (k j : Text) (b c : Bool) (u w : Value) (m n : Fields) (v : Value)
    → is_scalar u ≡ false
    → (get k m ≡ some v → is_scalar v ≡ true → get k n ≡ some v)
    → get k (field j u m) ≡ some v
    → is_scalar v ≡ true
    → get k (if b then field j w n else if c then n else field j w n) ≡ some v
unfolding get
get_entry k j true c u w m n v i h g s = ground arith
get_entry k j false true u w m n v i h g s = ground arith
get_entry k j false false u w m n v i h g s = ground arith

-- A string, number or Boolean stays the value of its attribute.
pub get-clean_fields :
    (k : Text) (m : Fields) (v : Value)
    → get k m ≡ some v
    → is_scalar v ≡ true
    → get k (clean_fields m) ≡ some v
unfolding get clean_fields
get-clean_fields k end v h s = cc
get-clean_fields k (field j null m) v h s = ground (arith, eq_iff j k, get-clean_fields k m v)
get-clean_fields k (field j (bool b) m) v h s = ground (arith, eq_iff j k, get-clean_fields k m v)
get-clean_fields k (field j (number b) m) v h s = ground (arith, eq_iff j k, get-clean_fields k m v)
get-clean_fields k (field j (string b) m) v h s = ground (arith, eq_iff j k, get-clean_fields k m v)
get-clean_fields k (field j (array xs) m) v h s =
    get_entry k j (shows_empty j) (is_nil (clean_elements xs)) (array xs)
      (array (clean_elements xs)) m (clean_fields m) v refl (get-clean_fields k m v) h s
get-clean_fields k (field j (object n) m) v h s =
    get_entry k j false (is_empty (clean_fields n)) (object n) (object (clean_fields n)) m
      (clean_fields m) v refl (get-clean_fields k m v) h s
