-- ===== src/Json.antt =====
-- JSON as serde_json represents it: `Value`, its `Map` (a B-tree, so in the order of the keys) and
-- their operations. A map is the list of its entries, as a B-tree iterates them.
pub mod Laws
pub mod Equality
use scim_server.Common.{
  ℕ, zero, suc, Ordering, Bool, true, false, not, ◌&&◌, ◌||◌, Option, none, some, List, [], ◌∷◌,
  nat_eq, if◌then◌else◌,
}
use scim_server.Text.{Text, ◌==◌, cmp, codes}

-- `serde_json::Number`: u64, negative i64 (`neg_int n` is -(n + 1)) or a finite f64, of which only
-- the value is kept, as a code.
pub data Number : Type 0 where
  pos_int : ℕ → Number
  neg_int : ℕ → Number
  float : ℕ → Number

mutual
  pub data Value : Type 0 where
    null : Value
    bool : Bool → Value
    number : Number → Value
    string : Text → Value
    array : Items → Value
    object : Fields → Value

  -- `Map<String, Value>`
  pub data Fields : Type 0 where
    end : Fields
    field : Text → Value → Fields → Fields

  -- `Vec<Value>`
  pub data Items : Type 0 where
    nil : Items
    cons : Value → Items → Items

abbrev pub to_list : Items → List Value
to_list nil = []
to_list (cons v xs) = v ∷ to_list xs

abbrev pub from_list : List Value → Items
from_list [] = nil
from_list (v ∷ vs) = cons v (from_list vs)

-- `obj.get(k)`
unfoldable pub get : Text → Fields → Option Value
get k end = none
get k (field j v m) = if j == k then some v else get k m

-- `obj.contains_key(k)`
unfoldable pub contains_key : Text → Fields → Bool
contains_key k end = false
contains_key k (field j v m) = j == k || contains_key k m

-- `obj.insert(k, v)`: in place of an entry of that key, or in the order of the keys.
unfoldable pub insert : Text → Value → Fields → Fields
unfolding cmp
insert k v end = field k v end
insert k v (field j w m) =
    let rest = insert k v m in
    elim (cmp k j) [
      | Ordering.lt ↦ field k v (field j w m)
      | Ordering.eq ↦ field k v m
      | Ordering.gt ↦ field j w rest
    ]

-- `obj.remove(k)`
unfoldable pub remove : Text → Fields → Fields
remove k end = end
remove k (field j v m) = let rest = remove k m in if j == k then rest else field j v rest

-- `obj.len()`
abbrev pub len : Fields → ℕ
len end = 0
len (field k v m) = suc (len m)

abbrev pub is_empty : Fields → Bool
is_empty end = true
is_empty (field k v m) = false

abbrev pub is_null : Value → Bool
is_null null = true
is_null _ = false

abbrev pub is_array : Value → Bool
is_array (array xs) = true
is_array _ = false

abbrev pub is_object : Value → Bool
is_object (object m) = true
is_object _ = false

abbrev pub as_str : Value → Option Text
as_str (string s) = some s
as_str _ = none

abbrev pub as_object : Value → Option Fields
as_object (object m) = some m
as_object _ = none

-- `value.get(k)` on a `Value`: `None` if it is no object
abbrev pub get_key : Text → Value → Option Value
get_key k (object m) = get k m
get_key k _ = none

abbrev pub bool_eq : Bool → Bool → Bool
bool_eq true b = b
bool_eq false b = not b

abbrev pub number_eq : Number → Number → Bool
number_eq (pos_int a) (pos_int b) = nat_eq a b
number_eq (neg_int a) (neg_int b) = nat_eq a b
number_eq (float a) (float b) = nat_eq a b
number_eq _ _ = false

-- `==` of `Value`
unfoldable mutual
  pub value_eq : Value → Value → Bool
  value_eq null w = is_null w
  value_eq (bool a) w = elim w [ bool b ↦ bool_eq a b | _ ↦ false ]
  value_eq (number a) w = elim w [ number b ↦ number_eq a b | _ ↦ false ]
  value_eq (string a) w = elim w [ string b ↦ a == b | _ ↦ false ]
  value_eq (array xs) w = elim w [ array ys ↦ items_eq xs ys | _ ↦ false ]
  value_eq (object m) w = elim w [ object n ↦ fields_eq m n | _ ↦ false ]

  pub items_eq : Items → Items → Bool
  items_eq nil nil = true
  items_eq nil (cons w ys) = false
  items_eq (cons v xs) nil = false
  items_eq (cons v xs) (cons w ys) = value_eq v w && items_eq xs ys

  pub fields_eq : Fields → Fields → Bool
  fields_eq end end = true
  fields_eq end (field j w n) = false
  fields_eq (field k v m) end = false
  fields_eq (field k v m) (field j w n) = k == j && value_eq v w && fields_eq m n
