-- ===== src/Json/Equality.antt =====
-- `==` of JSON values decides their equality.
use scim_server.Common.{◌≡◌, refl, ◌↔◌, Bool, true, arith, subst}
use scim_server.Text.Laws.{eq_iff, eq_refl}
use scim_server.Json.{
  Value, Items, Fields, Number, null, bool, number, string, array, object, nil, cons, end, field,
  value_eq, items_eq, fields_eq, number_eq, bool_eq,
}

bool_eq_sound : (a b : Bool) → bool_eq a b ≡ true → a ≡ b
bool_eq_sound a b h = ground arith

bool_eq_refl : (a : Bool) → bool_eq a a ≡ true
bool_eq_refl a = ground arith

number_eq_sound : (a b : Number) → number_eq a b ≡ true → a ≡ b
number_eq_sound a b h = ground arith

number_eq_refl : (a : Number) → number_eq a a ≡ true
number_eq_refl a = ground arith

mutual
  unfolding value_eq

  value_sound : (v w : Value) → value_eq v w ≡ true → v ≡ w
  value_sound null w h = ground arith
  value_sound (bool a) (bool b) h = ground (arith, bool_eq_sound a b)
  value_sound (number a) (number b) h = ground (arith, number_eq_sound a b)
  value_sound (string a) (string b) h = ground (arith, eq_iff a b)
  value_sound (array xs) (array ys) h = ground (arith, items_sound xs ys)
  value_sound (object m) (object n) h = ground (arith, fields_sound m n)
  value_sound v w h = cc

  items_sound : (xs ys : Items) → items_eq xs ys ≡ true → xs ≡ ys
  items_sound nil nil h = refl
  items_sound nil (cons w ys) h = cc
  items_sound (cons v xs) nil h = cc
  items_sound (cons v xs) (cons w ys) h = ground (arith, value_sound v w, items_sound xs ys)

  fields_sound : (m n : Fields) → fields_eq m n ≡ true → m ≡ n
  fields_sound end end h = refl
  fields_sound end (field j w n) h = cc
  fields_sound (field k v m) end h = cc
  fields_sound (field k v m) (field j w n) h =
      ground (arith, eq_iff k j, value_sound v w, fields_sound m n)

mutual
  unfolding value_eq

  value_refl : (v : Value) → value_eq v v ≡ true
  value_refl null = refl
  value_refl (bool a) = bool_eq_refl a
  value_refl (number a) = number_eq_refl a
  value_refl (string a) = eq_refl a
  value_refl (array xs) = items_refl xs
  value_refl (object m) = fields_refl m

  items_refl : (xs : Items) → items_eq xs xs ≡ true
  items_refl nil = refl
  items_refl (cons v xs) = ground (arith, value_refl v, items_refl xs)

  fields_refl : (m : Fields) → fields_eq m m ≡ true
  fields_refl end = refl
  fields_refl (field k v m) = ground (arith, eq_refl k, value_refl v, fields_refl m)

pub value_eq_refl : (v : Value) → value_eq v v ≡ true
value_eq_refl v = value_refl v

pub value_eq_iff : (v w : Value) → (value_eq v w ≡ true) ↔ (v ≡ w)
value_eq_iff v w = (value_sound v w, λ e. subst (λ x. value_eq v x ≡ true) e (value_refl v))
