-- ===== src/Json/Laws.antt =====
-- Laws of the map operations.
use scim_server.Common.{
  ◌≡◌, refl, Bool, true, false, Option, none, some, List, [], ◌∷◌, arith, if◌then◌else◌, ap,
}
use scim_server.Text.{Text, ◌==◌}
use scim_server.Text.Laws.{eq_iff, cmp_beq}
use scim_server.Json.{
  Value, Items, Fields, end, field, nil, cons, get, insert, remove, contains_key, to_list,
  from_list,
}

abbrev pub is_some {ℓ} : {A : Type ℓ} → Option A → Bool
is_some none = false
is_some (some a) = true

pub get-insert :
    (k j : Text) (v : Value) (m : Fields)
    → get j (insert k v m) ≡ (if k == j then some v else get j m)
unfolding get insert
get-insert k j v end = refl
get-insert k j v (field i w m) =
    ground (arith, cmp_beq k i, eq_iff k i, eq_iff i j, eq_iff k j, get-insert k j v m)

pub get-remove : (k j : Text) (m : Fields) → get j (remove k m) ≡ (if k == j then none else get j m)
unfolding get remove
get-remove k j end = ground arith
get-remove k j (field i w m) = ground (arith, eq_iff i k, eq_iff i j, eq_iff k j, get-remove k j m)

pub contains_key-get : (k : Text) (m : Fields) → contains_key k m ≡ is_some (get k m)
unfolding contains_key get
contains_key-get k end = refl
contains_key-get k (field j v m) = ground (arith, contains_key-get k m)

pub to_list-from_list : (vs : List Value) → to_list (from_list vs) ≡ vs
to_list-from_list [] = refl
to_list-from_list (v ∷ vs) = ap (λ ws. v ∷ ws) (to_list-from_list vs)

pub from_list-to_list : (xs : Items) → from_list (to_list xs) ≡ xs
from_list-to_list nil = refl
from_list-to_list (cons v xs) = ap (cons v) (from_list-to_list xs)
