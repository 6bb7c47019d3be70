-- ===== src/Patch/ValuePath/Frame.antt =====
-- A value path operation changes one attribute of the resource, and that only where it is there.
use scim_server.Common.{◌≡◌, ◌≢◌, refl, List, ◌∷◌, arith, Option, none, Option-cases, inl, inr}
use scim_server.Text.{Text}
use scim_server.Text.Laws.{eq_iff}
use scim_server.Json.{Value, Fields, object, get, insert}
use scim_server.Json.Laws.{get-insert}
use scim_server.Error.{AppResult, ok, ◌>>=◌, >>=-Steps}
use scim_server.Filter.{FilterOperator}
use scim_server.Filter.Eval.{NumberCmp}
use scim_server.Patch.ValuePath.{apply_value_path_operation}

-- `r` is `m` with another value at the key `k`, which `m` has.
abbrev pub ChangesOnly : Text → Fields → Value → Type 0
ChangesOnly k m r = (m' : Fields) × (r ≡ object m') × ((j : Text) → j ≢ k → get j m' ≡ get j m)

insert-ChangesOnly : (k : Text) (v : Value) (m : Fields) → ChangesOnly k m (object (insert k v m))
insert-ChangesOnly k v m =
    (insert k v m, refl, λ j ne. ground (arith, get-insert k j v m, eq_iff k j))

after_child :
    (k : Text) (m : Fields) (c : AppResult Value) (r : Value)
    → (c >>= (λ child. ok (object (insert k child m)))) ≡ ok r
    → ChangesOnly k m r
after_child k m c r h =
    let (child, p, q) = >>=-Steps c (λ (x : Value). ok (object (insert k x m))) h in
    let e : object (insert k child m) ≡ r = cc in rw (← e) (insert-ChangesOnly k child m)

-- A value path operation that succeeds on an object found the first attribute of the path there;
-- every other attribute is as it was.
pub apply_value_path_operation_frame :
    (num : NumberCmp) (m : Fields) (k : Text) (path : List Text) (filter : FilterOperator)
    (sub : Option Text) (op : Text) (v r : Value)
    → apply_value_path_operation num (object m) (k ∷ path) filter sub op v ≡ ok r
    → (get k m ≢ none) × ChangesOnly k m r
unfolding apply_value_path_operation
apply_value_path_operation_frame num m k path filter sub op v r h = elim (Option-cases (get k m)) [
  | inl e ↦ cc (rw (e, apply_value_path_operation) at h)
  | inr (c, e) ↦ (
    (λ n. cc),
    after_child k m (apply_value_path_operation num c path filter sub op v) r
        (rw (e, apply_value_path_operation) at h),
  )
]
