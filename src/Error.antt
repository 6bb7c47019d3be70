-- ===== src/Error.antt =====
-- `AppError` and `AppResult` of src/error.rs, and the HTTP status of an error.
use scim_server.Common.{if◌then◌else◌, ℕ, ◌≢◌, ◌≡◌, refl, Bool, true, false, Option, none, some}
use scim_server.Text.{Text, codes}

-- The errors of rusqlite and serde_json are kept as their messages.
pub data AppError : Type 0 where
  database : Text → AppError
  rusqlite : Text → AppError
  serialization : Text → AppError
  bad_request : Text → AppError
  conflict : Text → AppError
  internal : Text → AppError
  filter_parse : Text → AppError
  configuration : Text → AppError
  precondition_failed : AppError

-- `panicked` is a thread's panic; `out_of_fuel` has no counterpart in the program.
pub data AppResult {ℓ} (A : Type ℓ) : Type ℓ where
  ok : A → AppResult A
  err : AppError → AppResult A
  panicked : AppResult A
  out_of_fuel : AppResult A

-- `e?`
infixl 5 ◌>>=◌
abbrev pub ◌>>=◌ {ℓ κ} : {A : Type ℓ} {B : Type κ} → AppResult A → (A → AppResult B) → AppResult B
ok a >>= f = f a
err e >>= f = err e
panicked >>= f = panicked
out_of_fuel >>= f = out_of_fuel

abbrev pub guard_some {ℓ} : {A : Type ℓ} → Option A → AppError → AppResult A
guard_some none e = err e
guard_some (some a) e = ok a

-- The status code of `to_response`.
unfoldable pub status_code : AppError → ℕ
status_code (bad_request e) = 400
status_code (filter_parse e) = 400
status_code (conflict e) = 409
status_code precondition_failed = 412
status_code _ = 500

-- The `scimType` of the response, where it has one.
unfoldable pub scim_type : AppError → Option Text
scim_type (conflict e) = some (codes "uniqueness")
scim_type precondition_failed = some (codes "preconditionFailed")
scim_type _ = none

-- A step `m` of a chain that ends in `y` hands on a value from which the rest makes `y`.
abbrev pub Steps {ℓ κ} :
    {X : Type ℓ} {Y : Type κ} → AppResult X → (X → AppResult Y) → Y → Type (ℓ ⊔ κ)
Steps {X} m rest y = (x : X) × (m ≡ ok x) × (rest x ≡ ok y)

-- A chain that succeeds has succeeded at each step.
pub >>=-Steps {ℓ κ} :
    {X : Type ℓ} {Y : Type κ} (m : AppResult X) (rest : X → AppResult Y) {y : Y}
    → m >>= rest ≡ ok y
    → Steps m rest y
>>=-Steps panicked rest e = cc
>>=-Steps out_of_fuel rest e = cc
>>=-Steps (err x) rest e = cc
>>=-Steps (ok x) rest e = (x, refl, e)

pub ok-injective {ℓ} : {X : Type ℓ} {x y : X} → ok x ≡ ok y → x ≡ y
ok-injective h = cc

-- The call comes back, with a value or an error.
abbrev pub Returns {ℓ} : {A : Type ℓ} → AppResult A → Type 0
Returns (ok a) = Unit
Returns (err e) = Unit
Returns panicked = ⊥
Returns out_of_fuel = ⊥

pub Returns-bind {ℓ κ} :
    {A : Type ℓ} {B : Type κ} (m : AppResult A) (f : A → AppResult B)
    → Returns m
    → ((a : A) → Returns (f a))
    → Returns (m >>= f)
Returns-bind (ok a) f h k = k a
Returns-bind (err e) f h k = tt
Returns-bind panicked f h k = h
Returns-bind out_of_fuel f h k = h

pub bind-ne-out_of_fuel {ℓ κ} :
    {A : Type ℓ} {B : Type κ} (m : AppResult A) (f : A → AppResult B)
    → m ≢ out_of_fuel
    → ((a : A) → f a ≢ out_of_fuel)
    → (m >>= f) ≢ out_of_fuel
bind-ne-out_of_fuel (ok a) f h k = k a
bind-ne-out_of_fuel (err e) f h k = λ x. cc
bind-ne-out_of_fuel panicked f h k = λ x. cc
bind-ne-out_of_fuel out_of_fuel f h k = λ x. h refl

pub Returns-if {ℓ} :
    {A : Type ℓ} (b : Bool) (x y : AppResult A)
    → Returns x
    → Returns y
    → Returns (if b then x else y)
Returns-if true x y h k = h
Returns-if false x y h k = k

pub Returns-ne-out_of_fuel {ℓ} : {A : Type ℓ} (r : AppResult A) → Returns r → r ≢ out_of_fuel
Returns-ne-out_of_fuel (ok a) h = λ x. cc
Returns-ne-out_of_fuel (err e) h = λ x. cc
Returns-ne-out_of_fuel panicked h = absurd h
Returns-ne-out_of_fuel out_of_fuel h = absurd h
