-- ===== src/User/Reachable.antt =====
-- The users' table over time: every request is one step, a failed one leaves the table.
use scim_server.Common.{
  ℕ, ◌≡◌, refl, sym, subst, Bool, true, not, Option, List, [], ◌∷◌, keep, any-keep, arith, inl, inr,
}
use scim_server.Text.{Text}
use scim_server.Error.{ok, >>=-Steps, ok-injective}
use scim_server.Config.{CompatibilityConfig}
use scim_server.User.{
  User, Services, Operation, validate_user_id, prepare_user_for_insert, finalize_inserted,
}
use scim_server.User.Store.{
  Row, has_id, named, create_user, update_user, patch_user, delete_user, execute_user_insert,
}
use scim_server.User.Laws.{
  keys_unique, execute_user_insert-keys_unique, Stored-keys_unique, update_user-Stored,
  patch_user-cases,
}

pub create_user-keys_unique :
    (services : Services) (now : ℕ) (fresh : Text) (rows : List Row) (user : User)
    → (r : List Row × User) → keys_unique rows ≡ true
    → create_user services now fresh rows user ≡ ok r
    → keys_unique r.0 ≡ true
unfolding create_user
create_user-keys_unique services now fresh rows user r k h =
    let (p, e, h1) = >>=-Steps (prepare_user_for_insert services now fresh user) _ h in
    let (q, f, h2) =
      >>=-Steps (execute_user_insert rows p)
        (λ (x : List Row × User). ok (x.0, finalize_inserted x.1)) h1 in
    subst (λ (x : List Row × User). keys_unique x.0 ≡ true) (ok-injective h2)
      (execute_user_insert-keys_unique rows p q k f)

pub patch_user-keys_unique :
    (services : Services) (config : CompatibilityConfig) (now : ℕ) (rows : List Row) (id : Text)
    → (os : List Operation) (r : List Row × Option User) → keys_unique rows ≡ true
    → patch_user services config now rows id os ≡ ok r
    → keys_unique r.0 ≡ true
patch_user-keys_unique services config now rows id os r k h =
    elim (patch_user-cases services config now rows id os r h) [
      | inl (f, e) ↦ subst (λ (x : List Row × Option User). keys_unique x.0 ≡ true) (sym e) k
      | inr (user, patched, f, a, s) ↦ Stored-keys_unique services now rows id patched r k s
    ]

keep-keys_unique :
    (p : Row → Bool) (rows : List Row) → keys_unique rows ≡ true → keys_unique (keep p rows) ≡ true
unfolding keys_unique
keep-keys_unique p [] k = k
keep-keys_unique p (row ∷ rows) k = ground (
  arith,
  any-keep (has_id row.id) p rows,
  any-keep (named row.username) p rows,
  keep-keys_unique p rows,
)

pub delete_user-keys_unique :
    (rows : List Row) (id : Text) (r : List Row × Bool)
    → keys_unique rows ≡ true
    → delete_user rows id ≡ ok r
    → keys_unique r.0 ≡ true
unfolding delete_user
delete_user-keys_unique rows id r k h =
    let (checked, e, h1) = >>=-Steps (validate_user_id id) _ h in
    subst (λ (x : List Row × Bool). keys_unique x.0 ≡ true) (ok-injective h1)
      (keep-keys_unique (λ row. not (has_id id row)) rows k)

-- A request that succeeds, at its time and with the UUID that it draws.
pub data Step (services : Services) : List Row → List Row → Type 0 where
  created :
      (now : ℕ) (fresh : Text) (rows : List Row) (user : User) (r : List Row × User)
      → create_user services now fresh rows user ≡ ok r
      → Step services rows r.0
  replaced :
      (now : ℕ) (rows : List Row) (id : Text) (user : User) (r : List Row × Option User)
      → update_user services now rows id user ≡ ok r
      → Step services rows r.0
  patched :
      (config : CompatibilityConfig) (now : ℕ) (rows : List Row) (id : Text) (os : List Operation)
      → (r : List Row × Option User) → patch_user services config now rows id os ≡ ok r
      → Step services rows r.0
  deleted :
      (rows : List Row) (id : Text) (r : List Row × Bool)
      → delete_user rows id ≡ ok r
      → Step services rows r.0

-- The tables that requests make of the empty one.
pub data Reachable (services : Services) : List Row → Type 0 where
  empty : Reachable services []
  next : (s t : List Row) → Reachable services s → Step services s t → Reachable services t

step-keys_unique :
    (services : Services) (s t : List Row)
    → Step services s t
    → keys_unique s ≡ true
    → keys_unique t ≡ true
step-keys_unique services s t (created now fresh rows user r h) k =
    create_user-keys_unique services now fresh rows user r k h
step-keys_unique services s t (replaced now rows id user r h) k =
    Stored-keys_unique services now rows id user r k
      (update_user-Stored services now rows id user r h)
step-keys_unique services s t (patched config now rows id os r h) k =
    patch_user-keys_unique services config now rows id os r k h
step-keys_unique services s t (deleted rows id r h) k = delete_user-keys_unique rows id r k h

-- In every table that creating, replacing, patching and deleting users make of the empty one, no two
-- rows have the same identifier or names that are the same but for the case of ASCII letters.
pub Reachable-keys_unique :
    (services : Services) (rows : List Row) → Reachable services rows → keys_unique rows ≡ true
unfolding keys_unique
Reachable-keys_unique services rows empty = refl
Reachable-keys_unique services rows (next s t reachable step) =
    step-keys_unique services s t step (Reachable-keys_unique services s reachable)
