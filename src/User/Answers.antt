-- ===== src/User/Answers.antt =====
-- What a request on users answers and what it leaves in the table.
use scim_server.Common.{
  ℕ, ◌≡◌, sym, ap, ◌∙◌, some_inj, Option-cases, Bool, false, not, Option, none, some, List, any,
  keep, inl, inr, any-keep-not,
}
use scim_server.Text.{Text}
use scim_server.Error.{ok, >>=-Steps, ok-injective}
use scim_server.Config.{CompatibilityConfig}
use scim_server.User.{
  User, Services, Operation, validate_user_id, prepare_user_for_insert, finalize_inserted,
  apply_all, touch,
}
use scim_server.User.Store.{
  Row, has_id, updated, create_user, update_user, patch_user, delete_user, find_row,
  execute_user_insert, find_user_for_patch,
}
use scim_server.User.Rows.{prepare_user-stores, hash_always-none, Stored-row}
use scim_server.User.Laws.{Stored, update_user-Stored, patch_user-cases, finalized-password}

-- The answer to a successful creation has no password.
pub create_user-no_password :
    (services : Services) (now : ℕ) (fresh : Text) (rows : List Row) (user : User)
    → (r : List Row × User) → create_user services now fresh rows user ≡ ok r
    → r.1.password ≡ none
unfolding create_user finalize_inserted
create_user-no_password services now fresh rows user r h =
    let (p, e, h1) = >>=-Steps (prepare_user_for_insert services now fresh user) _ h in
    let (q, f, h2) =
      >>=-Steps (execute_user_insert rows p)
        (λ (x : List Row × User). ok (x.0, finalize_inserted x.1)) h1 in
    ap (λ (x : List Row × User). x.1.password) (sym (ok-injective h2))

Stored-no_password :
    (services : Services) (now : ℕ) (rows : List Row) (id : Text) (user : User)
    → (r : List Row × Option User) (u : User) → Stored services now rows id user r
    → r.1 ≡ some u
    → u.password ≡ none
Stored-no_password services now rows id user r u (p, q, e, f, g) h =
    finalized-password q u (ap (λ (x : List Row × Option User). x.1) g ∙ h)

-- The user in the answer to a successful replacement has no password.
pub update_user-no_password :
    (services : Services) (now : ℕ) (rows : List Row) (id : Text) (user : User)
    → (r : List Row × Option User) (u : User) → update_user services now rows id user ≡ ok r
    → r.1 ≡ some u
    → u.password ≡ none
update_user-no_password services now rows id user r u h =
    Stored-no_password services now rows id user r u
      (update_user-Stored services now rows id user r h)

none-ne-some-user : {x : User} → none ≡ some x → ⊥
none-ne-some-user h = cc

-- The user in the answer to a successful patch has no password.
pub patch_user-no_password :
    (services : Services) (config : CompatibilityConfig) (now : ℕ) (rows : List Row) (id : Text)
    → (os : List Operation) (r : List Row × Option User) (u : User)
    → patch_user services config now rows id os ≡ ok r
    → r.1 ≡ some u
    → u.password ≡ none
patch_user-no_password services config now rows id os r u h k =
    elim (patch_user-cases services config now rows id os r h) [
      | inl (f, e) ↦
          absurd (none-ne-some-user (sym (ap (λ (x : List Row × Option User). x.1) e) ∙ k))
      | inr (user, patched, f, a, s) ↦ Stored-no_password services now rows id patched r u s k
    ]

-- The user that a patch starts from has no password, whatever is stored.
find_user_for_patch-no_password :
    (services : Services) (rows : List Row) (id : Text) (user : User)
    → find_user_for_patch services rows id ≡ ok (some user)
    → user.password ≡ none
unfolding find_user_for_patch
find_user_for_patch-no_password services rows id user h = elim (Option-cases (find_row id rows)) [
  | inl e ↦ absurd (none-ne-some-user (ok-injective (rw (e, find_user_for_patch) at h)))
  | inr (row, e) ↦
      let h1 = rw (e, find_user_for_patch) at h in
      let (u, f, g) =
        >>=-Steps (services.from_value row.data_orig)
          (λ (u : User). ok (some (record u { id = some row.id; password = none }))) h1 in
      ap (λ (x : User). x.password) (sym (some_inj.0 (ok-injective g)))
]

-- A row that is there is found, or its JSON is no user.
find_user_for_patch-found :
    (services : Services) (rows : List Row) (id : Text) (row : Row)
    → find_row id rows ≡ some row
    → find_user_for_patch services rows id ≡ ok none
    → ⊥
unfolding find_user_for_patch
find_user_for_patch-found services rows id row e h =
    let (u, f, g) =
      >>=-Steps (services.from_value row.data_orig)
        (λ (u : User). ok (some (record u { id = some row.id; password = none })))
        (rw (e, find_user_for_patch) at h) in
    none-ne-some-user (sym (ok-injective g))

-- A patch with operations that set no password, that is, that make of any user without password one
-- without password, leaves a row of the identifier that holds a user without password, whatever
-- password the row held before.
pub patch_user-erases_password :
    (services : Services) (config : CompatibilityConfig) (now : ℕ) (rows : List Row) (id : Text)
    → (os : List Operation) (r : List Row × Option User) (row : Row)
    → ((u v : User) → u.password ≡ none → apply_all services config os u ≡ ok v → v.password ≡ none)
    → patch_user services config now rows id os ≡ ok r
    → find_row id rows ≡ some row
    → (stored : User) × (next : Row) × (find_row id r.0 ≡ some next)
      × (services.to_value stored ≡ ok next.data_orig)
      × (stored.password ≡ none)
unfolding updated
patch_user-erases_password services config now rows id os r row keeps h g =
    elim (patch_user-cases services config now rows id os r h) [
      | inl (f, e) ↦ absurd (find_user_for_patch-found services rows id row g f)
      | inr (user, patched, f, a, s) ↦
          let n = keeps user patched (find_user_for_patch-no_password services rows id user f) a in
          let (p, e, rows_eq, found) = Stored-row services now rows id patched r row s g in
          let (hashed, hs, i, v) = prepare_user-stores services now id patched p e in
          (
            touch services now (record hashed { id = some id }),
            updated p row,
            found,
            v,
            hash_always-none services patched hashed n hs,
          )
    ]

-- Deleting answers whether there was a row of the identifier, leaves none, and leaves the others in
-- their order.
pub delete_user-removes :
    (rows : List Row) (id : Text) (r : List Row × Bool)
    → delete_user rows id ≡ ok r
    → (r.1 ≡ any (has_id id) rows)
      × (any (has_id id) r.0 ≡ false)
      × (r.0 ≡ keep (λ row. not (has_id id row)) rows)
unfolding delete_user
delete_user-removes rows id r h =
    let (checked, e, h1) = >>=-Steps (validate_user_id id) _ h in
    let g = ok-injective h1 in
    (
      sym (ap (λ (x : List Row × Bool). x.1) g),
      ap (λ (x : List Row × Bool). any (has_id id) x.0) (sym g) ∙ any-keep-not (has_id id) rows,
      sym (ap (λ (x : List Row × Bool). x.0) g),
    )
