-- ===== src/User/Rows.antt =====
-- The rows that an update writes: prepare_user and execute_user_update together.
use scim_server.Common.{
  ℕ, ◌+◌, ◌≡◌, refl, sym, ap, subst, ◌∙◌, ◌⊎◌, false, Option, none, some, List, [], ◌∷◌, map, any,
  arith, inl, inr,
}
use scim_server.Text.{Text, ◌==◌}
use scim_server.Text.Laws.{eq_iff}
use scim_server.Error.{ok, >>=-Steps, ok-injective}
use scim_server.User.{User, Prepared, Services, prepare_user, hash_always, touch, prepared}
use scim_server.User.Store.{
  Row, has_id, updated, update_row, update_user, find_row, execute_user_update,
}
use scim_server.User.Laws.{Stored, update_user-Stored, finalized-rows}

find_row-update_row :
    (p : Prepared) (id : Text) (rows : List Row)
    → find_row id (map (update_row p) rows)
      ≡ elim (find_row id rows) [ none ↦ none | some row ↦ some (update_row p row) ]
unfolding find_row updated
find_row-update_row p id [] = refl
find_row-update_row p id (row ∷ rows) = ground (arith, find_row-update_row p id rows)

-- The UPDATE found no row of the identifier, or changed the rows that have it.
pub execute_user_update-cases :
    (rows : List Row) (p : Prepared) (q : List Row × Option User)
    → execute_user_update rows p ≡ ok q
    → ((q ≡ (rows, none)) × (any (has_id p.id) rows ≡ false))
      ⊎ (q ≡ (map (update_row p) rows, some p.user))
unfolding execute_user_update
execute_user_update-cases rows p q h = ground arith

-- What is stored is the user that the preparation ends with, under the identifier of the path.
pub prepared-stores :
    (services : Services) (now : ℕ) (id : Text) (w : User) (p : Prepared)
    → prepared services now id w ≡ ok p
    → (p.id ≡ id) × (services.to_value w ≡ ok p.data_orig)
prepared-stores services now id w p h =
    let (v, e, h1) = >>=-Steps (services.to_value w) _ h in
    let g = ok-injective h1 in
    (sym (ap (λ (x : Prepared). x.id) g), e ∙ ap (λ (x : Prepared). ok x.data_orig) g)

pub prepare_user-stores :
    (services : Services) (now : ℕ) (id : Text) (user : User) (p : Prepared)
    → prepare_user services now id user ≡ ok p
    → (hashed : User) × (hash_always services user ≡ ok hashed)
      × (p.id ≡ id)
      × (services.to_value (touch services now (record hashed { id = some id })) ≡ ok p.data_orig)
unfolding prepare_user
prepare_user-stores services now id user p h =
    let (hashed, e, h1) = >>=-Steps (hash_always services user) _ h in
    let w = touch services now (record hashed { id = some id }) in
    let (i, v) = prepared-stores services now id w p h1 in (hashed, e, i, v)

pub hash_always-none :
    (services : Services) (user hashed : User)
    → user.password ≡ none
    → hash_always services user ≡ ok hashed
    → hashed.password ≡ none
unfolding hash_always
hash_always-none services user hashed n h = ground arith

find_row-none :
    (id : Text) (rows : List Row) → any (has_id id) rows ≡ false → find_row id rows ≡ none
unfolding find_row
find_row-none id [] h = refl
find_row-none id (row ∷ rows) h = ground (arith, find_row-none id rows)

find_row-has_id :
    (id : Text) (rows : List Row) (row : Row) → find_row id rows ≡ some row → row.id ≡ id
unfolding find_row
find_row-has_id id [] row h = cc
find_row-has_id id (r ∷ rows) row h = ground (arith, eq_iff r.id id, find_row-has_id id rows row)

update_found :
    (p : Prepared) (id : Text) (rows : List Row) (row : Row)
    → p.id ≡ id
    → find_row id rows ≡ some row
    → (elim (find_row id rows) [ none ↦ none | some x ↦ some (update_row p x) ])
      ≡ some (updated p row)
update_found p id rows row i h =
    let j = find_row-has_id id rows row h in rw h (ground (arith, eq_iff row.id p.id))

none-ne-some : {x : Row} → none ≡ some x → ⊥
none-ne-some h = cc

pub Stored-row :
    (services : Services) (now : ℕ) (rows : List Row) (id : Text) (user : User)
    → (r : List Row × Option User) (row : Row) → Stored services now rows id user r
    → find_row id rows ≡ some row
    → (p : Prepared) × (prepare_user services now id user ≡ ok p)
      × (r.0 ≡ map (update_row p) rows)
      × (find_row id r.0 ≡ some (updated p row))
Stored-row services now rows id user r row (p, q, e, f, g) h =
    let (hashed, hs, i, v) = prepare_user-stores services now id user p e in
    elim (execute_user_update-cases rows p q f) [
      | inl (absent, none_there) ↦ absurd (
          none-ne-some (
            sym (find_row-none p.id rows none_there)
            ∙ subst (λ x. find_row x rows ≡ some row) (sym i) h))
      | inr changed ↦
          let rows_eq =
            sym (ap (λ (x : List Row × Option User). x.0) g)
            ∙ finalized-rows q
            ∙ ap (λ (x : List Row × Option User). x.0) changed in
          (
            p,
            e,
            rows_eq,
            ap (find_row id) rows_eq
                ∙ find_row-update_row p id rows
                ∙ update_found p id rows row i h,
          )
    ]

find_row-update_other :
    (p : Prepared) (j : Text) (rows : List Row)
    → j == p.id ≡ false
    → find_row j (map (update_row p) rows) ≡ find_row j rows
unfolding find_row updated
find_row-update_other p j [] n = refl
find_row-update_other p j (row ∷ rows) n =
    ground
      (arith, eq_iff row.id p.id, eq_iff row.id j, eq_iff j p.id, find_row-update_other p j rows)

-- A replacement that finds its user gives the user's row the next version, and leaves the row of
-- every other identifier.
pub update_user-versions :
    (services : Services) (now : ℕ) (rows : List Row) (id : Text) (user : User)
    → (r : List Row × Option User) (row : Row) (j : Text)
    → update_user services now rows id user ≡ ok r
    → find_row id rows ≡ some row
    → j == id ≡ false
    → (next : Row) × (find_row id r.0 ≡ some next)
      × (next.version ≡ row.version + 1)
      × (find_row j r.0 ≡ find_row j rows)
unfolding updated
update_user-versions services now rows id user r row j h g n =
    let stored = update_user-Stored services now rows id user r h in
    let (p, e, rows_eq, found) = Stored-row services now rows id user r row stored g in
    let (hashed, hs, i, v) = prepare_user-stores services now id user p e in
    (
      updated p row,
      found,
      refl,
      ap (find_row j) rows_eq
          ∙ find_row-update_other p j rows (subst (λ x. j == x ≡ false) (sym i) n),
    )
