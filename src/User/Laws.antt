-- ===== src/User/Laws.antt =====
-- What the operations on users keep: the password out of the answers, names and identifiers unique.
use scim_server.Common.{
  ℕ, ◌≡◌, refl, sym, ap, subst, Bool, true, false, not, ◌&&◌, Option, none, some, List, [], ◌∷◌,
  map, arith, ◌∙◌, ◌⊎◌, any, Option-cases, Bool-cases, inl, inr,
}
use scim_server.Text.{Text, ◌==◌}
use scim_server.Text.Laws.{eq_iff}
use scim_server.Error.{ok, ◌>>=◌, >>=-Steps, ok-injective}
use scim_server.Config.{CompatibilityConfig}
use scim_server.User.{
  User, Prepared, Services, Operation, prepare_user, validate_user_id, without_password, apply_all,
}
use scim_server.User.Store.{
  Row, lower, named, has_id, another, updated, update_row, execute_user_insert, execute_user_update,
  finalized, update_user, patch_user, patch_found, find_user_for_patch,
}

-- No two rows have the same identifier, or names that differ in the case of ASCII letters alone.
unfoldable pub keys_unique : List Row → Bool
keys_unique [] = true
keys_unique (row ∷ rows) =
    not (any (has_id row.id) rows) && not (any (named row.username) rows) && keys_unique rows

pub execute_user_insert-keys_unique :
    (rows : List Row) (p : Prepared) (r : List Row × User)
    → keys_unique rows ≡ true
    → execute_user_insert rows p ≡ ok r
    → keys_unique r.0 ≡ true
unfolding execute_user_insert keys_unique
execute_user_insert-keys_unique rows p r k h = ground arith

update_row-any_id :
    (p : Prepared) (id : Text) (rows : List Row)
    → any (has_id id) (map (update_row p) rows) ≡ any (has_id id) rows
unfolding updated
update_row-any_id p id [] = refl
update_row-any_id p id (row ∷ rows) = ground (arith, update_row-any_id p id rows)

update_row_absent :
    (p : Prepared) (rows : List Row)
    → any (has_id p.id) rows ≡ false
    → map (update_row p) rows ≡ rows
update_row_absent p [] h = refl
update_row_absent p (row ∷ rows) h = ground (arith, update_row_absent p rows)

another_absent :
    (id u : Text) (rows : List Row)
    → any (has_id id) rows ≡ false
    → any (another id (named u)) rows ≡ false
    → any (named u) rows ≡ false
another_absent id u [] h i = refl
another_absent id u (row ∷ rows) h i = ground (arith, another_absent id u rows)

update_row-any-named :
    (p : Prepared) (u : Text) (rows : List Row)
    → lower p.username == lower u ≡ false
    → any (named u) rows ≡ false
    → any (named u) (map (update_row p) rows) ≡ false
unfolding updated
update_row-any-named p u [] h i = refl
update_row-any-named p u (row ∷ rows) h i = ground (arith, update_row-any-named p u rows)

update_row-keys_unique :
    (p : Prepared) (rows : List Row)
    → any (another p.id (named p.username)) rows ≡ false
    → keys_unique rows ≡ true
    → keys_unique (map (update_row p) rows) ≡ true
unfolding keys_unique updated
update_row-keys_unique p [] h k = refl
update_row-keys_unique p (row ∷ rows) h k = elim (Bool-cases (has_id p.id row)) [
  | inl e ↦
      ground
        (arith, eq_iff row.id p.id, update_row_absent p rows, another_absent p.id p.username rows)
  | inr e ↦ ground (
    arith,
    update_row-any_id p row.id rows,
    eq_iff (lower row.username) (lower p.username),
    eq_iff (lower p.username) (lower row.username),
    update_row-any-named p row.username rows,
    update_row-keys_unique p rows,
  )
]

execute_user_update-keys_unique :
    (rows : List Row) (p : Prepared) (r : List Row × Option User)
    → keys_unique rows ≡ true
    → execute_user_update rows p ≡ ok r
    → keys_unique r.0 ≡ true
unfolding execute_user_update
execute_user_update-keys_unique rows p r k h = ground (arith, update_row-keys_unique p rows)

pub finalized-rows : (q : List Row × Option User) → (finalized q).0 ≡ q.0
finalized-rows (rows, none) = refl
finalized-rows (rows, some user) = refl

pub finalized-password :
    (q : List Row × Option User) (u : User) → (finalized q).1 ≡ some u → u.password ≡ none
unfolding without_password
finalized-password (rows, none) u h = cc
finalized-password (rows, some user) u h = ground arith

-- What the last steps of an update and of a patch come to, if they succeed.
abbrev pub Stored : Services → ℕ → List Row → Text → User → List Row × Option User → Type 0
Stored services now rows id user r =
    (p : Prepared) × (q : List Row × Option User) × (prepare_user services now id user ≡ ok p)
    × (execute_user_update rows p ≡ ok q)
    × (finalized q ≡ r)

pub prepare_and_update-Stored :
    (services : Services) (now : ℕ) (rows : List Row) (id : Text) (user : User)
    → (r : List Row × Option User)
    → prepare_user services now id user
        >>= (λ p. execute_user_update rows p >>= (λ (x : List Row × Option User). ok (finalized x)))
      ≡ ok r
    → Stored services now rows id user r
prepare_and_update-Stored services now rows id user r h =
    let (p, e, h1) = >>=-Steps (prepare_user services now id user) _ h in
    let (q, f, h2) =
      >>=-Steps (execute_user_update rows p) (λ (x : List Row × Option User). ok (finalized x))
        h1 in
    (p, q, e, f, ok-injective h2)

pub update_user-Stored :
    (services : Services) (now : ℕ) (rows : List Row) (id : Text) (user : User)
    → (r : List Row × Option User) → update_user services now rows id user ≡ ok r
    → Stored services now rows id user r
unfolding update_user
update_user-Stored services now rows id user r h =
    let (checked, e, h1) = >>=-Steps (validate_user_id id) _ h in
    prepare_and_update-Stored services now rows id user r h1

pub Stored-keys_unique :
    (services : Services) (now : ℕ) (rows : List Row) (id : Text) (user : User)
    → (r : List Row × Option User) → keys_unique rows ≡ true
    → Stored services now rows id user r
    → keys_unique r.0 ≡ true
Stored-keys_unique services now rows id user r k (p, q, e, f, g) =
    subst (λ x. keys_unique x ≡ true) (sym (finalized-rows q) ∙ ap (λ x. x.0) g)
      (execute_user_update-keys_unique rows p q k f)

-- A patch that succeeds found no such user, or stored what the operations made of the user found.
pub patch_user-cases :
    (services : Services) (config : CompatibilityConfig) (now : ℕ) (rows : List Row) (id : Text)
    → (os : List Operation) (r : List Row × Option User)
    → patch_user services config now rows id os ≡ ok r
    → ((find_user_for_patch services rows id ≡ ok none) × (r ≡ (rows, none)))
      ⊎ ((user patched : User) × (find_user_for_patch services rows id ≡ ok (some user))
          × (apply_all services config os user ≡ ok patched)
          × Stored services now rows id patched r)
unfolding patch_user
patch_user-cases services config now rows id os r h =
    let (checked, e, h1) = >>=-Steps (validate_user_id id) _ h in
    let (found, f, h2) = >>=-Steps (find_user_for_patch services rows id) _ h1 in
    elim (Option-cases found) [
      | inl g ↦
          let h3 = subst (λ x. patch_found services config now rows id os x ≡ ok r) g h2 in
          inl (f ∙ ap ok g, sym (ok-injective h3))
      | inr (user, g) ↦
          let h3 = subst (λ x. patch_found services config now rows id os x ≡ ok r) g h2 in
          let (patched, a, h4) = >>=-Steps (apply_all services config os user) _ h3 in
          inr (
            user,
            patched,
            f ∙ ap ok g,
            a,
            prepare_and_update-Stored services now rows id patched r h4,
          )
    ]
