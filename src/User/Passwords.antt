-- ===== src/User/Passwords.antt =====
-- The passwords that are stored, in every table that requests make of the empty one.
use scim_server.Common.{
  ℕ, ◌≡◌, refl, sym, ap, subst, ◌∙◌, Bool, true, not, Option, List, [], ◌∷◌, some, arith,
  Option-cases, Bool-cases, inl, inr,
}
use scim_server.Text.{Text}
use scim_server.Error.{ok, >>=-Steps, ok-injective}
use scim_server.Config.{CompatibilityConfig}
use scim_server.Password.{
  Crypto, hash_password, is_argon2id, is_hashed_password, validate_password_strength,
}
use scim_server.User.{
  User, Services, Operation, hash_unless_hashed, hash_always, prepare_user_for_insert,
  validate_user_id, finalize_inserted, new_meta, touch,
}
use scim_server.User.Store.{Row, has_id, execute_user_insert, create_user, patch_user, delete_user}
use scim_server.User.Laws.{Stored, update_user-Stored, patch_user-cases, finalized-rows}
use scim_server.User.Rows.{execute_user_update-cases, prepare_user-stores, prepared-stores}
use scim_server.User.Hashes.{
  is_hash_or_none, AllStoreHash, keep-AllStoreHash, map-AllStoreHash, execute_user_insert-row,
}
use scim_server.User.Reachable.{Step, created, replaced, patched, deleted, Reachable, empty, next}

hash_password-argon2 :
    (crypto : Crypto) (p h : Text) → hash_password crypto p ≡ ok h → crypto.argon2 p ≡ ok h
unfolding hash_password
hash_password-argon2 crypto [] h e = cc
hash_password-argon2 crypto (c ∷ p) h e =
    let (checked, f, g) =
      >>=-Steps (validate_password_strength crypto (c ∷ p))
        (λ (x : Unit {0}). crypto.argon2 (c ∷ p)) e in
    g

module _ (services : Services)
    (recognised : (p h : Text)
      → services.crypto.argon2 p ≡ ok h
      → is_argon2id services.crypto h ≡ true) where
  hash_always-hashed :
      (user hashed : User)
      → hash_always services user ≡ ok hashed
      → is_hash_or_none services.crypto hashed.password ≡ true
  unfolding hash_always is_hashed_password
  hash_always-hashed user hashed h = elim (Option-cases user.password) [
    | inl n ↦
        subst (λ x. is_hash_or_none services.crypto x ≡ true)
          (sym n ∙ ap (λ (x : User). x.password) (ok-injective (rw (n, hash_always) at h))) refl
    | inr (p, n) ↦
        let (made, f, g) =
          >>=-Steps (hash_password services.crypto p)
            (λ (x : Text). ok (record user { password = some x })) (rw (n, hash_always) at h) in
        let known = recognised p made (hash_password-argon2 services.crypto p made f) in
        subst (λ x. is_hash_or_none services.crypto x ≡ true)
          (ap (λ (x : User). x.password) (ok-injective g)) (ground arith)
  ]

  hash_unless_hashed-hashed :
      (user hashed : User)
      → hash_unless_hashed services user ≡ ok hashed
      → is_hash_or_none services.crypto hashed.password ≡ true
  unfolding hash_unless_hashed
  hash_unless_hashed-hashed user hashed h = elim (Option-cases user.password) [
    | inl n ↦
        subst (λ x. is_hash_or_none services.crypto x ≡ true)
          (sym n ∙ ap (λ (x : User). x.password) (ok-injective (rw (n, hash_unless_hashed) at h)))
          refl
    | inr (p, n) ↦ elim (Bool-cases (is_hashed_password services.crypto p)) [
      | inl b ↦
          let h1 = rw (b) at (rw (n, hash_unless_hashed) at h) in
          subst (λ x. is_hash_or_none services.crypto x ≡ true)
            (sym n ∙ ap (λ (x : User). x.password) (ok-injective h1)) b
      | inr b ↦ hash_always-hashed user hashed (rw (b) at (rw (n, hash_unless_hashed) at h))
    ]
  ]

  create_user-AllStoreHash :
      (now : ℕ) (fresh : Text) (rows : List Row) (user : User) (r : List Row × User)
      → create_user services now fresh rows user ≡ ok r
      → AllStoreHash services rows
      → AllStoreHash services r.0
  unfolding create_user prepare_user_for_insert AllStoreHash
  create_user-AllStoreHash now fresh rows user r h k =
      let (p, e, h1) = >>=-Steps (prepare_user_for_insert services now fresh user) _ h in
      let (q, f, h2) =
        >>=-Steps (execute_user_insert rows p)
          (λ (x : List Row × User). ok (x.0, finalize_inserted x.1)) h1 in
      let (hashed, m, e1) =
        >>=-Steps (hash_unless_hashed services (record user { id = some fresh })) _ e in
      let w = record hashed { meta = some (new_meta services now) } in
      let (i, v) = prepared-stores services now fresh w p e1 in
      let (row, rows_eq, original) = execute_user_insert-row rows p q f in
      subst (AllStoreHash services)
        (sym rows_eq ∙ ap (λ (x : List Row × User). x.0) (ok-injective h2))
        (
          (
            w,
            v ∙ ap ok (sym original),
            hash_unless_hashed-hashed (record user { id = some fresh }) hashed m,
          ),
          k,
        )

  Stored-AllStoreHash :
      (now : ℕ) (rows : List Row) (id : Text) (user : User) (r : List Row × Option User)
      → Stored services now rows id user r
      → AllStoreHash services rows
      → AllStoreHash services r.0
  Stored-AllStoreHash now rows id user r (p, q, e, f, g) k =
      let (hashed, m, i, v) = prepare_user-stores services now id user p e in
      let w = touch services now (record hashed { id = some id }) in
      subst (AllStoreHash services)
        (sym (finalized-rows q) ∙ ap (λ (x : List Row × Option User). x.0) g)
        (elim (execute_user_update-cases rows p q f) [
          | inl (same, absent) ↦
              subst (λ (x : List Row × Option User). AllStoreHash services x.0) (sym same) k
          | inr changed ↦
              subst (λ (x : List Row × Option User). AllStoreHash services x.0) (sym changed)
                (map-AllStoreHash services p w rows v (hash_always-hashed user hashed m) k)
        ])

  patch_user-AllStoreHash :
      (config : CompatibilityConfig) (now : ℕ) (rows : List Row) (id : Text) (os : List Operation)
      (r : List Row × Option User)
      → patch_user services config now rows id os ≡ ok r
      → AllStoreHash services rows
      → AllStoreHash services r.0
  patch_user-AllStoreHash config now rows id os r h k =
      elim (patch_user-cases services config now rows id os r h) [
        | inl (f, e) ↦ subst (λ (x : List Row × Option User). AllStoreHash services x.0) (sym e) k
        | inr (user, patched_user, f, a, s) ↦ Stored-AllStoreHash now rows id patched_user r s k
      ]

  delete_user-AllStoreHash :
      (rows : List Row) (id : Text) (r : List Row × Bool)
      → delete_user rows id ≡ ok r
      → AllStoreHash services rows
      → AllStoreHash services r.0
  unfolding delete_user
  delete_user-AllStoreHash rows id r h k =
      let (checked, e, h1) = >>=-Steps (validate_user_id id) _ h in
      subst (λ (x : List Row × Bool). AllStoreHash services x.0) (ok-injective h1)
        (keep-AllStoreHash services (λ row. not (has_id id row)) rows k)

  Step-AllStoreHash :
      (s t : List Row) → Step services s t → AllStoreHash services s → AllStoreHash services t
  Step-AllStoreHash s t (created now fresh rows user r h) k =
      create_user-AllStoreHash now fresh rows user r h k
  Step-AllStoreHash s t (replaced now rows id user r h) k =
      Stored-AllStoreHash now rows id user r (update_user-Stored services now rows id user r h) k
  Step-AllStoreHash s t (patched config now rows id os r h) k =
      patch_user-AllStoreHash config now rows id os r h k
  Step-AllStoreHash s t (deleted rows id r h) k = delete_user-AllStoreHash rows id r h k

  -- Where what Argon2 returns is recognised as its hash: in every table that creating, replacing,
  -- patching and deleting users make of the empty one, each row holds a user whose password, if there
  -- is one, is recognised as a hash.
  pub Reachable-AllStoreHash :
      (rows : List Row) → Reachable services rows → AllStoreHash services rows
  unfolding AllStoreHash
  Reachable-AllStoreHash rows empty = tt
  Reachable-AllStoreHash rows (next s t reachable step) =
      Step-AllStoreHash s t step (Reachable-AllStoreHash s reachable)
