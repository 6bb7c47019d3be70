-- ===== src/User/Hashes.antt =====
-- Users' rows whose passwords are recognised as hashes, and what the statements of SQL do to them.
use scim_server.Common.{
  ◌≡◌, refl, Bool, true, Option, List, [], ◌∷◌, map, none, some, arith, Bool-cases, inl, inr, keep,
}
use scim_server.Text.{Text}
use scim_server.Error.{ok}
use scim_server.Password.{Crypto, is_hashed_password}
use scim_server.User.{User, Prepared, Services}
use scim_server.User.Store.{Row, has_id, updated, update_row, execute_user_insert}

-- There is no password, or it is recognised as a hash.
abbrev pub is_hash_or_none : Crypto → Option Text → Bool
is_hash_or_none crypto none = true
is_hash_or_none crypto (some p) = is_hashed_password crypto p

-- The row holds a user whose password, if there is one, is recognised as a hash.
abbrev pub StoresHash : Services → Row → Type 0
StoresHash services row =
    (user : User) × (services.to_value user ≡ ok row.data_orig)
    × (is_hash_or_none services.crypto user.password ≡ true)

unfoldable pub AllStoreHash : Services → List Row → Type 0
AllStoreHash services [] = Unit {0}
AllStoreHash services (row ∷ rows) = StoresHash services row × AllStoreHash services rows

pub keep-AllStoreHash :
    (services : Services) (p : Row → Bool) (rows : List Row)
    → AllStoreHash services rows
    → AllStoreHash services (keep p rows)
unfolding AllStoreHash
keep-AllStoreHash services p [] h = h
keep-AllStoreHash services p (row ∷ rows) (h, k) = elim (Bool-cases (p row)) [
  | inl e ↦ rw e (h, keep-AllStoreHash services p rows k)
  | inr e ↦ rw e (keep-AllStoreHash services p rows k)
]

update_row-StoresHash :
    (services : Services) (p : Prepared) (user : User) (row : Row)
    → services.to_value user ≡ ok p.data_orig
    → is_hash_or_none services.crypto user.password ≡ true
    → StoresHash services row
    → StoresHash services (update_row p row)
unfolding updated
update_row-StoresHash services p user row v n h = elim (Bool-cases (has_id p.id row)) [
  | inl e ↦ rw e (user, v, n)
  | inr e ↦ rw e h
]

pub map-AllStoreHash :
    (services : Services) (p : Prepared) (user : User) (rows : List Row)
    → services.to_value user ≡ ok p.data_orig
    → is_hash_or_none services.crypto user.password ≡ true
    → AllStoreHash services rows
    → AllStoreHash services (map (update_row p) rows)
unfolding AllStoreHash
map-AllStoreHash services p user [] v n h = h
map-AllStoreHash services p user (row ∷ rows) v n (h, k) =
    (update_row-StoresHash services p user row v n h, map-AllStoreHash services p user rows v n k)

-- The INSERT adds one row, of what was prepared.
pub execute_user_insert-row :
    (rows : List Row) (p : Prepared) (q : List Row × User)
    → execute_user_insert rows p ≡ ok q
    → (row : Row) × (q.0 ≡ row ∷ rows) × (row.data_orig ≡ p.data_orig)
unfolding execute_user_insert
execute_user_insert-row rows p q h = (
  record {
    id = p.id;
    username = p.username;
    external_id = p.external_id;
    data_orig = p.data_orig;
    data_norm = p.data_norm;
    version = 1;
    created_at = p.timestamp;
    updated_at = p.timestamp;
  },
  ground (arith, h),
  refl,
)
