-- ===== src/User/Tests.antt =====
-- Users created, replaced, patched and deleted, with simple services.
use scim_server.Common.{
  sym, ap, ◌∙◌, subst, ◌↔◌, ◌≤◌, ◌≡◌, refl, ◌+◌, ℕ, true, Option, none, some, List, [], ◌∷◌, any,
}
use scim_server.Text.{strip_prefix, starts_with, is_ascii_digit, Text, codes, trim, ascii_lower}
use scim_server.Json.{Value, null, string}
use scim_server.Error.{ok, ok-injective}
use scim_server.Config.{default_config}
use scim_server.Password.Laws.{hash_password_iff}
use scim_server.User.Passwords.{Reachable-AllStoreHash}
use scim_server.User.Hashes.{AllStoreHash}
use scim_server.User.Reachable.{created, replaced, empty, next}
use scim_server.Password.{
  is_argon2id, is_hashed_password, is_special, Crypto, hash_password, byte_len,
}
use scim_server.User.{
  User, Services, validate_user_id, prepare_user, prepare_user_for_insert, hash_always,
  hash_unless_hashed, apply_all, without_password, finalize_inserted, new_meta,
}
use scim_server.User.Store.{
  Row, create_user, update_user, patch_user, find_row, find_user_for_patch, execute_user_update,
}
use scim_server.User.Rows.{update_user-versions}
use scim_server.User.Answers.{patch_user-erases_password}

abbrev crypto : Crypto
crypto = record {
  argon2 = λ p. ok (codes "$argon2id$");
  is_phc = λ p. true;
  decoded_len = λ p. none;
  is_lowercase = λ c. true;
  is_uppercase = λ c. true;
}

abbrev ann : Option Text → User
ann password = record {
  user_name = codes "ann";
  id = some (codes "7");
  external_id = none;
  password = password;
  meta = none;
  others = null;
}

-- A service whose users are all the same but for the password, which is all that it writes.
abbrev services : Services
services = record {
  crypto = crypto;
  to_value = λ u. ok (elim u.password [ none ↦ null | some p ↦ string p ]);
  from_value = λ v. ok (elim v [ string p ↦ ann (some p) | _ ↦ ann none ]);
  format_datetime = λ t. [];
  to_lowercase = λ s. s;
  normalize = λ v. v;
  compare_numbers = λ a b. none;
  parse_f64 = λ s. none;
}

abbrev row : Value → ℕ → Row
row v n = record {
  id = codes "7";
  username = codes "ann";
  external_id = none;
  data_orig = v;
  data_norm = v;
  version = n;
  created_at = 1;
  updated_at = n;
}

abbrev one_row : List Row
one_row = row (string (codes "$argon2id$")) 1 ∷ []

abbrev made : User
made = finalize_inserted (record (ann none) { meta = some (new_meta services 1) })

test_create : create_user services 1 (codes "7") [] (ann none) ≡ ok (row null 1 ∷ [], made)
unfolding create_user hash_unless_hashed prepare_user_for_insert finalize_inserted
test_create = refl

test_patch :
    patch_user services default_config 2 one_row (codes "7") []
    ≡ ok (row null 2 ∷ [], some (ann none))
unfolding patch_user validate_user_id find_user_for_patch apply_all hash_always execute_user_update
    without_password trim ascii_lower prepare_user
test_patch = refl

abbrev new_password : User
new_password = ann (some (codes "secret-77"))

test_update :
    update_user services 2 one_row (codes "7") new_password
    ≡ ok (row (string (codes "$argon2id$")) 2 ∷ [], some (ann none))
unfolding update_user validate_user_id hash_always execute_user_update without_password trim
    ascii_lower prepare_user hash_password byte_len
test_update = refl

-- What this Argon2 returns is recognised: it is always the same text.
recognised : (p h : Text) → services.crypto.argon2 p ≡ ok h → is_argon2id services.crypto h ≡ true
unfolding is_argon2id starts_with
recognised p h e = subst (λ x. is_argon2id crypto x ≡ true) (ok-injective e) refl

created_ann : create_user services 1 (codes "7") [] new_password ≡ ok (one_row, made)
unfolding create_user hash_unless_hashed hash_always prepare_user_for_insert finalize_inserted
    hash_password byte_len is_hashed_password starts_with strip_prefix
created_ann = refl

-- A user is created with a plain password, which is then replaced.
Reachable-AllStoreHash_example : AllStoreHash services (row (string (codes "$argon2id$")) 2 ∷ [])
Reachable-AllStoreHash_example =
    Reachable-AllStoreHash services recognised (row (string (codes "$argon2id$")) 2 ∷ []) (
      next one_row (row (string (codes "$argon2id$")) 2 ∷ [])
        (next [] one_row empty (created 1 (codes "7") [] new_password (one_row, made) created_ann))
        (replaced 2 one_row (codes "7") new_password
          (row (string (codes "$argon2id$")) 2 ∷ [], some (ann none)) test_update))

hash_password_example : (hash_password crypto (codes "secret-77") ≡ ok (codes "$argon2id$")) ↔ (
    (8 ≤ byte_len (codes "secret-77"))
    × (byte_len (codes "secret-77") ≤ 128)
    × (any crypto.is_lowercase (codes "secret-77") ≡ true)
    × (any crypto.is_uppercase (codes "secret-77") ≡ true)
    × (any is_ascii_digit (codes "secret-77") ≡ true)
    × (any is_special (codes "secret-77") ≡ true)
    × (crypto.argon2 (codes "secret-77") ≡ ok (codes "$argon2id$")))
hash_password_example = hash_password_iff crypto (codes "secret-77") (codes "$argon2id$")

-- Seven characters that are ten bytes.
short_password : hash_password crypto (codes "Aa1!ééé") ≡ ok (codes "$argon2id$")
unfolding hash_password byte_len
short_password = refl

update_user-versions_example :
    (after : Row) × (find_row (codes "7") (row (string (codes "$argon2id$")) 2 ∷ []) ≡ some after)
    × (after.version ≡ 1 + 1)
    × (find_row (codes "8") (row (string (codes "$argon2id$")) 2 ∷ [])
        ≡ find_row (codes "8") one_row)
unfolding find_row
update_user-versions_example =
    update_user-versions services 2 one_row (codes "7") new_password
      (row (string (codes "$argon2id$")) 2 ∷ [], some (ann none))
      (row (string (codes "$argon2id$")) 1) (codes "8") test_update refl refl

-- The patch without operations.
keeps_none :
    (u v : User)
    → u.password ≡ none
    → apply_all services default_config [] u ≡ ok v
    → v.password ≡ none
unfolding apply_all
keeps_none u v h e = ap (λ (x : User). x.password) (sym (ok-injective e)) ∙ h

patch_user-erases_password_example :
    (stored : User) × (after : Row) × (find_row (codes "7") (row null 2 ∷ []) ≡ some after)
    × (services.to_value stored ≡ ok after.data_orig)
    × (stored.password ≡ none)
unfolding find_row
patch_user-erases_password_example =
    patch_user-erases_password services default_config 2 one_row (codes "7") []
      (row null 2 ∷ [], some (ann none)) (row (string (codes "$argon2id$")) 1) keeps_none test_patch
      refl
