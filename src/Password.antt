-- ===== src/Password.antt =====
-- src/password: PasswordManager with its rules for passwords and its recognition of hashes. The
-- hash functions themselves are third-party.
pub mod Laws
use scim_server.Common.{
  ℕ, ◌+◌, Bool, true, false, not, ◌&&◌, ◌||◌, Option, none, some, [], ◌∷◌, if◌then◌else◌, any, keep,
  length, ltb, leb, nat_eq,
}
use scim_server.Text.{Text, codes, starts_with, strip_prefix, is_ascii_digit, len_utf8}
use scim_server.Error.{AppResult, ok, err, bad_request, ◌>>=◌}

-- The crates behind the hashers, and Unicode's properties of a character.
pub record Crypto : Type 0 where
  -- `Argon2::hash_password` with a fresh salt
  pub argon2 : Text → AppResult Text
  -- `PasswordHash::new(value).is_ok()`
  pub is_phc : Text → Bool
  -- the length of what base64 decodes to
  pub decoded_len : Text → Option ℕ
  pub is_lowercase : ℕ → Bool
  pub is_uppercase : ℕ → Bool

-- `value.len()`, in bytes
unfoldable pub byte_len : Text → ℕ
byte_len [] = 0
byte_len (c ∷ s) = len_utf8 c + byte_len s

abbrev pub special_characters : Text
special_characters = codes "!@#$%^&*()_+-=[]{}|;:,.<>?"

unfoldable pub is_special : ℕ → Bool
is_special c = any (nat_eq c) special_characters

-- The rules in their order: the first one that is broken is the error.
unfoldable pub validate_password_strength : Crypto → Text → AppResult (Unit {0})
unfolding is_special
validate_password_strength crypto password =
    if ltb (byte_len password) 8
    then err (bad_request (codes "Password must be at least 8 characters long"))
    else if ltb 128 (byte_len password)
    then err (bad_request (codes "Password must be no more than 128 characters long"))
    else if not (any crypto.is_lowercase password)
    then err (bad_request (codes "Password must contain at least one lowercase letter"))
    else if not (any crypto.is_uppercase password)
    then err (bad_request (codes "Password must contain at least one uppercase letter"))
    else if not (any is_ascii_digit password)
    then err (bad_request (codes "Password must contain at least one digit"))
    else if not (any is_special password)
    then err (
        bad_request (
          codes
            "Password must contain at least one special character (!@#$%^&*()_+-=[]{}|;:,.<>?)"))
    else ok tt

abbrev pub is_empty : Text → Bool
is_empty [] = true
is_empty (c ∷ s) = false

-- `hash_password` of a manager whose algorithm is Argon2id, as all of the program's are.
unfoldable pub hash_password : Crypto → Text → AppResult Text
unfolding validate_password_strength
hash_password crypto password =
    if is_empty password
    then err (bad_request (codes "Password cannot be empty"))
    else validate_password_strength crypto password >>= (λ checked. crypto.argon2 password)

-- `BcryptHasher::is_hash`
unfoldable pub is_bcrypt : Text → Bool
unfolding byte_len
is_bcrypt s =
    (starts_with s (codes "$2")
      || starts_with s (codes "$2a$")
      || starts_with s (codes "$2b$")
      || starts_with s (codes "$2x$")
      || starts_with s (codes "$2y$"))
    && nat_eq (byte_len s) 60
    && nat_eq (length (keep (nat_eq b'$') s)) 3

-- `SshaHasher::is_hash`
unfoldable pub is_ssha : Crypto → Text → Bool
is_ssha crypto s = elim (strip_prefix s (codes "{SSHA}")) [
  | none ↦ false
  | some encoded ↦ elim (crypto.decoded_len encoded) [ none ↦ false | some n ↦ leb 20 n ]
]

-- `Argon2idHasher::is_hash`
unfoldable pub is_argon2id : Crypto → Text → Bool
is_argon2id crypto s = starts_with s (codes "$argon2id$") && crypto.is_phc s

unfoldable pub is_hashed_password : Crypto → Text → Bool
unfolding is_bcrypt is_ssha is_argon2id
is_hashed_password crypto s = is_bcrypt s || is_ssha crypto s || is_argon2id crypto s
