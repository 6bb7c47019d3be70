-- ===== src/Password/Laws.antt =====
-- The rules for passwords as one statement.
use scim_server.Common.{◌≡◌, ◌↔◌, ◌≤◌, ◌∙◌, true, any, arith, [], ◌∷◌, ap}
use scim_server.Text.{Text, is_ascii_digit}
use scim_server.Error.{ok, >>=-Steps, ◌>>=◌}
use scim_server.Password.{Crypto, byte_len, is_special, hash_password, validate_password_strength}

-- A password is strong enough exactly if it has 8 to 128 bytes, and a lower case letter, an upper
-- case letter, an ASCII digit and one of the special characters.
validate_password_strength_iff :
    (crypto : Crypto) (password : Text)
    → (validate_password_strength crypto password ≡ ok tt) ↔ (
        (8 ≤ byte_len password)
        × (byte_len password ≤ 128)
        × (any crypto.is_lowercase password ≡ true)
        × (any crypto.is_uppercase password ≡ true)
        × (any is_ascii_digit password ≡ true)
        × (any is_special password ≡ true))
unfolding validate_password_strength
validate_password_strength_iff crypto password = ((λ h. ground arith), (λ h. ground arith))

-- A password is hashed exactly if it has 8 to 128 bytes, at least one lower case letter, upper case
-- letter, ASCII digit and special character, and Argon2 hashes it; the hash is Argon2's.
pub hash_password_iff :
    (crypto : Crypto) (password hashed : Text)
    → (hash_password crypto password ≡ ok hashed) ↔ (
        (8 ≤ byte_len password)
        × (byte_len password ≤ 128)
        × (any crypto.is_lowercase password ≡ true)
        × (any crypto.is_uppercase password ≡ true)
        × (any is_ascii_digit password ≡ true)
        × (any is_special password ≡ true)
        × (crypto.argon2 password ≡ ok hashed))
unfolding hash_password byte_len
hash_password_iff crypto [] hashed =
    ((λ h. absurd (ground arith)), (λ h. absurd (omega (arith, h.0))))
hash_password_iff crypto (c ∷ s) hashed = (
  (λ h.
      let (checked, e, g) =
        >>=-Steps (validate_password_strength crypto (c ∷ s))
          (λ (x : Unit {0}). crypto.argon2 (c ∷ s)) h in
      let (a, b, l, u, d, p) = (validate_password_strength_iff crypto (c ∷ s)).0 e in
      (a, b, l, u, d, p, g)),
  (λ (a, b, l, u, d, p, g).
      ap (λ r. r >>= (λ (x : Unit {0}). crypto.argon2 (c ∷ s)))
        ((validate_password_strength_iff crypto (c ∷ s)).1 (a, b, l, u, d, p))
      ∙ g),
)
