-- ===== src/Text/Numbers.antt =====
-- The standard library's parsing and printing of decimal numbers.
pub mod Laws
use scim_server.Common.{
  ℕ, zero, suc, ◌+◌, ◌-◌, ◌*◌, Option, none, some, [], ◌∷◌, leb, nat_eq, if◌then◌else◌,
}
use Prim.Native.Nat.{◌/◌, ◌%◌}
use scim_server.Text.{Text, is_ascii_digit}

-- The digits of a number, or `none` at another character.
unfoldable pub digits_value : ℕ → Text → Option ℕ
digits_value n [] = some n
digits_value n (c ∷ s) =
    let rest = digits_value (n * 10 + (c - 48)) s in if is_ascii_digit c then rest else none

abbrev pub nonempty_digits : Text → Option ℕ
nonempty_digits [] = none
nonempty_digits (c ∷ s) = digits_value 0 (c ∷ s)

abbrev pub up_to : ℕ → Option ℕ → Option ℕ
up_to max none = none
up_to max (some n) = if leb n max then some n else none

-- `s.parse` of an unsigned type with that greatest value: digits, after a `+` or not.
unfoldable pub parse_unsigned : ℕ → Text → Option ℕ
unfolding digits_value
parse_unsigned max [] = none
parse_unsigned max (c ∷ s) =
    up_to max (if nat_eq c b'+' then nonempty_digits s else nonempty_digits (c ∷ s))

-- The digits of a number, in front of a text. The fuel bounds their number.
unfoldable pub digits_before : ℕ → ℕ → Text → Text
digits_before zero n s = s
digits_before (suc fuel) n s =
    let rest = digits_before fuel (n / 10) ((n % 10 + 48) ∷ s) in
    if leb n 9 then (n + 48) ∷ s else rest

-- `n.to_string()`
unfoldable pub show : ℕ → Text
unfolding digits_before
show n = digits_before (suc n) n []
