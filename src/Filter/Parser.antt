-- ===== src/Filter/Parser.antt =====
-- `parse_filter` of src/parser/filter_parser.rs and what it calls.
mod Shorter
mod Simple
pub mod Fuel
pub mod Ends
pub mod Ascii
mod Tests
use scim_server.Common.{
  ℕ, zero, suc, ◌+◌, ◌-◌, ◌*◌, Bool, true, false, ◌&&◌, ◌||◌, Option, none, some, List, [], ◌∷◌,
  ◌++◌, map, leb, ltb, nat_eq, if◌then◌else◌, length, take, drop,
}
use scim_server.Text.{
  Text, ◌==◌, codes, starts_with, ends_with, strip_suffix, find, rfind, trim, ascii_lower,
  is_ascii_digit, split_at_byte,
}
use scim_server.Text.Numbers.{digits_value, nonempty_digits}
use scim_server.Json.{Value, Number, null, bool, number, string, pos_int, neg_int}
use scim_server.Error.{AppResult, ok, err, panicked, out_of_fuel, filter_parse, ◌>>=◌}
use scim_server.Filter.{
  FilterOperator, equal, not_equal, contains, greater_than, greater_than_or_equal, less_than,
  less_than_or_equal, present, conj, disj, neg, complex,
}
use scim_server.Filter
use scim_server.Filter.Scan.{scan_init, closes_at_end, find_keyword, find_operator_position}

abbrev positive : ℕ → Option Number
positive n = if ltb n 0x8000000000000000 then some (pos_int n) else none

abbrev negative : ℕ → Option Number
negative n =
    if nat_eq n 0
    then some (pos_int 0)
    else if leb n 0x8000000000000000
    then some (neg_int (n - 1))
    else none

-- `s.parse::<i64>()`, and `Number::from` of it.
unfoldable pub parse_i64 : Text → Option Number
unfolding digits_value
parse_i64 [] = none
parse_i64 (c ∷ s) =
    if nat_eq c b'-'
    then elim (nonempty_digits s) [ none ↦ none | some n ↦ negative n ]
    else if nat_eq c b'+'
    then elim (nonempty_digits s) [ none ↦ none | some n ↦ positive n ]
    else elim (digits_value 0 (c ∷ s)) [ none ↦ none | some n ↦ positive n ]

-- `s.replace("\\\"", "\"")`
unfoldable pub unescape : Text → Text
unescape [] = []
unescape (c ∷ []) = c ∷ []
unescape (c ∷ d ∷ s) =
    let rest = unescape s in
    let next = unescape (d ∷ s) in if nat_eq c 0x5c && nat_eq d 0x22 then 0x22 ∷ rest else c ∷ next

-- The operators in the order in which they are tried, each with what it builds.
abbrev pub operators : List (Text × (Text → Value → FilterOperator))
operators =
    (codes ">=", greater_than_or_equal)
    ∷ (codes "<=", less_than_or_equal)
    ∷ (codes "!=", not_equal)
    ∷ (codes "eq", equal)
    ∷ (codes "ne", not_equal)
    ∷ (codes "co", contains)
    ∷ (codes "sw", Filter.starts_with)
    ∷ (codes "ew", Filter.ends_with)
    ∷ (codes "gt", greater_than)
    ∷ (codes "ge", greater_than_or_equal)
    ∷ (codes "lt", less_than)
    ∷ (codes "le", less_than_or_equal)
    ∷ (codes "=", equal)
    ∷ (codes ">", greater_than)
    ∷ (codes "<", less_than)
    ∷ []

abbrev is_empty : Text → Bool
is_empty [] = true
is_empty (c ∷ s) = false

unfoldable pub is_not : Text → Bool
is_not s = starts_with (map ascii_lower s) (codes "not ")

unfoldable pub is_parenthesised : Text → Bool
is_parenthesised s =
    starts_with s (codes "(") && ends_with s (codes ")") && closes_at_end scan_init s

-- `&trimmed[1..trimmed.len() - 1]`
abbrev pub inside : Text → Text
inside s = take (length s - 2) (drop 1 s)

-- `parse_f64`: the standard library's `s.parse::<f64>()`, and `Number::from_f64` of it.
module _ (parse_f64 : Text → Option Number) where
  unfoldable pub parse_filter_value : Text → Value
  unfolding parse_i64 unescape
  parse_filter_value value_str =
      let s = trim value_str in
      if starts_with s (codes "\"") && ends_with s (codes "\"") && leb 2 (length s)
      then string (unescape (inside s))
      else if s == codes "true"
      then bool true
      else if s == codes "false"
      then bool false
      else if s == codes "null"
      then null
      else elim (parse_i64 s) [
        | some n ↦ number n
        | none ↦ elim (parse_f64 s) [ some n ↦ number n | none ↦ string s ]
      ]

  -- The loop over the operators, on the trimmed text; `filter_str` is the text as it was given.
  unfoldable pub try_operators :
      List (Text × (Text → Value → FilterOperator)) → Text → Text → AppResult FilterOperator
  unfolding parse_filter_value
  try_operators [] filter_str s =
      err (filter_parse (codes "Could not parse filter: " ++ filter_str))
  try_operators ((operator, build) ∷ rest) filter_str s =
      let others = try_operators rest filter_str s in
      elim (find_operator_position s operator) [
        | none ↦ others
        | some i ↦
            let attr = trim (take i s) in
            let value_str = trim (drop (i + length operator) s) in
            if is_empty attr || is_empty value_str
            then others
            else ok (build attr (parse_filter_value value_str))
      ]

  unfoldable pub parse_simple_filter : Text → AppResult FilterOperator
  unfolding try_operators
  parse_simple_filter filter_str =
      let s = trim filter_str in
      elim (strip_suffix s (codes " pr")) [
        | some attr ↦ ok (present (trim attr))
        | none ↦ try_operators operators filter_str s
      ]

  -- `attr[filter]`: the slice between the brackets panics if they stand in the other order.
  unfoldable pub parse_complex : Text → ℕ → ℕ → AppResult FilterOperator
  unfolding parse_simple_filter
  parse_complex s bracket_pos bracket_end =
      if leb (bracket_pos + 1) bracket_end
      then parse_simple_filter (take (bracket_end - (bracket_pos + 1)) (drop (bracket_pos + 1) s))
        >>= (λ inner. ok (complex (take bracket_pos s) inner))
      else panicked

  -- What is left once there is no logical operator.
  unfoldable pub parse_condition : Text → AppResult FilterOperator
  unfolding parse_complex
  parse_condition s = elim (find b'[' s) [
    | none ↦ parse_simple_filter s
    | some bracket_pos ↦ elim (rfind b']' s) [
      | none ↦ parse_simple_filter s
      | some bracket_end ↦ parse_complex s bracket_pos bracket_end
    ]
  ]

  -- Both sides of a logical operator: `filter_str[..i]` and `filter_str[i + n..]` are slices at byte
  -- offsets, and `i` counts characters.
  unfoldable pub parse_sides :
      (Text → AppResult FilterOperator)
      → (FilterOperator → FilterOperator → FilterOperator)
      → ℕ
      → ℕ
      → Text
      → AppResult FilterOperator
  parse_sides parse build i n s = elim (split_at_byte i s) [
    | none ↦ panicked
    | some (left, _) ↦ elim (split_at_byte (i + n) s) [
      | none ↦ panicked
      | some (_, right) ↦ parse (trim left) >>= (λ l. parse (trim right) >>= (λ r. ok (build l r)))
    ]
  ]

  -- `find_logical_operator`, and what `parse_filter` does without one. `parse` is its recursion.
  unfoldable pub parse_logical : (Text → AppResult FilterOperator) → Text → AppResult FilterOperator
  unfolding parse_sides parse_condition
  parse_logical parse s = elim (find_keyword (codes " or ") scan_init s) [
    | some i ↦ parse_sides parse disj i 4 s
    | none ↦ elim (find_keyword (codes " and ") scan_init s) [
      | some i ↦ parse_sides parse conj i 5 s
      | none ↦ parse_condition s
    ]
  ]

  unfoldable pub parse_trimmed : (Text → AppResult FilterOperator) → Text → AppResult FilterOperator
  unfolding parse_logical is_not is_parenthesised
  parse_trimmed parse s =
      if is_parenthesised s
      then parse (inside s)
      else if is_not s
      then parse (trim (drop 4 s)) >>= (λ inner. ok (neg inner))
      else parse_logical parse s

  -- `parse_filter`, a unit of fuel for each level of recursion.
  unfoldable pub parse_filter : ℕ → Text → AppResult FilterOperator
  unfolding parse_trimmed
  parse_filter zero s = out_of_fuel
  parse_filter (suc fuel) s = parse_trimmed (parse_filter fuel) (trim s)

  -- With the fuel that always suffices.
  unfoldable pub parse_filter_str : Text → AppResult FilterOperator
  unfolding parse_filter
  parse_filter_str s = parse_filter (suc (length s)) s
