-- ===== src/Filter/Scan.antt =====
-- The scanning loops of src/parser/filter_parser.rs: over the characters of a filter, with the state
-- of quotes, escapes and parentheses. `find_operator_position` walks bytes; what it looks for is
-- ASCII, so that the positions it can stop at are those of characters.
pub mod Laws
use scim_server.Common.{
  ℕ, zero, suc, ◌+◌, ℤ, pos, up, down, is_zero, Bool, true, false, not, ◌&&◌, ◌||◌, Option, none,
  some, List, [], ◌∷◌, all, ltb, nat_eq, if◌then◌else◌, length, drop,
}
use scim_server.Text.{Text, codes, starts_with, is_ascii_alphabetic}

pub record Quotes : Type 0 where
  pub in_quotes : Bool
  pub escape_next : Bool

pub record Scan : Type 0 where
  pub depth : ℤ
  pub quotes : Quotes

abbrev pub unquoted : Quotes
unquoted = record { in_quotes = false; escape_next = false }

abbrev pub scan_init : Scan
scan_init = record { depth = pos 0; quotes = unquoted }

-- The `if escape_next … if ch == '\\' … if ch == '"' …` of each loop.
unfoldable pub step_quotes : Quotes → ℕ → Quotes
step_quotes q c =
    if q.escape_next
    then record q { escape_next = false }
    else if nat_eq c 0x5c
    then record q { escape_next = true }
    else if nat_eq c 0x22
    then record q { in_quotes = not q.in_quotes }
    else q

-- The loop goes on to `if !in_quotes { … }`, and enters it.
unfoldable pub visible : Quotes → ℕ → Bool
visible q c = not q.escape_next && not (nat_eq c 0x5c) && not (nat_eq c 0x22) && not q.in_quotes

unfoldable pub step_depth : Scan → ℕ → ℤ
step_depth st c =
    if visible st.quotes c && nat_eq c b'('
    then up st.depth
    else if visible st.quotes c && nat_eq c b')'
    then down st.depth
    else st.depth

unfoldable pub step : Scan → ℕ → Scan
unfolding step_quotes visible step_depth
step st c = record { depth = step_depth st c; quotes = step_quotes st.quotes c }

abbrev is_empty : Text → Bool
is_empty [] = true
is_empty (c ∷ s) = false

-- The loop of `parse_filter`, and `depth == 0 && first_paren_closes_at_end` behind it.
unfoldable pub closes_at_end : Scan → Text → Bool
unfolding step
closes_at_end st [] = is_zero st.depth
closes_at_end st (c ∷ s) =
    let rest = closes_at_end (step st c) s in
    if visible st.quotes c && nat_eq c b')' && is_zero (step_depth st c) && not (is_empty s)
    then false
    else rest

-- `i` of the first `keyword` outside quotes and at depth 0 with something behind it: a pass of
-- `find_logical_operator`.
unfoldable pub find_keyword : Text → Scan → Text → Option ℕ
unfolding step
find_keyword keyword st [] = none
find_keyword keyword st (c ∷ s) =
    let rest = find_keyword keyword (step st c) s in
    if visible st.quotes c
      && is_zero (step_depth st c)
      && ltb (length keyword) (suc (length s))
      && starts_with (c ∷ s) keyword
    then some 0
    else elim rest [ none ↦ none | some i ↦ some (suc i) ]

-- Whether the next character is no ASCII letter, or there is none.
abbrev ends_word : Text → Bool
ends_word [] = true
ends_word (c ∷ s) = not (is_ascii_alphabetic c)

-- Whether the character in front is no ASCII letter, or there is none.
abbrev begins_word : Option ℕ → Bool
begins_word none = true
begins_word (some c) = not (is_ascii_alphabetic c)

-- A word operator must stand alone.
abbrev pub bounded : Text → Option ℕ → Text → Bool
bounded operator before s =
    if all is_ascii_alphabetic operator
    then begins_word before && ends_word (drop (length operator) s)
    else true

-- The loop of `find_operator_position`; `before` is the character in front.
unfoldable pub find_operator : Text → Option ℕ → Quotes → Text → Option ℕ
unfolding step_quotes visible
find_operator operator before q [] = none
find_operator operator before q (c ∷ s) =
    let rest = find_operator operator (some c) (step_quotes q c) s in
    if visible q c && starts_with (c ∷ s) operator && bounded operator before (c ∷ s)
    then some 0
    else elim rest [ none ↦ none | some i ↦ some (suc i) ]

unfoldable pub find_operator_position : Text → Text → Option ℕ
unfolding find_operator
find_operator_position s operator = find_operator operator none unquoted s
