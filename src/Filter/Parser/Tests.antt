-- ===== src/Filter/Parser/Tests.antt =====
-- The unit tests of src/parser/filter_parser.rs, and inputs that show its limits.
use scim_server.Common.{◌≡◌, ◌≢◌, refl, Option, none, true, ◌∷◌, arith}
use scim_server.Text.{
  Text, codes, starts_with, trim, ascii_lower, find, strip_suffix, rfind, split_at_byte,
}
use scim_server.Filter.Scan.{closes_at_end, find_keyword, find_operator_position}
use scim_server.Json.{Number, string, bool, number, pos_int}
use scim_server.Error.{AppResult, ok, panicked, out_of_fuel, Returns}
use scim_server.Filter.{FilterOperator, equal, greater_than, present, conj, disj, neg, complex}
use scim_server.Filter.Parser.{parse_filter, parse_filter_str}
use scim_server.Filter.Parser.Ends.{parse_filter-ends}
use scim_server.Filter.Parser.Ascii.{parse_filter-Returns}

abbrev no_floats : Text → Option Number
no_floats s = none

abbrev parsed : Text → AppResult FilterOperator
unfolding parse_filter_str starts_with trim ascii_lower find_keyword find strip_suffix
    find_operator_position rfind split_at_byte closes_at_end
parsed = parse_filter_str no_floats

test_simple_equal_filter :
    parsed (codes "userName eq \"john.doe\"")
    ≡ ok (equal (codes "userName") (string (codes "john.doe")))
unfolding parsed
test_simple_equal_filter = refl

test_complex_filter_with_brackets :
    parsed (codes "emails[value eq \"alice@example.com\"]")
    ≡ ok (complex (codes "emails") (equal (codes "value") (string (codes "alice@example.com"))))
unfolding parsed
test_complex_filter_with_brackets = refl

test_numeric_filter :
    parsed (codes "age gt 30") ≡ ok (greater_than (codes "age") (number (pos_int 30)))
unfolding parsed
test_numeric_filter = refl

test_operator_precedence :
    parsed (codes "a eq \"1\" or b eq \"2\" and c pr")
    ≡ ok (
        disj
          (equal (codes "a") (string (codes "1")))
          (conj (equal (codes "b") (string (codes "2"))) (present (codes "c"))))
unfolding parsed
test_operator_precedence = refl

test_complex_parentheses_precedence :
    parsed (codes "(u eq \"a\" or u eq \"b\") and active eq true")
    ≡ ok (
        conj
          (disj (equal (codes "u") (string (codes "a"))) (equal (codes "u") (string (codes "b"))))
          (equal (codes "active") (bool true)))
unfolding parsed
test_complex_parentheses_precedence = refl

-- A negation reaches to the end of the text, over a conjunction too.
negation_takes_all :
    parsed (codes "NOT (a pr) and b pr")
    ≡ ok (neg (conj (present (codes "a")) (present (codes "b"))))
unfolding parsed
negation_takes_all = refl

-- Brackets in the other order: the slice between them panics.
brackets_reversed : parsed (codes "a]b[") ≡ panicked
unfolding parsed
brackets_reversed = refl

-- A character index is used as a byte offset, here the middle of the second of three characters.
inside_a_character : parsed (0xe9 ∷ 0xe9 ∷ 0xe9 ∷ codes " or b pr") ≡ panicked
unfolding parsed
inside_a_character = refl

abbrev negated : Text
negated = codes "not a pr and b pr"

parse_filter-ends_example : parse_filter no_floats 20 negated ≢ out_of_fuel
parse_filter-ends_example = parse_filter-ends no_floats 20 negated (omega arith)

parse_filter-Returns_example : Returns (parse_filter no_floats 18 negated)
parse_filter-Returns_example = parse_filter-Returns no_floats 18 negated (omega arith) refl
