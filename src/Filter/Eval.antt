-- ===== src/Filter/Eval.antt =====
-- `ScimFilter` of src/parser/patch_parser.rs: whether an object matches a filter, and the first
-- condition of a filter.
pub mod Holds
mod Tests
use scim_server.Common.{
  Ordering, Bool, true, false, not, ◌&&◌, ◌||◌, Option, none, some, if◌then◌else◌,
}
use scim_server.Text
use scim_server.Text.{Text, ◌==◌, codes, cmp}
use scim_server.Json.{
  Value, Fields, Number, null, bool, number, string, get, contains_key, value_eq, as_str,
}
use scim_server.Filter.{
  FilterOperator, equal, not_equal, contains, starts_with, ends_with, greater_than,
  greater_than_or_equal, less_than, less_than_or_equal, present, conj, disj, neg, complex,
}

-- serde_json's and the standard library's comparison of numbers: `a.as_f64().partial_cmp(b.as_f64())`,
-- `none` where it has no answer.
abbrev pub NumberCmp : Type 0
NumberCmp = Number → Number → Option Ordering

-- `false < true`
abbrev bool_cmp : Bool → Bool → Ordering
bool_cmp false true = Ordering.lt
bool_cmp true false = Ordering.gt
bool_cmp _ _ = Ordering.eq

module _ (num : NumberCmp) where
  unfoldable pub compare_values : Value → Value → Ordering
  compare_values (string a) (string e) = cmp a e
  compare_values (number a) (number e) = elim (num a e) [ none ↦ Ordering.eq | some o ↦ o ]
  compare_values (bool a) (bool e) = bool_cmp a e
  compare_values _ _ = Ordering.eq

  -- `if let (Value::String(actual), Value::String(expected)) = …`
  abbrev on_strings : (Text → Text → Bool) → Value → Value → Bool
  on_strings p (string a) (string e) = p a e
  on_strings p _ _ = false

  -- The `match operator`, once the attribute is found.
  unfoldable pub match_operator : Text → Value → Value → Bool
  unfolding compare_values
  match_operator op actual expected =
      if op == codes "eq"
      then value_eq actual expected
      else if op == codes "ne"
      then not (value_eq actual expected)
      else if op == codes "co"
      then on_strings Text.contains actual expected
      else if op == codes "sw"
      then on_strings Text.starts_with actual expected
      else if op == codes "ew"
      then on_strings Text.ends_with actual expected
      else if op == codes "gt"
      then elim (compare_values actual expected) [ Ordering.gt ↦ true | _ ↦ false ]
      else if op == codes "ge"
      then elim (compare_values actual expected) [ Ordering.lt ↦ false | _ ↦ true ]
      else if op == codes "lt"
      then elim (compare_values actual expected) [ Ordering.lt ↦ true | _ ↦ false ]
      else if op == codes "le"
      then elim (compare_values actual expected) [ Ordering.gt ↦ false | _ ↦ true ]
      else false

  unfoldable pub simple_match : Fields → Text → Text → Value → Bool
  unfolding match_operator
  simple_match item attribute op expected = elim (get attribute item) [
    | none ↦ false
    | some actual ↦ match_operator op actual expected
  ]

  unfoldable pub evaluate_filter : Fields → FilterOperator → Bool
  unfolding simple_match
  evaluate_filter item (equal attr val) = simple_match item attr (codes "eq") val
  evaluate_filter item (not_equal attr val) = simple_match item attr (codes "ne") val
  evaluate_filter item (contains attr val) = simple_match item attr (codes "co") val
  evaluate_filter item (starts_with attr val) = simple_match item attr (codes "sw") val
  evaluate_filter item (ends_with attr val) = simple_match item attr (codes "ew") val
  evaluate_filter item (greater_than attr val) = simple_match item attr (codes "gt") val
  evaluate_filter item (greater_than_or_equal attr val) = simple_match item attr (codes "ge") val
  evaluate_filter item (less_than attr val) = simple_match item attr (codes "lt") val
  evaluate_filter item (less_than_or_equal attr val) = simple_match item attr (codes "le") val
  evaluate_filter item (present attr) = contains_key attr item
  evaluate_filter item (conj left right) = evaluate_filter item left && evaluate_filter item right
  evaluate_filter item (disj left right) = evaluate_filter item left || evaluate_filter item right
  evaluate_filter item (neg inner) = not (evaluate_filter item inner)
  evaluate_filter item (complex attr inner) = evaluate_filter item inner

-- `val.as_str().unwrap_or("")`
abbrev pub str_or_empty : Value → Text
str_or_empty (string s) = s
str_or_empty _ = codes ""

-- `extract_first_condition`, and with it `get_condition`: attribute, operator and value.
unfoldable pub get_condition : FilterOperator → Text × Text × Text
get_condition (equal attr val) = (attr, codes "eq", str_or_empty val)
get_condition (not_equal attr val) = (attr, codes "ne", str_or_empty val)
get_condition (contains attr val) = (attr, codes "co", str_or_empty val)
get_condition (starts_with attr val) = (attr, codes "sw", str_or_empty val)
get_condition (ends_with attr val) = (attr, codes "ew", str_or_empty val)
get_condition (greater_than attr val) = (attr, codes "gt", str_or_empty val)
get_condition (greater_than_or_equal attr val) = (attr, codes "ge", str_or_empty val)
get_condition (less_than attr val) = (attr, codes "lt", str_or_empty val)
get_condition (less_than_or_equal attr val) = (attr, codes "le", str_or_empty val)
get_condition (present attr) = (attr, codes "pr", codes "")
get_condition (conj left right) = get_condition left
get_condition (disj left right) = get_condition left
get_condition (neg inner) = get_condition inner
get_condition (complex attr inner) = get_condition inner
