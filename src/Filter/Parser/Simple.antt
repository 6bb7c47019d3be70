-- ===== src/Filter/Parser/Simple.antt =====
-- The part of the parser without recursion.
use scim_server.Common.{
  ℕ, ◌+◌, ◌-◌, ◌≢◌, ◌||◌, Option, List, [], ◌∷◌, arith, length, take, drop, Option-cases, inl, inr,
}
use scim_server.Text.{Text, codes, trim, find, rfind, strip_suffix}
use scim_server.Json.{Value, Number}
use scim_server.Error.{ok, out_of_fuel, Returns, Returns-if, Returns-ne-out_of_fuel}
use scim_server.Filter.{FilterOperator}
use scim_server.Filter.Scan.{find_operator_position}
use scim_server.Filter.Parser.{
  is_empty, parse_filter_value, operators, try_operators, parse_simple_filter, parse_complex,
  parse_condition,
}

module _ (parse_f64 : Text → Option Number) where
  try_operators-Returns :
      (ops : List (Text × (Text → Value → FilterOperator))) (t s : Text)
      → Returns (try_operators parse_f64 ops t s)
  unfolding try_operators
  try_operators-Returns [] t s = tt
  try_operators-Returns ((operator, build) ∷ ops) t s =
      elim (Option-cases (find_operator_position s operator)) [
        | inl e ↦ rw (e, try_operators) (try_operators-Returns ops t s)
        | inr (i, e) ↦
            rw (e, try_operators)
              (let attr = trim (take i s) in
                let value_str = trim (drop (i + length operator) s) in
                Returns-if (is_empty attr || is_empty value_str) (try_operators parse_f64 ops t s)
                  (ok (build attr (parse_filter_value parse_f64 value_str)))
                  (try_operators-Returns ops t s) tt)
      ]

  pub parse_simple_filter-Returns : (s : Text) → Returns (parse_simple_filter parse_f64 s)
  unfolding parse_simple_filter
  parse_simple_filter-Returns s = elim (Option-cases (strip_suffix (trim s) (codes " pr"))) [
    | inl e ↦ rw (e, parse_simple_filter) (try_operators-Returns operators s (trim s))
    | inr (t, e) ↦ rw (e, parse_simple_filter) tt
  ]

  parse_complex-ends : (s : Text) (i j : ℕ) → parse_complex parse_f64 s i j ≢ out_of_fuel
  unfolding parse_complex
  parse_complex-ends s i j =
      let filter = take (j - (i + 1)) (drop (i + 1) s) in
      ground (
        arith,
        Returns-ne-out_of_fuel (parse_simple_filter parse_f64 filter)
            (parse_simple_filter-Returns filter),
      )

  pub parse_condition-ends : (s : Text) → parse_condition parse_f64 s ≢ out_of_fuel
  unfolding parse_condition
  parse_condition-ends s =
      let simple =
        Returns-ne-out_of_fuel (parse_simple_filter parse_f64 s) (parse_simple_filter-Returns s) in
      elim (Option-cases (find b'[' s)) [
        | inl e ↦ rw (e, parse_condition) simple
        | inr (i, e) ↦ elim (Option-cases (rfind b']' s)) [
          | inl f ↦ rw (e, f, parse_condition) simple
          | inr (j, f) ↦ rw (e, f, parse_condition) (parse_complex-ends s i j)
        ]
      ]
