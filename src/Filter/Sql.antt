-- ===== src/Filter/Sql.antt =====
-- src/backend/database/sqlite/filter_impl.rs: a filter as a condition of SQL with its parameters.
-- The parameters collected so far are handed through.
pub mod Paths
pub mod Values
pub mod Shape
pub mod Supported
mod Tests
use scim_server.Common.{
  ℕ, ◌+◌, Bool, true, false, not, ◌&&◌, ◌||◌, Option, none, some, List, [], ◌∷◌, ◌++◌, map, length,
  if◌then◌else◌,
}
use scim_server.Text.{Text, codes}
use scim_server.Text.Numbers.{show}
use scim_server.Json.{Value, Number, bool, string, number, null}
use scim_server.Error.{AppResult, ok, err, filter_parse, ◌>>=◌}
use scim_server.Schema.Lookup.{ResourceType}
use scim_server.Filter.{FilterOperator}
use scim_server.Filter.Sql.Paths.{
  Strings, scim_path_to_json_path, is_case_exact_field, multi_valued_parts,
}

-- A condition, and the parameters after it.
abbrev pub Sql : Type 0
Sql = Text × List Text

module _ (strings : Strings) where
  -- `value_to_string`
  unfoldable pub value_to_string : Value → Text
  value_to_string (string s) = s
  value_to_string (number n) = strings.number_to_string n
  value_to_string (bool true) = codes "true"
  value_to_string (bool false) = codes "false"
  value_to_string null = codes "null"
  value_to_string v = strings.to_json v

  -- "normalize values": strings in lower case
  unfoldable pub normalized : Value → Text
  unfolding value_to_string
  normalized (string s) = strings.to_lowercase s
  normalized v = value_to_string v

  -- `json_each` over the array, with the test of an element's part.
  abbrev pub any_element : Text → Text → Text → Text
  any_element attr before sub =
      codes "EXISTS (SELECT 1 FROM json_each(data_norm, '$."
      ++ (strings.to_lowercase attr
          ++ (codes "') WHERE "
              ++ (before
                  ++ (codes "json_extract(value, '$."
                      ++ (strings.to_lowercase sub ++ codes "')")))))

  -- `format!("…?{}", …, param_index)` with the parameter pushed.
  abbrev pub with_param : Text → Text → Text → List Text → Sql
  with_param before param behind params =
      (before ++ (codes "?" ++ (show (length params + 1) ++ behind)), params ++ param ∷ [])

  unfoldable pub multi_value_equality : Text → Text → Value → List Text → Sql
  unfolding normalized
  multi_value_equality attr sub v params =
      with_param (any_element attr [] sub ++ codes " = ") (normalized v) (codes ")") params

  unfoldable pub multi_value_not_equality : Text → Text → Value → List Text → Sql
  unfolding normalized
  multi_value_not_equality attr sub v params =
      with_param (codes "NOT " ++ (any_element attr [] sub ++ codes " = ")) (normalized v)
        (codes ")") params

  -- `handle_multi_value_contains`, `…_starts_with` and `…_ends_with`, by their pattern
  unfoldable pub multi_value_like : Text → Text → Text → List Text → Sql
  multi_value_like attr sub pattern params =
      with_param (any_element attr (codes "LOWER(") sub ++ codes ") LIKE LOWER(") pattern
        (codes "))") params

  abbrev pub column : Text → Text → Text
  column name path = codes "json_extract(" ++ (name ++ (codes ", '$." ++ (path ++ codes "')")))

  abbrev pub bit : Bool → Text
  bit true = codes "1"
  bit false = codes "0"

  -- "Check if this is a case-exact field": the column, and the value as it is compared.
  unfoldable pub compared_text : Text → ResourceType → Text → Value → List Text → Sql
  unfolding normalized
  compared_text attr r op v params =
      let path = scim_path_to_json_path strings attr r in
      if is_case_exact_field attr r
      then with_param (column (codes "data_orig") path ++ op) (value_to_string v) [] params
      else with_param (column (codes "data_norm") path ++ op) (normalized v) [] params

  -- A Boolean is written into the condition.
  unfoldable pub compared : Text → ResourceType → Text → Value → List Text → Sql
  unfolding compared_text
  compared attr r op (bool b) params =
      (column (codes "data_norm") (scim_path_to_json_path strings attr r) ++ (op ++ bit b), params)
  compared attr r op v params = compared_text attr r op v params

  unfoldable pub equality : Text → Value → ResourceType → List Text → Sql
  unfolding compared multi_value_equality
  equality attr v r params = elim (multi_valued_parts attr r) [
    | some (array, sub) ↦ multi_value_equality array sub v params
    | none ↦ compared attr r (codes " = ") v params
  ]

  unfoldable pub not_equality : Text → Value → ResourceType → List Text → Sql
  unfolding compared multi_value_not_equality
  not_equality attr v r params = elim (multi_valued_parts attr r) [
    | some (array, sub) ↦ multi_value_not_equality array sub v params
    | none ↦ compared attr r (codes " != ") v params
  ]

  -- `handle_contains`, `handle_starts_with` and `handle_ends_with`, by their pattern
  unfoldable pub like : Text → Text → ResourceType → List Text → Sql
  unfolding multi_value_like
  like attr pattern r params = elim (multi_valued_parts attr r) [
    | some (array, sub) ↦ multi_value_like array sub pattern params
    | none ↦
        with_param
          (codes "LOWER("
            ++ (column (codes "data_norm") (scim_path_to_json_path strings attr r)
                ++ codes ") LIKE LOWER("))
          pattern (codes ")") params
  ]

  unfoldable pub present_sql : Text → ResourceType → Text
  present_sql attr r =
      let read = column (codes "data_norm") (scim_path_to_json_path strings attr r) in
      read ++ (codes " IS NOT NULL AND " ++ (read ++ codes " != ''"))

  -- `handle_greater_than` and the three like it, by their operator
  unfoldable pub ordering : Text → Text → Value → ResourceType → List Text → Sql
  unfolding normalized
  ordering op attr v r params =
      with_param
        (codes "CAST("
          ++ (column (codes "data_norm") (scim_path_to_json_path strings attr r)
              ++ (codes " AS REAL) " ++ (op ++ codes " CAST("))))
        (normalized v) (codes " AS REAL)") params

  abbrev pub percent : Text
  percent = codes "%"

  abbrev pub unsupported : Text → AppResult Sql
  unsupported attr = err (filter_parse (codes "Unsupported complex filter operation for " ++ attr))

  unfoldable pub handle_complex_filter : Text → FilterOperator → List Text → AppResult Sql
  unfolding multi_value_equality multi_value_not_equality multi_value_like
  handle_complex_filter attr (FilterOperator.equal sub v) params =
      ok (multi_value_equality attr sub v params)
  handle_complex_filter attr (FilterOperator.not_equal sub v) params =
      ok (multi_value_not_equality attr sub v params)
  handle_complex_filter attr (FilterOperator.contains sub v) params =
      ok (multi_value_like attr sub (percent ++ (value_to_string v ++ percent)) params)
  handle_complex_filter attr (FilterOperator.starts_with sub v) params =
      ok (multi_value_like attr sub (value_to_string v ++ percent) params)
  handle_complex_filter attr (FilterOperator.ends_with sub v) params =
      ok (multi_value_like attr sub (percent ++ value_to_string v) params)
  handle_complex_filter attr (FilterOperator.present sub) params =
      ok (any_element attr [] sub ++ codes " IS NOT NULL)", params)
  handle_complex_filter attr inner params = unsupported attr

  abbrev pub joined : Text → AppResult Sql → (List Text → AppResult Sql) → AppResult Sql
  joined word left right = left >>= λ (l : Sql).
      right l.1 >>= λ (r : Sql). ok (codes "(" ++ (l.0 ++ (word ++ (r.0 ++ codes ")"))), r.1)

  unfoldable pub convert_filter_to_sql : ResourceType → FilterOperator → List Text → AppResult Sql
  unfolding equality not_equality like present_sql ordering handle_complex_filter
  convert_filter_to_sql r (FilterOperator.equal attr v) params = ok (equality attr v r params)
  convert_filter_to_sql r (FilterOperator.not_equal attr v) params =
      ok (not_equality attr v r params)
  convert_filter_to_sql r (FilterOperator.contains attr v) params =
      ok (like attr (percent ++ (value_to_string v ++ percent)) r params)
  convert_filter_to_sql r (FilterOperator.starts_with attr v) params =
      ok (like attr (value_to_string v ++ percent) r params)
  convert_filter_to_sql r (FilterOperator.ends_with attr v) params =
      ok (like attr (percent ++ value_to_string v) r params)
  convert_filter_to_sql r (FilterOperator.present attr) params = ok (present_sql attr r, params)
  convert_filter_to_sql r (FilterOperator.greater_than attr v) params =
      ok (ordering (codes ">") attr v r params)
  convert_filter_to_sql r (FilterOperator.greater_than_or_equal attr v) params =
      ok (ordering (codes ">=") attr v r params)
  convert_filter_to_sql r (FilterOperator.less_than attr v) params =
      ok (ordering (codes "<") attr v r params)
  convert_filter_to_sql r (FilterOperator.less_than_or_equal attr v) params =
      ok (ordering (codes "<=") attr v r params)
  convert_filter_to_sql r (FilterOperator.conj f g) params =
      joined (codes " AND ") (convert_filter_to_sql r f params) (convert_filter_to_sql r g)
  convert_filter_to_sql r (FilterOperator.disj f g) params =
      joined (codes " OR ") (convert_filter_to_sql r f params) (convert_filter_to_sql r g)
  convert_filter_to_sql r (FilterOperator.neg f) params =
      convert_filter_to_sql r f params >>= λ (x : Sql).
      ok (codes "NOT (" ++ (x.0 ++ codes ")"), x.1)
  convert_filter_to_sql r (FilterOperator.complex attr inner) params =
      handle_complex_filter attr inner params

  unfoldable pub to_where_clause : FilterOperator → ResourceType → AppResult Sql
  unfolding convert_filter_to_sql
  to_where_clause f r = convert_filter_to_sql r f []
