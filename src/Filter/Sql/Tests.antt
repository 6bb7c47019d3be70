-- ===== src/Filter/Sql/Tests.antt =====
-- Some filters as SQL.
use scim_server.Filter.Scan.{find_keyword}
use scim_server.Schema.Definitions.{find_attribute}
use scim_server.Common.{◌≡◌, refl, true, none, [], ◌∷◌, map}
use scim_server.Text.{strip_suffix, find, trim, starts_with, split, Text, codes, ascii_lower}
use scim_server.Text.Numbers.{show}
use scim_server.Json.{string, bool}
use scim_server.Error.{ok}
use scim_server.Schema.Lookup.{
  is_multi_valued_attribute, is_case_exact_field_for_resource, user_type,
}
use scim_server.Filter.{FilterOperator}
use scim_server.Filter.Parser.{parse_filter}
use scim_server.Filter.Sql.Paths.{
  scim_path_to_json_path, is_case_exact_field, multi_valued_parts, Strings,
}
use scim_server.Filter.Sql.{to_where_clause}
use scim_server.Filter.Sql.Values.{hidden}
use scim_server.Filter.Sql.Shape.{SameShape, SameResult, to_where_clause-SameResult}
use scim_server.Filter.Sql.Supported.{succeeds, supported, to_where_clause-supported}

abbrev strings : Strings
strings = record { to_lowercase = map ascii_lower; number_to_string = λ n. []; to_json = λ v. [] }

abbrev named : Text → FilterOperator
named name = FilterOperator.conj (FilterOperator.equal (codes "userName") (string name)) (
    FilterOperator.complex (codes "emails") (FilterOperator.contains (codes "value") (string name)))

converts :
    to_where_clause strings (named (codes "Ann")) user_type
    ≡ ok (
      codes
          "(json_extract(data_norm, '$.username') = ?1 AND EXISTS (SELECT 1 FROM json_each(data_norm, '$.emails') WHERE LOWER(json_extract(value, '$.value')) LIKE LOWER(?2)))",
      codes "ann" ∷ codes "%Ann%" ∷ [],
    )
unfolding to_where_clause multi_valued_parts split is_case_exact_field
    is_case_exact_field_for_resource find_attribute ascii_lower scim_path_to_json_path show
converts = refl

to_where_clause-SameResult_example :
    SameResult
      (to_where_clause strings (named (codes "Ann")) user_type)
      (to_where_clause strings (named (codes "') OR 1=1 --")) user_type)
to_where_clause-SameResult_example =
    to_where_clause-SameResult strings (named (codes "Ann")) (named (codes "') OR 1=1 --"))
      user_type
      (SameShape.conj (FilterOperator.equal (codes "userName") (string (codes "Ann")))
        (FilterOperator.equal (codes "userName") (string (codes "') OR 1=1 --")))
        (FilterOperator.complex (codes "emails")
          (FilterOperator.contains (codes "value") (string (codes "Ann"))))
        (FilterOperator.complex (codes "emails")
          (FilterOperator.contains (codes "value") (string (codes "') OR 1=1 --"))))
        (SameShape.equal (codes "userName") (string (codes "Ann")) (string (codes "') OR 1=1 --"))
          (hidden (string (codes "Ann")) (string (codes "') OR 1=1 --")) refl refl))
        (SameShape.complex (codes "emails")
          (FilterOperator.contains (codes "value") (string (codes "Ann")))
          (FilterOperator.contains (codes "value") (string (codes "') OR 1=1 --")))
          (SameShape.contains (codes "value") (string (codes "Ann"))
            (string (codes "') OR 1=1 --")))))

to_where_clause-supported_example :
    succeeds (to_where_clause strings (named (codes "Ann")) user_type)
    ≡ supported (named (codes "Ann"))
to_where_clause-supported_example =
    to_where_clause-supported strings (named (codes "Ann")) user_type

-- The name of an attribute is written into the text as it is, quotes included.
name_in_text :
    to_where_clause strings (FilterOperator.present (codes "x')=1||('1")) user_type
    ≡ ok (
      codes
          "json_extract(data_norm, '$.x')=1||('1') IS NOT NULL AND json_extract(data_norm, '$.x')=1||('1') != ''",
      [],
    )
unfolding to_where_clause scim_path_to_json_path ascii_lower is_multi_valued_attribute
    find_attribute split is_case_exact_field_for_resource
name_in_text = refl

-- A name like that comes out of the parser.
name_parses :
    parse_filter (λ s. none) 20 (codes "x')=1||('1 pr")
    ≡ ok (FilterOperator.present (codes "x')=1||('1"))
unfolding parse_filter starts_with trim ascii_lower find_keyword find strip_suffix
name_parses = refl

-- A Boolean in an array is compared with a text.
boolean_as_text :
    to_where_clause strings
      (FilterOperator.complex (codes "emails") (FilterOperator.equal (codes "primary") (bool true)))
      user_type
    ≡ ok (
      codes
          "EXISTS (SELECT 1 FROM json_each(data_norm, '$.emails') WHERE json_extract(value, '$.primary') = ?1)",
      codes "true" ∷ [],
    )
unfolding to_where_clause ascii_lower show
boolean_as_text = refl
