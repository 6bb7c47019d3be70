-- ===== src/Filter/Sql/Supported.antt =====
-- Which filters become a condition: in brackets only a single comparison does.
use scim_server.Common.{◌≡◌, refl, ap, ◌∙◌, Bool, true, false, ◌&&◌, List, [], ◌++◌}
use scim_server.Text.{Text, codes}
use scim_server.Error.{AppResult, ok, err, panicked, out_of_fuel, ◌>>=◌}
use scim_server.Schema.Lookup.{ResourceType}
use scim_server.Filter.{FilterOperator}
use scim_server.Filter.Sql.Paths.{Strings}
use scim_server.Filter.Sql.{
  Sql, handle_complex_filter, joined, convert_filter_to_sql, to_where_clause,
}

abbrev pub succeeds : AppResult Sql → Bool
succeeds (ok x) = true
succeeds r = false

-- A comparison that is tested of the elements of an array.
abbrev pub tests_element : FilterOperator → Bool
tests_element (FilterOperator.equal a v) = true
tests_element (FilterOperator.not_equal a v) = true
tests_element (FilterOperator.contains a v) = true
tests_element (FilterOperator.starts_with a v) = true
tests_element (FilterOperator.ends_with a v) = true
tests_element (FilterOperator.present a) = true
tests_element f = false

abbrev pub supported : FilterOperator → Bool
supported (FilterOperator.conj f g) = supported f && supported g
supported (FilterOperator.disj f g) = supported f && supported g
supported (FilterOperator.neg f) = supported f
supported (FilterOperator.complex a f) = tests_element f
supported f = true

succeeds_then : (m : AppResult Sql) (g : Sql → Sql) → succeeds (m >>= λ x. ok (g x)) ≡ succeeds m
succeeds_then (ok x) g = refl
succeeds_then (err e) g = refl
succeeds_then panicked g = refl
succeeds_then out_of_fuel g = refl

module _ (strings : Strings) where
  succeeds-joined :
      (word : Text) (m : AppResult Sql) (k : List Text → AppResult Sql) (a b : Bool)
      → succeeds m ≡ a
      → ((ps : List Text) → succeeds (k ps) ≡ b)
      → succeeds (joined strings word m k) ≡ a && b
  succeeds-joined word (ok x) k a b h f =
      succeeds_then (k x.1) (λ (r : Sql). (codes "(" ++ (x.0 ++ (word ++ (r.0 ++ codes ")"))), r.1))
      ∙ f x.1
      ∙ ap (λ c. c && b) h
  succeeds-joined word (err e) k a b h f = ap (λ c. c && b) h
  succeeds-joined word panicked k a b h f = ap (λ c. c && b) h
  succeeds-joined word out_of_fuel k a b h f = ap (λ c. c && b) h

  succeeds-handle_complex_filter :
      (attr : Text) (f : FilterOperator) (ps : List Text)
      → succeeds (handle_complex_filter strings attr f ps) ≡ tests_element f
  unfolding handle_complex_filter
  succeeds-handle_complex_filter attr (FilterOperator.equal x v) ps = refl
  succeeds-handle_complex_filter attr f ps = refl

  succeeds-convert_filter_to_sql :
      (r : ResourceType) (f : FilterOperator) (ps : List Text)
      → succeeds (convert_filter_to_sql strings r f ps) ≡ supported f
  unfolding convert_filter_to_sql
  succeeds-convert_filter_to_sql r (FilterOperator.conj f g) ps =
      succeeds-joined (codes " AND ") (convert_filter_to_sql strings r f ps)
        (convert_filter_to_sql strings r g) (supported f) (supported g)
        (succeeds-convert_filter_to_sql r f ps) (λ qs. succeeds-convert_filter_to_sql r g qs)
  succeeds-convert_filter_to_sql r (FilterOperator.disj f g) ps =
      succeeds-joined (codes " OR ") (convert_filter_to_sql strings r f ps)
        (convert_filter_to_sql strings r g) (supported f) (supported g)
        (succeeds-convert_filter_to_sql r f ps) (λ qs. succeeds-convert_filter_to_sql r g qs)
  succeeds-convert_filter_to_sql r (FilterOperator.neg f) ps =
      succeeds_then (convert_filter_to_sql strings r f ps)
        (λ (x : Sql). (codes "NOT (" ++ (x.0 ++ codes ")"), x.1))
      ∙ succeeds-convert_filter_to_sql r f ps
  succeeds-convert_filter_to_sql r (FilterOperator.complex a f) ps =
      succeeds-handle_complex_filter a f ps
  succeeds-convert_filter_to_sql r f ps = refl

  -- A filter becomes a condition exactly if what stands in its brackets is a single comparison for
  -- equality or a part of a text, or a test for presence.
  pub to_where_clause-supported :
      (f : FilterOperator) (r : ResourceType) → succeeds (to_where_clause strings f r) ≡ supported f
  unfolding to_where_clause
  to_where_clause-supported f r = succeeds-convert_filter_to_sql r f []
