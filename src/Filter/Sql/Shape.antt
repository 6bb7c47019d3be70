-- ===== src/Filter/Sql/Shape.antt =====
-- The values of a filter go into the parameters: the condition does not depend on them.
use scim_server.Common.{◌≡◌, refl, ap, ◌∙◌, List, [], ◌++◌, length}
use scim_server.Text.{Text, codes}
use scim_server.Json.{Value}
use scim_server.Error.{AppResult, AppError, ok, err, ◌>>=◌}
use scim_server.Schema.Lookup.{ResourceType}
use scim_server.Filter.{FilterOperator}
use scim_server.Filter.Sql.Paths.{Strings}
use scim_server.Filter.Sql.Values.{
  Alike, SameSql, equality-SameSql, not_equality-SameSql, like-SameSql, ordering-SameSql,
  multi_value_equality-SameSql, multi_value_not_equality-SameSql, multi_value_like-SameSql,
}
use scim_server.Filter.Sql.{
  Sql, handle_complex_filter, joined, convert_filter_to_sql, to_where_clause, percent,
  value_to_string,
}

-- The same filter but for the values that it compares with.
pub data SameShape : FilterOperator → FilterOperator → Type 0 where
  equal :
      (a : Text) (v w : Value)
      → Alike v w
      → SameShape (FilterOperator.equal a v) (FilterOperator.equal a w)
  not_equal :
      (a : Text) (v w : Value)
      → Alike v w
      → SameShape (FilterOperator.not_equal a v) (FilterOperator.not_equal a w)
  contains :
      (a : Text) (v w : Value)
      → SameShape (FilterOperator.contains a v) (FilterOperator.contains a w)
  starts_with :
      (a : Text) (v w : Value)
      → SameShape (FilterOperator.starts_with a v) (FilterOperator.starts_with a w)
  ends_with :
      (a : Text) (v w : Value)
      → SameShape (FilterOperator.ends_with a v) (FilterOperator.ends_with a w)
  greater_than :
      (a : Text) (v w : Value)
      → SameShape (FilterOperator.greater_than a v) (FilterOperator.greater_than a w)
  greater_than_or_equal :
      (a : Text) (v w : Value)
      → SameShape
          (FilterOperator.greater_than_or_equal a v)
          (FilterOperator.greater_than_or_equal a w)
  less_than :
      (a : Text) (v w : Value)
      → SameShape (FilterOperator.less_than a v) (FilterOperator.less_than a w)
  less_than_or_equal :
      (a : Text) (v w : Value)
      → SameShape (FilterOperator.less_than_or_equal a v) (FilterOperator.less_than_or_equal a w)
  present : (a : Text) → SameShape (FilterOperator.present a) (FilterOperator.present a)
  conj :
      (f g h k : FilterOperator)
      → SameShape f g
      → SameShape h k
      → SameShape (FilterOperator.conj f h) (FilterOperator.conj g k)
  disj :
      (f g h k : FilterOperator)
      → SameShape f g
      → SameShape h k
      → SameShape (FilterOperator.disj f h) (FilterOperator.disj g k)
  neg :
      (f g : FilterOperator)
      → SameShape f g
      → SameShape (FilterOperator.neg f) (FilterOperator.neg g)
  complex :
      (a : Text) (f g : FilterOperator)
      → SameShape f g
      → SameShape (FilterOperator.complex a f) (FilterOperator.complex a g)

-- The same condition with as many parameters, or the same error.
pub data SameResult : AppResult Sql → AppResult Sql → Type 0 where
  both : {x y : Sql} → SameSql x y → SameResult (ok x) (ok y)
  fail : {e : AppError} → SameResult (err e) (err e)

abbrev wrapped : Text → Text → AppResult Sql → AppResult Sql
wrapped before behind m = m >>= λ (x : Sql). ok (before ++ (x.0 ++ behind), x.1)

wrapped-SameResult :
    (before behind : Text) (m n : AppResult Sql)
    → SameResult m n
    → SameResult (wrapped before behind m) (wrapped before behind n)
wrapped-SameResult before behind m n (both (e, h)) = both (ap (λ s. before ++ (s ++ behind)) e, h)
wrapped-SameResult before behind m n fail = fail

negated-SameResult :
    (m n : AppResult Sql)
    → SameResult m n
    → SameResult (wrapped (codes "NOT (") (codes ")") m) (wrapped (codes "NOT (") (codes ")") n)
negated-SameResult m n h = wrapped-SameResult (codes "NOT (") (codes ")") m n h

module _ (strings : Strings) where
  right-SameResult :
      (word s t : Text) (m n : AppResult Sql)
      → s ≡ t
      → SameResult m n
      → SameResult
          (m >>= λ (r : Sql). ok (codes "(" ++ (s ++ (word ++ (r.0 ++ codes ")"))), r.1))
          (n >>= λ (r : Sql). ok (codes "(" ++ (t ++ (word ++ (r.0 ++ codes ")"))), r.1))
  right-SameResult word s t m n e (both {x} {y} (f, h)) = both (
    ap (λ u. codes "(" ++ (u ++ (word ++ (x.0 ++ codes ")")))) e
        ∙ ap (λ u. codes "(" ++ (t ++ (word ++ (u ++ codes ")")))) f,
    h,
  )
  right-SameResult word s t m n e fail = fail

  joined-SameResult :
      (word : Text) (m n : AppResult Sql) (k l : List Text → AppResult Sql)
      → SameResult m n
      → ((xs ys : List Text) → length xs ≡ length ys → SameResult (k xs) (l ys))
      → SameResult (joined strings word m k) (joined strings word n l)
  joined-SameResult word m n k l (both {x} {y} (e, h)) f =
      right-SameResult word x.0 y.0 (k x.1) (l y.1) e (f x.1 y.1 h)
  joined-SameResult word m n k l fail f = fail

  handle_complex_filter-SameResult :
      (attr : Text) (f g : FilterOperator) (ps qs : List Text)
      → SameShape f g
      → length ps ≡ length qs
      → SameResult
          (handle_complex_filter strings attr f ps)
          (handle_complex_filter strings attr g qs)
  unfolding handle_complex_filter
  handle_complex_filter-SameResult attr f g ps qs (equal x v w a) h =
      both (multi_value_equality-SameSql strings attr x v w ps qs h)
  handle_complex_filter-SameResult attr f g ps qs (not_equal x v w a) h =
      both (multi_value_not_equality-SameSql strings attr x v w ps qs h)
  handle_complex_filter-SameResult attr f g ps qs (contains x v w) h = both (
      multi_value_like-SameSql strings attr x
        (percent strings ++ (value_to_string strings v ++ percent strings))
        (percent strings ++ (value_to_string strings w ++ percent strings)) ps qs h)
  handle_complex_filter-SameResult attr f g ps qs (starts_with x v w) h = both (
      multi_value_like-SameSql strings attr x (value_to_string strings v ++ percent strings)
        (value_to_string strings w ++ percent strings) ps qs h)
  handle_complex_filter-SameResult attr f g ps qs (ends_with x v w) h = both (
      multi_value_like-SameSql strings attr x (percent strings ++ value_to_string strings v)
        (percent strings ++ value_to_string strings w) ps qs h)
  handle_complex_filter-SameResult attr f g ps qs (greater_than x v w) h = fail
  handle_complex_filter-SameResult attr f g ps qs (greater_than_or_equal x v w) h = fail
  handle_complex_filter-SameResult attr f g ps qs (less_than x v w) h = fail
  handle_complex_filter-SameResult attr f g ps qs (less_than_or_equal x v w) h = fail
  handle_complex_filter-SameResult attr f g ps qs (present x) h = both (refl, h)
  handle_complex_filter-SameResult attr f g ps qs (conj f1 g1 f2 g2 a b) h = fail
  handle_complex_filter-SameResult attr f g ps qs (disj f1 g1 f2 g2 a b) h = fail
  handle_complex_filter-SameResult attr f g ps qs (neg f1 g1 a) h = fail
  handle_complex_filter-SameResult attr f g ps qs (complex x f1 g1 a) h = fail

  convert_filter_to_sql-SameResult :
      (r : ResourceType) (f g : FilterOperator) (ps qs : List Text)
      → SameShape f g
      → length ps ≡ length qs
      → SameResult (convert_filter_to_sql strings r f ps) (convert_filter_to_sql strings r g qs)
  unfolding convert_filter_to_sql
  convert_filter_to_sql-SameResult r f g ps qs (equal x v w a) h =
      both (equality-SameSql strings x v w r ps qs a h)
  convert_filter_to_sql-SameResult r f g ps qs (not_equal x v w a) h =
      both (not_equality-SameSql strings x v w r ps qs a h)
  convert_filter_to_sql-SameResult r f g ps qs (contains x v w) h = both (
      like-SameSql strings x (percent strings ++ (value_to_string strings v ++ percent strings))
        (percent strings ++ (value_to_string strings w ++ percent strings)) r ps qs h)
  convert_filter_to_sql-SameResult r f g ps qs (starts_with x v w) h = both (
      like-SameSql strings x (value_to_string strings v ++ percent strings)
        (value_to_string strings w ++ percent strings) r ps qs h)
  convert_filter_to_sql-SameResult r f g ps qs (ends_with x v w) h = both (
      like-SameSql strings x (percent strings ++ value_to_string strings v)
        (percent strings ++ value_to_string strings w) r ps qs h)
  convert_filter_to_sql-SameResult r f g ps qs (greater_than x v w) h =
      both (ordering-SameSql strings (codes ">") x v w r ps qs h)
  convert_filter_to_sql-SameResult r f g ps qs (greater_than_or_equal x v w) h =
      both (ordering-SameSql strings (codes ">=") x v w r ps qs h)
  convert_filter_to_sql-SameResult r f g ps qs (less_than x v w) h =
      both (ordering-SameSql strings (codes "<") x v w r ps qs h)
  convert_filter_to_sql-SameResult r f g ps qs (less_than_or_equal x v w) h =
      both (ordering-SameSql strings (codes "<=") x v w r ps qs h)
  convert_filter_to_sql-SameResult r f g ps qs (present x) h = both (refl, h)
  convert_filter_to_sql-SameResult r f g ps qs (conj f1 g1 f2 g2 a b) h =
      joined-SameResult (codes " AND ") (convert_filter_to_sql strings r f1 ps)
        (convert_filter_to_sql strings r g1 qs) (convert_filter_to_sql strings r f2)
        (convert_filter_to_sql strings r g2) (convert_filter_to_sql-SameResult r f1 g1 ps qs a h)
        (λ xs ys. convert_filter_to_sql-SameResult r f2 g2 xs ys b)
  convert_filter_to_sql-SameResult r f g ps qs (disj f1 g1 f2 g2 a b) h =
      joined-SameResult (codes " OR ") (convert_filter_to_sql strings r f1 ps)
        (convert_filter_to_sql strings r g1 qs) (convert_filter_to_sql strings r f2)
        (convert_filter_to_sql strings r g2) (convert_filter_to_sql-SameResult r f1 g1 ps qs a h)
        (λ xs ys. convert_filter_to_sql-SameResult r f2 g2 xs ys b)
  convert_filter_to_sql-SameResult r f g ps qs (neg f1 g1 a) h =
      negated-SameResult (convert_filter_to_sql strings r f1 ps)
        (convert_filter_to_sql strings r g1 qs) (convert_filter_to_sql-SameResult r f1 g1 ps qs a h)
  convert_filter_to_sql-SameResult r f g ps qs (complex x f1 g1 a) h =
      handle_complex_filter-SameResult x f1 g1 ps qs a h

  -- Two filters that differ in the values they compare with, but not in Booleans, give the same SQL
  -- text and as many parameters, or the same error: no value gets into the text.
  pub to_where_clause-SameResult :
      (f g : FilterOperator) (r : ResourceType)
      → SameShape f g
      → SameResult (to_where_clause strings f r) (to_where_clause strings g r)
  unfolding to_where_clause
  to_where_clause-SameResult f g r a = convert_filter_to_sql-SameResult r f g [] [] a refl
