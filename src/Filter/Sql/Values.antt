-- ===== src/Filter/Sql/Values.antt =====
-- The conditions of the comparisons do not depend on the values, which go into the parameters.
use scim_server.Common.{
  ◌+◌, ◌≡◌, refl, sym, ap, ◌∙◌, Bool, true, false, Option, none, some, List, [], ◌∷◌, ◌++◌, length,
  length-append, arith, if◌then◌else◌,
}
use scim_server.Text.{Text, codes}
use scim_server.Text.Numbers.{show}
use scim_server.Json.{Value, bool, string, number, null, array, object}
use scim_server.Schema.Lookup.{ResourceType}
use scim_server.Filter.Sql.Paths.{
  Strings, multi_valued_parts, is_case_exact_field, scim_path_to_json_path,
}
use scim_server.Filter.Sql.{
  Sql, with_param, any_element, column, multi_value_equality, multi_value_not_equality,
  multi_value_like, compared_text, compared, equality, not_equality, like, ordering,
  value_to_string, normalized,
}

abbrev pub is_bool : Value → Bool
is_bool (bool b) = true
is_bool v = false

-- The same value, or two that are no Booleans.
pub data Alike : Value → Value → Type 0 where
  same : (v : Value) → Alike v v
  hidden : (v w : Value) → is_bool v ≡ false → is_bool w ≡ false → Alike v w

-- The same condition, with as many parameters.
abbrev pub SameSql : Sql → Sql → Type 0
SameSql x y = (x.0 ≡ y.0) × (length x.1 ≡ length y.1)

if-SameSql :
    (b : Bool) (x y v w : Sql)
    → SameSql x y
    → SameSql v w
    → SameSql (if b then x else v) (if b then y else w)
if-SameSql true x y v w h k = h
if-SameSql false x y v w h k = k

-- A choice by the parts of an attribute.
by_parts-SameSql :
    (o : Option (Text × Text)) (f g : Text → Text → Sql) (x y : Sql)
    → ((a b : Text) → SameSql (f a b) (g a b))
    → SameSql x y
    → SameSql
        (elim o [ none ↦ x | some (a, b) ↦ f a b ])
        (elim o [ none ↦ y | some (a, b) ↦ g a b ])
by_parts-SameSql none f g x y h k = k
by_parts-SameSql (some (a, b)) f g x y h k = h a b

module _ (strings : Strings) where
  with_param-SameSql :
      (before behind p q : Text) (ps qs : List Text)
      → length ps ≡ length qs
      → SameSql (with_param strings before p behind ps) (with_param strings before q behind qs)
  with_param-SameSql before behind p q ps qs h = (
    ap (λ n. before ++ (codes "?" ++ (show (n + 1) ++ behind))) h,
    omega (arith, length-append ps (p ∷ []), length-append qs (q ∷ []), h),
  )

  pub multi_value_equality-SameSql :
      (attr sub : Text) (v w : Value) (ps qs : List Text)
      → length ps ≡ length qs
      → SameSql
          (multi_value_equality strings attr sub v ps)
          (multi_value_equality strings attr sub w qs)
  unfolding multi_value_equality
  multi_value_equality-SameSql attr sub v w ps qs h =
      with_param-SameSql (any_element strings attr [] sub ++ codes " = ") (codes ")")
        (normalized strings v) (normalized strings w) ps qs h

  pub multi_value_not_equality-SameSql :
      (attr sub : Text) (v w : Value) (ps qs : List Text)
      → length ps ≡ length qs
      → SameSql
          (multi_value_not_equality strings attr sub v ps)
          (multi_value_not_equality strings attr sub w qs)
  unfolding multi_value_not_equality
  multi_value_not_equality-SameSql attr sub v w ps qs h =
      with_param-SameSql (codes "NOT " ++ (any_element strings attr [] sub ++ codes " = "))
        (codes ")") (normalized strings v) (normalized strings w) ps qs h

  pub multi_value_like-SameSql :
      (attr sub p q : Text) (ps qs : List Text)
      → length ps ≡ length qs
      → SameSql (multi_value_like strings attr sub p ps) (multi_value_like strings attr sub q qs)
  unfolding multi_value_like
  multi_value_like-SameSql attr sub p q ps qs h =
      with_param-SameSql (any_element strings attr (codes "LOWER(") sub ++ codes ") LIKE LOWER(")
        (codes "))") p q ps qs h

  compared_text-SameSql :
      (attr : Text) (r : ResourceType) (op : Text) (v w : Value) (ps qs : List Text)
      → length ps ≡ length qs
      → SameSql (compared_text strings attr r op v ps) (compared_text strings attr r op w qs)
  unfolding compared_text
  compared_text-SameSql attr r op v w ps qs h =
      let path = scim_path_to_json_path strings attr r in
      let orig = column strings (codes "data_orig") path ++ op in
      let norm = column strings (codes "data_norm") path ++ op in
      if-SameSql (is_case_exact_field attr r)
        (with_param strings orig (value_to_string strings v) [] ps)
        (with_param strings orig (value_to_string strings w) [] qs)
        (with_param strings norm (normalized strings v) [] ps)
        (with_param strings norm (normalized strings w) [] qs)
        (with_param-SameSql orig [] (value_to_string strings v) (value_to_string strings w) ps qs h)
        (with_param-SameSql norm [] (normalized strings v) (normalized strings w) ps qs h)

  compared_hidden :
      (attr : Text) (r : ResourceType) (op : Text) (v : Value) (ps : List Text)
      → is_bool v ≡ false
      → compared strings attr r op v ps ≡ compared_text strings attr r op v ps
  unfolding compared
  compared_hidden attr r op null ps h = refl
  compared_hidden attr r op (bool b) ps h = cc
  compared_hidden attr r op (number n) ps h = refl
  compared_hidden attr r op (string s) ps h = refl
  compared_hidden attr r op (array vs) ps h = refl
  compared_hidden attr r op (object m) ps h = refl

  compared-SameSql :
      (attr : Text) (r : ResourceType) (op : Text) (v w : Value) (ps qs : List Text)
      → Alike v w
      → length ps ≡ length qs
      → SameSql (compared strings attr r op v ps) (compared strings attr r op w qs)
  unfolding compared
  compared-SameSql attr r op v w ps qs (same null) h =
      compared_text-SameSql attr r op null null ps qs h
  compared-SameSql attr r op v w ps qs (same (bool b)) h = (refl, h)
  compared-SameSql attr r op v w ps qs (same (number n)) h =
      compared_text-SameSql attr r op (number n) (number n) ps qs h
  compared-SameSql attr r op v w ps qs (same (string s)) h =
      compared_text-SameSql attr r op (string s) (string s) ps qs h
  compared-SameSql attr r op v w ps qs (same (array vs)) h =
      compared_text-SameSql attr r op (array vs) (array vs) ps qs h
  compared-SameSql attr r op v w ps qs (same (object m)) h =
      compared_text-SameSql attr r op (object m) (object m) ps qs h
  compared-SameSql attr r op v w ps qs (hidden u x i j) h =
      let (e, f) = compared_text-SameSql attr r op v w ps qs h in
      let c = compared_hidden attr r op v ps i in
      let d = compared_hidden attr r op w qs j in
      (
        ap (λ (x : Sql). x.0) c ∙ e ∙ sym (ap (λ (x : Sql). x.0) d),
        ap (λ (x : Sql). length x.1) c ∙ f ∙ sym (ap (λ (x : Sql). length x.1) d),
      )

  pub equality-SameSql :
      (attr : Text) (v w : Value) (r : ResourceType) (ps qs : List Text)
      → Alike v w
      → length ps ≡ length qs
      → SameSql (equality strings attr v r ps) (equality strings attr w r qs)
  unfolding equality
  equality-SameSql attr v w r ps qs a h =
      by_parts-SameSql (multi_valued_parts attr r) (λ x y. multi_value_equality strings x y v ps)
        (λ x y. multi_value_equality strings x y w qs) (compared strings attr r (codes " = ") v ps)
        (compared strings attr r (codes " = ") w qs)
        (λ x y. multi_value_equality-SameSql x y v w ps qs h)
        (compared-SameSql attr r (codes " = ") v w ps qs a h)

  pub not_equality-SameSql :
      (attr : Text) (v w : Value) (r : ResourceType) (ps qs : List Text)
      → Alike v w
      → length ps ≡ length qs
      → SameSql (not_equality strings attr v r ps) (not_equality strings attr w r qs)
  unfolding not_equality
  not_equality-SameSql attr v w r ps qs a h =
      by_parts-SameSql (multi_valued_parts attr r)
        (λ x y. multi_value_not_equality strings x y v ps)
        (λ x y. multi_value_not_equality strings x y w qs)
        (compared strings attr r (codes " != ") v ps) (compared strings attr r (codes " != ") w qs)
        (λ x y. multi_value_not_equality-SameSql x y v w ps qs h)
        (compared-SameSql attr r (codes " != ") v w ps qs a h)

  pub like-SameSql :
      (attr p q : Text) (r : ResourceType) (ps qs : List Text)
      → length ps ≡ length qs
      → SameSql (like strings attr p r ps) (like strings attr q r qs)
  unfolding like
  like-SameSql attr p q r ps qs h =
      let before =
        codes "LOWER("
        ++ (column strings (codes "data_norm") (scim_path_to_json_path strings attr r)
            ++ codes ") LIKE LOWER(") in
      by_parts-SameSql (multi_valued_parts attr r) (λ x y. multi_value_like strings x y p ps)
        (λ x y. multi_value_like strings x y q qs) (with_param strings before p (codes ")") ps)
        (with_param strings before q (codes ")") qs)
        (λ x y. multi_value_like-SameSql x y p q ps qs h)
        (with_param-SameSql before (codes ")") p q ps qs h)

  pub ordering-SameSql :
      (op attr : Text) (v w : Value) (r : ResourceType) (ps qs : List Text)
      → length ps ≡ length qs
      → SameSql (ordering strings op attr v r ps) (ordering strings op attr w r qs)
  unfolding ordering
  ordering-SameSql op attr v w r ps qs h =
      with_param-SameSql
        (codes "CAST("
          ++ (column strings (codes "data_norm") (scim_path_to_json_path strings attr r)
              ++ (codes " AS REAL) " ++ (op ++ codes " CAST("))))
        (codes " AS REAL)") (normalized strings v) (normalized strings w) ps qs h
