-- ===== src/Filter/Sql/Paths.antt =====
-- Attribute names as JSON paths, src/backend/database/sqlite/filter_impl.rs.
use scim_server.Common.{
  ℕ, Bool, not, ◌||◌, Option, none, some, List, [], ◌∷◌, ◌++◌, any, if◌then◌else◌, nat_eq, keep,
}
use scim_server.Text.{Text, codes, split, join, is_ascii_digit}
use scim_server.Json.{Value, Number}
use scim_server.Schema.Definitions.{eq_ignore_ascii_case}
use scim_server.Schema.Lookup.{
  ResourceType, is_multi_valued_attribute, is_case_exact_field_for_resource,
}

-- The standard library's `to_lowercase`, and the texts that serde_json makes of numbers and values.
pub record Strings : Type 0 where
  pub to_lowercase : Text → Text
  pub number_to_string : Number → Text
  pub to_json : Value → Text

abbrev pub is_index_char : ℕ → Bool
is_index_char c = is_ascii_digit c || nat_eq c b'[' || nat_eq c b']'

-- `is_case_exact_field_for_resource` of src/schema/normalization.rs
unfoldable pub is_case_exact_field : Text → ResourceType → Bool
is_case_exact_field path r =
    is_case_exact_field_for_resource (keep (λ c. not (is_index_char c)) path) r

abbrev pub two_parts : ResourceType → List Text → Option (Text × Text)
two_parts r (a ∷ b ∷ []) = if is_multi_valued_attribute a r then some (a, b) else none
two_parts r parts = none

-- `attr.contains('.')`, its two parts, and the first multi-valued: for a text without a dot there is
-- one part.
unfoldable pub multi_valued_parts : Text → ResourceType → Option (Text × Text)
multi_valued_parts attr r = two_parts r (split b'.' attr)

module _ (strings : Strings) where
  -- The loop over the parts, with those that are done.
  unfoldable pub path_parts : ResourceType → List Text → List Text → List Text
  unfolding is_case_exact_field
  path_parts r done [] = done
  path_parts r done (part ∷ parts) =
      path_parts r
        (done
          ++ (if is_case_exact_field (join (codes ".") (done ++ part ∷ [])) r
              then part
              else strings.to_lowercase part)
            ∷ [])
        parts

  abbrev pub plain_path : Text → ResourceType → Text
  plain_path attr r =
      if is_multi_valued_attribute attr r
      then strings.to_lowercase attr ++ codes ".0.value"
      else if is_case_exact_field attr r
      then attr
      else strings.to_lowercase attr

  abbrev pub dotted_path : Text → ResourceType → Text
  dotted_path attr r = elim (multi_valued_parts attr r) [
    | some (a, b) ↦ strings.to_lowercase a ++ b'.' ∷ strings.to_lowercase b
    | none ↦ join (codes ".") (path_parts r [] (split b'.' attr))
  ]

  unfoldable pub scim_path_to_json_path : Text → ResourceType → Text
  unfolding path_parts multi_valued_parts
  scim_path_to_json_path attr r =
      if eq_ignore_ascii_case attr (codes "userName")
      then codes "username"
      else if eq_ignore_ascii_case attr (codes "displayName")
      then codes "displayname"
      else if eq_ignore_ascii_case attr (codes "externalId")
      then codes "externalId"
      else if any (λ c. nat_eq c b'.') attr
      then dotted_path attr r
      else plain_path attr r
