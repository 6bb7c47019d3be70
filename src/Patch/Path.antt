-- ===== src/Patch/Path.antt =====
-- `ScimPath::parse` of src/parser/patch_parser.rs.
pub mod Qualified
mod Tests
use scim_server.Common.{
  ℕ, suc, ◌+◌, ◌-◌, Bool, true, false, Option, none, some, List, [], ◌∷◌, ◌++◌, ◌||◌, any, leb, ltb,
  if◌then◌else◌, length, take, drop,
}
use scim_server.Text.{Text, codes, starts_with, strip_prefix, find, rfind, split}
use scim_server.Json.{Number}
use scim_server.Error.{AppResult, ok, err, bad_request, ◌>>=◌}
use scim_server.Filter.Parser.{parse_filter_str}
use scim_server.Patch.{ScimPath, attr_path, value_path}
use scim_server.Patch.Attribute.{urn_prefix}

abbrev pub is_empty : Text → Bool
is_empty [] = true
is_empty (c ∷ s) = false

-- Parts that are all there.
abbrev checked : Text → Text → List Text → AppResult ScimPath
checked message path parts =
    if any is_empty parts then err (bad_request (message ++ path)) else ok (attr_path parts)

-- An attribute behind a schema's URN, cut at the last colon.
unfoldable pub parse_qualified : Text → ℕ → AppResult ScimPath
parse_qualified path last_colon =
    let schema_urn = take last_colon path in
    let attr = drop (last_colon + 1) path in
    if is_empty schema_urn || is_empty attr
    then err (bad_request (codes "Invalid schema-qualified attribute: " ++ path))
    else checked (codes "Invalid schema-qualified attribute path: ") path
        (schema_urn ∷ split b'.' attr)

unfoldable pub parse_dotted : Text → AppResult ScimPath
parse_dotted path = checked (codes "Invalid attribute path: ") path (split b'.' path)

unfoldable pub parse_attr_path : Text → AppResult ScimPath
unfolding parse_qualified parse_dotted
parse_attr_path path =
    if starts_with path urn_prefix
    then elim (rfind b':' path) [
      | some last_colon ↦ parse_qualified path last_colon
      | none ↦ parse_dotted path
    ]
    else parse_dotted path

-- What follows the closing bracket: nothing, or a dot and the sub-attribute.
unfoldable pub parse_sub_attr : Text → Text → AppResult (Option Text)
parse_sub_attr path [] = ok none
parse_sub_attr path (c ∷ s) = elim (strip_prefix (c ∷ s) (codes ".")) [
  | some stripped ↦ ok (some stripped)
  | none ↦ err (bad_request (codes "Invalid value path: malformed sub-attribute in " ++ path))
]

abbrev pub attr_parts : Text → List Text
attr_parts [] = []
attr_parts (c ∷ s) = split b'.' (c ∷ s)

module _ (parse_f64 : Text → Option Number) where
  -- Between the two brackets.
  unfoldable pub parse_brackets : Text → ℕ → ℕ → AppResult ScimPath
  unfolding parse_sub_attr
  parse_brackets path bracket_start bracket_end =
      if leb bracket_end bracket_start
      then err (bad_request (codes "Invalid value path: malformed brackets in " ++ path))
      else (parse_filter_str parse_f64
            (take (bracket_end - (bracket_start + 1)) (drop (bracket_start + 1) path))
          >>= (λ filter.
              parse_sub_attr path (drop (bracket_end + 1) path)
              >>= (λ sub. ok (value_path (attr_parts (take bracket_start path)) filter sub))))

  unfoldable pub parse_value_path : Text → AppResult ScimPath
  unfolding parse_brackets
  parse_value_path path = elim (find b'[' path) [
    | none ↦ err (bad_request (codes "Invalid value path: missing '[' in " ++ path))
    | some bracket_start ↦ elim (find b']' path) [
      | none ↦ err (bad_request (codes "Invalid value path: missing ']' in " ++ path))
      | some bracket_end ↦ parse_brackets path bracket_start bracket_end
    ]
  ]

  -- `ScimPath::parse`
  unfoldable pub parse_path : Text → AppResult ScimPath
  unfolding parse_value_path parse_attr_path
  parse_path path = elim (find b'[' path) [
    | none ↦ parse_attr_path path
    | some i ↦ parse_value_path path
  ]
