-- ===== src/Group/Handlers/Payload.antt =====
-- src/resource/group.rs: the identifier in a request's path, and the group in its body.
use scim_server.Common.{ℕ, zero, suc, ◌||◌, Option, none, some, List, [], ◌∷◌, if◌then◌else◌}
use scim_server.Text.{Text, ◌==◌, codes, split, strip_prefix}
use scim_server.Json.{Value, array, to_list, get_key, as_str}
use scim_server.Group.{Group, Member}

-- The loop of `extract_resource_id_from_uri` over the segments.
unfoldable pub id_of_segments : List Text → Option Text
id_of_segments [] = none
id_of_segments (s ∷ []) = none
id_of_segments (s ∷ next ∷ segments) =
    let rest = id_of_segments (next ∷ segments) in
    if s == codes "Users" || s == codes "Groups" then some next else rest

unfoldable pub extract_resource_id : Text → Option Text
unfolding id_of_segments
extract_resource_id path = id_of_segments (split b'/' path)

-- `s.replace(p, "")` for a `p` that is not empty; a round takes one character at least.
unfoldable pub without : ℕ → Text → Text → Text
without zero p s = s
without (suc fuel) p [] = []
without (suc fuel) p (c ∷ s) = elim (strip_prefix (c ∷ s) p) [
  | none ↦ c ∷ without fuel p s
  | some rest ↦ without fuel p rest
]

abbrev pub text_at : Text → Value → Option Text
text_at key v = elim (get_key key v) [ none ↦ none | some w ↦ as_str w ]

abbrev pub array_at : Text → Value → Option (List Value)
array_at key v = elim (get_key key v) [ some (array xs) ↦ some (to_list xs) | _ ↦ none ]

unfoldable pub texts_of : List Value → List Text
texts_of [] = []
texts_of (v ∷ vs) = let rest = texts_of vs in elim (as_str v) [ none ↦ rest | some s ↦ s ∷ rest ]

-- `members_array.iter().filter_map(…)`
unfoldable pub members_of_payload : List Value → List Member
members_of_payload [] = []
members_of_payload (v ∷ vs) =
    let rest = members_of_payload vs in
    elim (text_at (codes "value") v) [
      | none ↦ rest
      | some id ↦
          record {
            value = some id;
            ref_ = text_at (codes "$ref") v;
            display = text_at (codes "display") v;
            type_ = text_at (codes "type") v;
          }
          ∷ rest
    ]

abbrev pub unless_no_members : List Member → Option (List Member)
unless_no_members [] = none
unless_no_members (m ∷ ms) = some (m ∷ ms)

abbrev pub members_given_in : Option (List Value) → Option (List Member)
members_given_in none = none
members_given_in (some vs) = unless_no_members (members_of_payload vs)

abbrev pub schemas_given_in : Option (List Value) → Option (List Text)
schemas_given_in none = none
schemas_given_in (some vs) = some (texts_of vs)

abbrev pub or_empty : Option Text → Text
or_empty none = []
or_empty (some s) = s

-- The group that `update_group` takes from the body.
unfoldable pub group_of_payload : (Option (List Text) → Value) → Text → Value → Group
unfolding members_of_payload texts_of
group_of_payload others_of id payload = record {
  id = id;
  display_name = or_empty (text_at (codes "displayName") payload);
  external_id = text_at (codes "externalId") payload;
  members = members_given_in (array_at (codes "members") payload);
  meta = none;
  others = others_of (schemas_given_in (array_at (codes "schemas") payload));
}
