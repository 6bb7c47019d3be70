-- ===== src/Patch/Items/Tests.antt =====
-- The selective removal at the e-mail addresses of a user.
use scim_server.Common.{◌≡◌, refl, not, List, [], ◌∷◌, keep}
use scim_server.Text.{Text, codes}
use scim_server.Json.{Value, string, object, field, end, get}
use scim_server.Patch.Items.{remove_items_from_array, items_match}
use scim_server.Patch.Items.Laws.{
  matches_some, remove_items_from_array_lem, remove_items_from_array-values, has_value_in,
}

abbrev email : Text → Text → Value
email kind value =
    object (field (codes "type") (string kind) (field (codes "value") (string value) end))

abbrev emails : List Value
emails =
    email (codes "work") (codes "a@example.com")
    ∷ email (codes "home") (codes "b@example.com")
    ∷ email (codes "home") (codes "c@example.com")
    ∷ []

-- One item by its value, one by its type.
abbrev removed : List Value
removed =
    object (field (codes "value") (string (codes "a@example.com")) end)
    ∷ object (field (codes "type") (string (codes "home")) end)
    ∷ []

removes_by_value_and_type : remove_items_from_array emails removed ≡ []
unfolding remove_items_from_array items_match get
removes_by_value_and_type = refl

remove_items_from_array_example :
    remove_items_from_array emails removed ≡ keep (λ v. not (matches_some removed v)) emails
remove_items_from_array_example = remove_items_from_array_lem removed emails

abbrev by_value : List Value
by_value = object (field (codes "value") (string (codes "a@example.com")) end) ∷ []

remove_items_from_array-values_example :
    remove_items_from_array emails by_value
    ≡ keep (λ v. not (has_value_in (codes "a@example.com" ∷ []) v)) emails
unfolding get
remove_items_from_array-values_example =
    remove_items_from_array-values by_value emails (codes "a@example.com" ∷ []) refl refl
