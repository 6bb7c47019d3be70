-- ===== src/Filter/Eval/Tests.antt =====
-- A filter at an e-mail address.
use scim_server.Common.{◌≡◌, refl, ◌↔◌, true, none}
use scim_server.Text.{codes, contains}
use scim_server.Json.{Fields, string, field, end, get, contains_key}
use scim_server.Filter
use scim_server.Filter.{FilterOperator, present, conj, neg}
use scim_server.Filter.Eval.{NumberCmp, evaluate_filter}
use scim_server.Filter.Eval.Holds.{Holds, evaluate_filter_iff}

abbrev no_numbers : NumberCmp
no_numbers a b = none

abbrev email : Fields
email =
    field (codes "type") (string (codes "work"))
      (field (codes "value") (string (codes "a@example.com")) end)

abbrev filter : FilterOperator
filter =
    conj (Filter.contains (codes "value") (string (codes "@exam")))
      (neg (present (codes "primary")))

filter_matches : evaluate_filter no_numbers email filter ≡ true
unfolding evaluate_filter get contains contains_key
filter_matches = refl

evaluate_filter_example :
    (evaluate_filter no_numbers email filter ≡ true) ↔ Holds no_numbers email filter
evaluate_filter_example = evaluate_filter_iff no_numbers email filter
