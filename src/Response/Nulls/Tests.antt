-- ===== src/Response/Nulls/Tests.antt =====
-- Removing nulls, run on a user.
use scim_server.Common.{◌≡◌, refl}
use scim_server.Text.{codes}
use scim_server.Json.{Fields, null, string, array, object, nil, cons, end, field}
use scim_server.Response.Nulls.{remove_null_fields, shows_empty}

abbrev groups_and_nulls : Fields
groups_and_nulls =
    field (codes "emails") (array (cons null (cons (object (field (codes "type") null end)) nil))) (
      field (codes "groups") (array (cons null nil)) (
        field (codes "name") (object (field (codes "formatted") null end))
          (field (codes "nickName") null (field (codes "userName") (string (codes "ann")) end))))

removes_all_but :
    remove_null_fields (object groups_and_nulls)
    ≡ object
        (field (codes "groups") (array nil) (field (codes "userName") (string (codes "ann")) end))
unfolding remove_null_fields shows_empty
removes_all_but = refl
