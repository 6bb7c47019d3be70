-- ===== src/Group/Handlers/Laws.antt =====
-- What the handlers keep: a version that is not the current one, and members that are not there.
use scim_server.Common.{
  ℕ, ◌≡◌, refl, ap, ◌∙◌, Bool, true, false, ◌&&◌, Option, none, some, List, [], ◌∷◌, arith, any,
  if◌then◌else◌, Option-cases, Bool-cases, inl, inr,
}
use scim_server.Text.{Text, ◌==◌, codes}
use scim_server.Json.{Value}
use scim_server.Error.{ok}
use scim_server.Config.{CompatibilityConfig}
use scim_server.Password.{is_empty}
use scim_server.Auth.{TenantInfo}
use scim_server.User.{User, Services, Operation}
use scim_server.User.Store.{Row, has_id, find_row, find_user_for_patch}
use scim_server.Group.{Group, GroupServices}
use scim_server.Group.Store.{GroupRow, Membership, Tables, is_group}
use scim_server.Group.Read.{find_group, find_group_by_id, fetch_group_with_members, update_group}
use scim_server.Group.Handlers.{
  HandlerServices, Answer, refused, validate_group_members, check_if_match, unless, settled,
  respond, version_of, replace_group_of_id, patch_group_of_id, delete_group_of_id, compare_version,
  check_found,
}
use scim_server.Group.Handlers.Payload.{group_of_payload}

find_row-any :
    (id : Text) (rows : List Row) (row : Row)
    → find_row id rows ≡ some row
    → any (has_id id) rows ≡ true
unfolding find_row
find_row-any id [] row h = cc
find_row-any id (r ∷ rows) row h = ground (arith, find_row-any id rows row)

find_group-any :
    (id : Text) (rows : List GroupRow) (row : GroupRow)
    → find_group id rows ≡ some row
    → any (is_group id) rows ≡ true
unfolding find_group
find_group-any id [] row h = cc
find_group-any id (r ∷ rows) row h = ground (arith, find_group-any id rows row)

pub find_user_for_patch-any :
    (services : Services) (rows : List Row) (id : Text) (user : User)
    → find_user_for_patch services rows id ≡ ok (some user)
    → any (has_id id) rows ≡ true
unfolding find_user_for_patch
find_user_for_patch-any services rows id user h = elim (Option-cases (find_row id rows)) [
  | inl e ↦ absurd (ground (arith, e))
  | inr (row, e) ↦ find_row-any id rows row e
]

pub find_group_by_id-any :
    (services : GroupServices) (tenant_id : ℕ) (t : Tables) (id : Text) (group : Group)
    → find_group_by_id services tenant_id t id ≡ ok (some group)
    → any (is_group id) t.groups ≡ true
unfolding find_group_by_id fetch_group_with_members
find_group_by_id-any services tenant_id t id group h =
    elim (Option-cases (find_group id t.groups)) [
      | inl e ↦ elim (Bool-cases (is_empty id)) [
        | inl i ↦ absurd (ground (arith, i))
        | inr i ↦ absurd (ground (arith, i, e))
      ]
      | inr (row, e) ↦ find_group-any id t.groups row e
    ]

-- The member of a membership is in the table of its type.
abbrev pub member_exists : Tables → Membership → Bool
member_exists t m =
    if m.member_type == codes "User"
    then any (has_id m.member_id) t.users
    else m.member_type == codes "Group" && any (is_group m.member_id) t.groups

module _ (services : HandlerServices) where
  check_if_match-refused :
      (info : TenantInfo) (t : Tables) (id given : Text) (group : Group) (version : Text)
      → find_group_by_id services.groups info.tenant_id t id ≡ ok (some group)
      → version_of services group ≡ some version
      → given == version ≡ false
      → check_if_match services info t id (some given) ≡ some (refused 412)
  unfolding check_if_match
  check_if_match-refused info t id given group version h v n =
      ap (check_found services given) h ∙ ap (compare_version services given) v ∙ rw n refl

  unless-tables :
      (t : Tables) (o : Option Answer) (r : Tables × Answer)
      → r.0 ≡ t
      → (unless services t o r).0 ≡ t
  unless-tables t none r h = h
  unless-tables t (some a) r h = refl

  -- Where the If-Match header is not the current version, a replacement leaves the tables, and a patch
  -- and a deletion leave them and answer 412.
  pub check_if_match-stale :
      (info : TenantInfo) (config : CompatibilityConfig) (time : ℕ) (now : Text) (t : Tables)
      (id given : Text) (payload : Value) (os : List Operation) (group : Group) (version : Text)
      → find_group_by_id services.groups info.tenant_id t id ≡ ok (some group)
      → version_of services group ≡ some version
      → given == version ≡ false
      → ((replace_group_of_id services info config time now t id (some given) payload).0 ≡ t)
        × (patch_group_of_id services info config time now t id (some given) os ≡ (t, refused 412))
        × (delete_group_of_id services info t id (some given) ≡ (t, refused 412))
  unfolding replace_group_of_id patch_group_of_id delete_group_of_id
  check_if_match-stale info config time now t id given payload os group version h v n =
      let stale = check_if_match-refused info t id given group version h v n in
      (
        unless-tables t
            (validate_group_members services info t
              (group_of_payload services.others_of id payload).members)
            (unless services t (check_if_match services info t id (some given)) (
              settled services (respond services info config now) (
                update_group services.groups time info.tenant_id t id
                  (group_of_payload services.others_of id payload))))
            (ap
              (λ o.
                (unless services t o (
                  settled services (respond services info config now) (
                    update_group services.groups time info.tenant_id t id
                      (group_of_payload services.others_of id payload)))).0)
              stale),
        rw (stale, patch_group_of_id) refl,
        rw (stale, delete_group_of_id) refl,
      )
