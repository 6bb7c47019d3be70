-- ===== src/Group/Deletions.antt =====
-- What is left after `delete_group` and `delete_user`.
use scim_server.Common.{
  ℕ, ◌≡◌, refl, sym, ap, ◌∙◌, Bool, false, not, ◌&&◌, List, [], ◌∷◌, ◌++◌, map, arith, any, keep,
  any-keep, any-keep-not, keep-keep, subst,
}
use scim_server.Text.{Text, codes}
use scim_server.Error.{ok, >>=-Steps, ok-injective}
use scim_server.User.{validate_user_id}
use scim_server.User.Store.{Row, has_id, delete_user}
use scim_server.Group.{GroupServices, validate_group_id}
use scim_server.Group.Store.{
  GroupRow, Membership, Tables, is_group, in_group, has_member, delete_group, execute_group_delete,
  delete_user_everywhere,
}
use scim_server.Group.Read.{find_groups_by_user_id, group_ids_of_user, fetch_each}

-- A deletion of a group that succeeds leaves no group of that identifier, no membership in it, and no
-- membership of it in another group; it keeps all other groups and memberships, and tells whether the
-- group was there.
pub delete_group-removes :
    (t : Tables) (id : Text) (r : Tables × Bool)
    → delete_group t id ≡ ok r
    → (any (is_group id) r.0.groups ≡ false)
      × (any (in_group id) r.0.memberships ≡ false)
      × (any (has_member (codes "Group") id) r.0.memberships ≡ false)
      × (r.0.groups ≡ keep (λ row. not (is_group id row)) t.groups)
      × (r.0.memberships
          ≡ keep (λ m. not (in_group id m) && not (has_member (codes "Group") id m)) t.memberships)
      × (r.0.users ≡ t.users)
      × (r.1 ≡ any (is_group id) t.groups)
unfolding delete_group execute_group_delete
delete_group-removes t id r h =
    let (checked, e, f) = >>=-Steps (validate_group_id id) _ h in
    let stays = λ (m : Membership). not (has_member (codes "Group") id m) in
    let left = keep (λ m. not (in_group id m)) t.memberships in
    let done = λ (x : Tables × Bool).
      (any (is_group id) x.0.groups ≡ false)
      × (any (in_group id) x.0.memberships ≡ false)
      × (any (has_member (codes "Group") id) x.0.memberships ≡ false)
      × (x.0.groups ≡ keep (λ row. not (is_group id row)) t.groups)
      × (x.0.memberships
          ≡ keep (λ m. not (in_group id m) && not (has_member (codes "Group") id m)) t.memberships)
      × (x.0.users ≡ t.users)
      × (x.1 ≡ any (is_group id) t.groups) in
    subst done (ok-injective f) (
      any-keep-not (is_group id) t.groups,
      any-keep (in_group id) stays left (any-keep-not (in_group id) t.memberships),
      any-keep-not (has_member (codes "Group") id) left,
      refl,
      keep-keep stays (λ m. not (in_group id m)) t.memberships,
      refl,
      refl,
    )

joined-none :
    (id user_id : Text) (ms : List Membership)
    → any (has_member (codes "User") user_id) ms ≡ false
    → keep (λ m. in_group id m && has_member (codes "User") user_id m) ms ≡ []
joined-none id user_id [] h = refl
joined-none id user_id (m ∷ ms) h = ground (arith, joined-none id user_id ms)

group_ids_of_user-none :
    (user_id : Text) (ms : List Membership) (rows : List GroupRow)
    → any (has_member (codes "User") user_id) ms ≡ false
    → group_ids_of_user user_id ms rows ≡ []
unfolding group_ids_of_user
group_ids_of_user-none user_id ms [] h = refl
group_ids_of_user-none user_id ms (row ∷ rows) h =
    ap (λ x. map (λ (m : Membership). row.id) x ++ group_ids_of_user user_id ms rows)
      (joined-none row.id user_id ms h)
    ∙ group_ids_of_user-none user_id ms rows h

find_groups_by_user_id-none :
    (services : GroupServices) (tenant_id : ℕ) (t : Tables) (id : Text)
    → any (has_member (codes "User") id) t.memberships ≡ false
    → find_groups_by_user_id services tenant_id t id ≡ ok []
unfolding find_groups_by_user_id fetch_each
find_groups_by_user_id-none services tenant_id t id h =
    ground (arith, group_ids_of_user-none id t.memberships t.groups h)

-- A deletion of a user that succeeds leaves no user of that identifier and no membership of it, so that
-- a search finds no group of it; it keeps all other users, all groups and all other memberships, those
-- of a group of the same identifier included.
pub delete_user_everywhere-removes :
    (services : GroupServices) (tenant_id : ℕ) (t : Tables) (id : Text) (r : Tables × Bool)
    → delete_user_everywhere t id ≡ ok r
    → (any (has_id id) r.0.users ≡ false)
      × (find_groups_by_user_id services tenant_id r.0 id ≡ ok [])
      × (r.0.users ≡ keep (λ row. not (has_id id row)) t.users)
      × (r.0.groups ≡ t.groups)
      × (r.0.memberships ≡ keep (λ m. not (has_member (codes "User") id m)) t.memberships)
unfolding delete_user_everywhere delete_user
delete_user_everywhere-removes services tenant_id t id r h =
    let stays = λ (m : Membership). not (has_member (codes "User") id m) in
    let (d, e, f) =
      >>=-Steps (delete_user t.users id)
        (λ (d : List Row × Bool).
          ok (record t { users = d.0; memberships = keep stays t.memberships }, d.1))
        h in
    let (checked, g, k) = >>=-Steps (validate_user_id id) _ e in
    let left = keep stays t.memberships in
    let users : d.0 ≡ keep (λ row. not (has_id id row)) t.users =
      sym (ap (λ (x : List Row × Bool). x.0) (ok-injective k)) in
    let same : r.0 ≡ record t { users = d.0; memberships = left } =
      sym (ap (λ (x : Tables × Bool). x.0) (ok-injective f)) in
    let rows : r.0.users ≡ keep (λ row. not (has_id id row)) t.users =
      ap (λ (x : Tables). x.users) same ∙ users in
    let kept : r.0.memberships ≡ left = ap (λ (x : Tables). x.memberships) same in
    (
      ap (any (has_id id)) rows ∙ any-keep-not (has_id id) t.users,
      find_groups_by_user_id-none services tenant_id r.0 id (
          ap (any (has_member (codes "User") id)) kept
          ∙ any-keep-not (has_member (codes "User") id) t.memberships),
      rows,
      ap (λ (x : Tables). x.groups) same,
      kept,
    )
