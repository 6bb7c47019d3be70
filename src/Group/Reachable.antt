-- ===== src/Group/Reachable.antt =====
-- The tables of a tenant over time: every request on its users and groups is one step.
use scim_server.Common.{ℕ, ◌≡◌, refl, Bool, true, not, Option, List, [], keep, all-keep, subst}
use scim_server.Text.{Text, codes}
use scim_server.Error.{ok, >>=-Steps, ok-injective}
use scim_server.Config.{CompatibilityConfig}
use scim_server.User.{User, Services, Operation}
use scim_server.User.Store.{Row, create_user, update_user, patch_user, delete_user}
use scim_server.User.Laws.{keys_unique, Stored-keys_unique, update_user-Stored}
use scim_server.User.Reachable.{
  create_user-keys_unique, patch_user-keys_unique, delete_user-keys_unique,
}
use scim_server.Group.{Group, GroupServices, validate_group_id}
use scim_server.Group.Store.{Tables, Membership, has_member, delete_group, delete_user_everywhere}
use scim_server.Group.Read.{create_group, update_group, patch_group}
use scim_server.Group.Names.{groups_unique}
use scim_server.Group.Members.{memberships_valid, keep-memberships_valid}
use scim_server.Group.Kept.{
  create_group-WellFormed, update_group-WellFormed, patch_group-WellFormed,
}
use scim_server.Group.Laws.{WellFormed, grounded, execute_group_delete-WellFormed}

abbrev pub with_users : Tables → List Row → Tables
with_users t rows = record t { users = rows }

users-WellFormed :
    (t : Tables) (rows : List Row)
    → WellFormed t
    → keys_unique rows ≡ true
    → WellFormed (with_users t rows)
users-WellFormed t rows w k = record {
  users = k;
  groups = w.groups;
  valid = w.valid;
  all_grounded = w.all_grounded;
}

-- A request on users that succeeds, or any request on groups, at its time and with the UUID that it
-- draws.
pub data Step (users : Services) (services : GroupServices) : Tables → Tables → Type 0 where
  user_created :
      (now : ℕ) (fresh : Text) (t : Tables) (user : User) (r : List Row × User)
      → create_user users now fresh t.users user ≡ ok r
      → Step users services t (with_users t r.0)
  user_replaced :
      (now : ℕ) (t : Tables) (id : Text) (user : User) (r : List Row × Option User)
      → update_user users now t.users id user ≡ ok r
      → Step users services t (with_users t r.0)
  user_patched :
      (config : CompatibilityConfig) (now : ℕ) (t : Tables) (id : Text) (os : List Operation)
      → (r : List Row × Option User) → patch_user users config now t.users id os ≡ ok r
      → Step users services t (with_users t r.0)
  user_deleted :
      (t : Tables) (id : Text) (r : Tables × Bool)
      → delete_user_everywhere t id ≡ ok r
      → Step users services t r.0
  group_created :
      (now : ℕ) (fresh : Text) (tenant_id : ℕ) (t : Tables) (group : Group)
      → Step users services t (create_group services now fresh tenant_id t group).0
  group_replaced :
      (now tenant_id : ℕ) (t : Tables) (id : Text) (group : Group)
      → Step users services t (update_group services now tenant_id t id group).0
  group_patched :
      (now tenant_id : ℕ) (t : Tables) (id : Text) (os : List Operation)
      → Step users services t (patch_group services now tenant_id t id os).0
  group_deleted :
      (t : Tables) (id : Text) (r : Tables × Bool)
      → delete_group t id ≡ ok r
      → Step users services t r.0

abbrev pub no_rows : Tables
no_rows = record { users = []; groups = []; memberships = [] }

-- The tables that requests make of the empty ones.
pub data Reachable (users : Services) (services : GroupServices) : Tables → Type 0 where
  empty : Reachable users services no_rows
  next :
      (s t : Tables)
      → Reachable users services s
      → Step users services s t
      → Reachable users services t

delete_user_everywhere-WellFormed :
    (t : Tables) (id : Text) (r : Tables × Bool)
    → WellFormed t
    → delete_user_everywhere t id ≡ ok r
    → WellFormed r.0
unfolding delete_user_everywhere
delete_user_everywhere-WellFormed t id r w h =
    let stays = λ (m : Membership). not (has_member (codes "User") id m) in
    let (d, e, f) =
      >>=-Steps (delete_user t.users id)
        (λ (d : List Row × Bool).
          ok (record t { users = d.0; memberships = keep stays t.memberships }, d.1))
        h in
    subst (λ (x : Tables × Bool). WellFormed x.0) (ok-injective f)
      (record {
        users = delete_user-keys_unique t.users id d w.users e;
        groups = w.groups;
        valid = keep-memberships_valid stays t.memberships w.valid;
        all_grounded = all-keep (grounded t.groups) stays t.memberships w.all_grounded;
      })

delete_group-WellFormed :
    (t : Tables) (id : Text) (r : Tables × Bool)
    → WellFormed t
    → delete_group t id ≡ ok r
    → WellFormed r.0
unfolding delete_group
delete_group-WellFormed t id r w h =
    let (checked, e, f) = >>=-Steps (validate_group_id id) _ h in
    subst (λ (x : Tables × Bool). WellFormed x.0) (ok-injective f)
      (execute_group_delete-WellFormed t id w)

step-WellFormed :
    (users : Services) (services : GroupServices) (s t : Tables)
    → Step users services s t
    → WellFormed s
    → WellFormed t
step-WellFormed users services s t (user_created now fresh u user r h) w =
    users-WellFormed s r.0 w (create_user-keys_unique users now fresh s.users user r w.users h)
step-WellFormed users services s t (user_replaced now u id user r h) w = users-WellFormed s r.0 w (
    Stored-keys_unique users now s.users id user r w.users
      (update_user-Stored users now s.users id user r h))
step-WellFormed users services s t (user_patched config now u id os r h) w =
    users-WellFormed s r.0 w (patch_user-keys_unique users config now s.users id os r w.users h)
step-WellFormed users services s t (user_deleted u id r h) w =
    delete_user_everywhere-WellFormed s id r w h
step-WellFormed users services s t (group_created now fresh tenant_id u group) w =
    create_group-WellFormed services now fresh tenant_id s group w
step-WellFormed users services s t (group_replaced now tenant_id u id group) w =
    update_group-WellFormed services now tenant_id s id group w
step-WellFormed users services s t (group_patched now tenant_id u id os) w =
    patch_group-WellFormed services now tenant_id s id os w
step-WellFormed users services s t (group_deleted u id r h) w = delete_group-WellFormed s id r w h

-- In the tables that requests on users and groups make of the empty ones, requests on groups
-- that fail included: no two users and no two groups have the same identifier or names that differ in
-- the case of ASCII letters alone, no membership is there twice, each has one of the two types, and its group is in the table.
pub Reachable-WellFormed :
    (users : Services) (services : GroupServices) (t : Tables)
    → Reachable users services t
    → WellFormed t
unfolding keys_unique groups_unique memberships_valid
Reachable-WellFormed users services t empty = record {
  users = refl;
  groups = refl;
  valid = refl;
  all_grounded = refl;
}
Reachable-WellFormed users services t (next s u reachable step) =
    step-WellFormed users services s t step (Reachable-WellFormed users services s reachable)
