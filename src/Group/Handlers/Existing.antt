-- ===== src/Group/Handlers/Existing.antt =====
-- A replaced group has only members that exist: `validate_group_members` with `update_group`.
use scim_server.Common.{
  ℕ, ◌≡◌, refl, sym, ap, ◌∙◌, true, Option, none, some, List, [], ◌∷◌, arith, ◌⊎◌, any, all, keep,
  all_mono, subst, Option-cases, Bool-cases, inl, inr,
}
use scim_server.Text.{Text, ◌==◌, codes}
use scim_server.Json.{Value}
use scim_server.Error.{AppResult, ok, err, panicked, out_of_fuel, >>=-Steps}
use scim_server.Config.{CompatibilityConfig}
use scim_server.Auth.{TenantInfo}
use scim_server.User.Store.{has_id, find_user_for_patch}
use scim_server.Group.{
  Group, Member, GroupServices, validate_group_id, prepare_group_for_update, touch_group,
}
use scim_server.Group.Store.{Membership, Tables, is_group, in_group, member_type_of, replace_group}
use scim_server.Group.Read.{fetch_written, find_group_by_id, update_group, write_group}
use scim_server.Group.Members.{memberships_of, memberships_given}
use scim_server.Group.Handlers.{
  HandlerServices, Answer, validate_member, validate_members, validate_group_members,
  check_if_match, unless, settled, respond, unless_found, replace_group_of_id,
}
use scim_server.Group.Handlers.Payload.{group_of_payload}
use scim_server.Group.Handlers.Laws.{member_exists, find_user_for_patch-any, find_group_by_id-any}
use scim_server.Group.Laws.{replace_group-ok}
use scim_server.Group.Kept.{try_at-cases}
use scim_server.Group.RoundTrip.{WrittenFor, replace_group-WrittenFor, prepared_group-members}
use scim_server.Group.Names.{any-is_group-changed_row}

unless_found-none :
    {A : Type 0} (services : HandlerServices) (r : AppResult (Option A))
    → unless_found services r ≡ none
    → (a : A) × (r ≡ ok (some a))
unless_found-none services (ok (some a)) h = (a, refl)
unless_found-none services (ok none) h = cc
unless_found-none services (err e) h = cc
unless_found-none services panicked h = cc
unless_found-none services out_of_fuel h = cc

abbrev membership : Text → Text → Text → Membership
membership group id kind = record { group_id = group; member_id = id; member_type = kind }

module _ (services : HandlerServices) where
  validate_member-member_exists :
      (info : TenantInfo) (t : Tables) (group id kind : Text)
      → validate_member services info t id kind ≡ none
      → member_exists t (membership group id kind) ≡ true
  unfolding validate_member
  validate_member-member_exists info t group id kind h = elim (Bool-cases (kind == codes "User")) [
    | inl u ↦
        let (user, e) =
          unless_found-none services (find_user_for_patch services.users t.users id)
            (rw (u, validate_member) at h) in
        rw u (find_user_for_patch-any services.users t.users id user e)
    | inr u ↦ elim (Bool-cases (kind == codes "Group")) [
      | inl g ↦
          let (found, e) =
            unless_found-none services (find_group_by_id services.groups info.tenant_id t id)
              (rw (u, g, validate_member) at h) in
          rw (u, g) (find_group_by_id-any services.groups info.tenant_id t id found e)
      | inr g ↦ absurd (ground (arith, u, g))
    ]
  ]

  validate_members-member_exists :
      (info : TenantInfo) (t : Tables) (group : Text) (ms : List Member)
      → validate_members services info t ms ≡ none
      → all (member_exists t) (memberships_of group ms) ≡ true
  unfolding validate_members memberships_of
  validate_members-member_exists info t group [] h = refl
  validate_members-member_exists info t group (m ∷ ms) h = elim (Option-cases m.value) [
    | inl e ↦ rw e (validate_members-member_exists info t group ms (rw (e, validate_members) at h))
    | inr (id, e) ↦ elim (Option-cases (validate_member services info t id (member_type_of m))) [
      | inr (a, v) ↦ absurd (ground (arith, e, v))
      | inl v ↦
          let here = validate_member-member_exists info t group id (member_type_of m) v in
          let rest =
            validate_members-member_exists info t group ms (rw (e, v, validate_members) at h) in
          rw (e, here) rest
    ]
  ]

  validate_group_members-member_exists :
      (info : TenantInfo) (t : Tables) (group : Text) (ms : Option (List Member))
      → validate_group_members services info t ms ≡ none
      → all (member_exists t) (memberships_given group ms) ≡ true
  validate_group_members-member_exists info t group none h = refl
  validate_group_members-member_exists info t group (some ms) h =
      validate_members-member_exists info t group ms h

member_exists-same :
    (t t' : Tables) (m : Membership)
    → t'.users ≡ t.users
    → ((j : Text) → any (is_group j) t'.groups ≡ any (is_group j) t.groups)
    → member_exists t m ≡ true
    → member_exists t' m ≡ true
member_exists-same t t' m u g h =
    let users = ap (any (has_id m.member_id)) u in
    let groups = g m.member_id in ground (arith, users, groups)

-- The tables after an update: as before, or a group of that identifier with the members given, and
-- the same users and groups.
abbrev Replaced : Text → Group → Tables → Tables → Type 0
Replaced id group t t' =
    (keep (in_group id) t'.memberships ≡ memberships_given id group.members)
    × (t'.users ≡ t.users)
    × ((j : Text) → any (is_group j) t'.groups ≡ any (is_group j) t.groups)

write_group-Replaced :
    (services : GroupServices) (now : ℕ) (t : Tables) (id : Text) (group : Group) (t' : Tables)
    → write_group services now t id group ≡ ok (some t')
    → Replaced id group t t'
unfolding write_group prepare_group_for_update
write_group-Replaced services now t id group t' h =
    let (checked, c, d) = >>=-Steps (validate_group_id id) _ h in
    let (p, q, r) =
      >>=-Steps (prepare_group_for_update services now id group) (replace_group services t) d in
    let (ms, n, i, m, same) = replace_group-ok services t p t' r in
    let (pid, given) =
      prepared_group-members services now id (touch_group services now (record group { id = id })) p
        q in
    let written : WrittenFor id group.members t.memberships t'.memberships =
      subst (λ x. WrittenFor x group.members t.memberships t'.memberships) pid
        (subst (λ x. WrittenFor p.id x t.memberships t'.memberships) given
          (replace_group-WrittenFor services t p t' r)) in
    (
      written.0,
      sym (ap (λ (x : Tables). x.users) same),
      (λ j.
          ap (λ (x : Tables). any (is_group j) x.groups) (sym same)
          ∙ any-is_group-changed_row p j t.groups),
    )

fetch_written-tables :
    (services : GroupServices) (tenant_id : ℕ) (t : Tables) (id : Text) (o : Option Tables)
    → ((fetch_written services tenant_id t id o).0 ≡ t)
      ⊎ (o ≡ some (fetch_written services tenant_id t id o).0)
fetch_written-tables services tenant_id t id none = inl refl
fetch_written-tables services tenant_id t id (some t') = inr refl

update_group-tables :
    (services : GroupServices) (now tenant_id : ℕ) (t : Tables) (id : Text) (group : Group)
    → ((update_group services now tenant_id t id group).0 ≡ t)
      ⊎ Replaced id group t (update_group services now tenant_id t id group).0
unfolding update_group
update_group-tables services now tenant_id t id group =
    elim (try_at-cases t (write_group services now t id group)
      (fetch_written services tenant_id t id)) [
        | inl e ↦ inl e
        | inr (o, e, f) ↦
            let same = ap (λ x. x.0) f in
            elim (fetch_written-tables services tenant_id t id o) [
              | inl g ↦ inl (same ∙ g)
              | inr g ↦ inr (
                  subst (Replaced id group t) (sym same) (
                    write_group-Replaced services now t id group
                      (fetch_written services tenant_id t id o).0 (e ∙ ap ok g)))
            ]
      ]

-- The tables are as before, or every membership of the group is of a user or a group in the table of
-- its type.
abbrev pub Kept : Tables → Text → Tables → Type 0
Kept t id t' = (t' ≡ t) ⊎ (all (member_exists t') (keep (in_group id) t'.memberships) ≡ true)

module _ (services : HandlerServices) where
  unless-Kept :
      (t : Tables) (id : Text) (o : Option Answer) (r : Tables × Answer)
      → (o ≡ none → Kept t id r.0)
      → Kept t id (unless services t o r).0
  unless-Kept t id none r h = h refl
  unless-Kept t id (some a) r h = inl refl

  Replaced-Kept :
      (t t' : Tables) (id : Text) (group : Group)
      → all (member_exists t) (memberships_given id group.members) ≡ true
      → Replaced id group t t'
      → Kept t id t'
  Replaced-Kept t t' id group h (own, users, groups) = inr (
      ap (all (member_exists t')) own
      ∙ all_mono (member_exists t) (member_exists t') (memberships_given id group.members)
          (λ m e. member_exists-same t t' m users groups e) h)

  -- A replacement leaves the tables, or it leaves the group with members that all exist.
  pub replace_group_of_id-Kept :
      (info : TenantInfo) (config : CompatibilityConfig) (time : ℕ) (now : Text) (t : Tables)
      (id : Text) (if_match : Option Text) (payload : Value)
      → Kept t id (replace_group_of_id services info config time now t id if_match payload).0
  unfolding replace_group_of_id
  replace_group_of_id-Kept info config time now t id if_match payload =
      let group = group_of_payload services.others_of id payload in
      let update = update_group services.groups time info.tenant_id t id group in
      let answer = settled services (respond services info config now) update in
      let checked = check_if_match services info t id if_match in
      unless-Kept t id (validate_group_members services info t group.members)
        (unless services t checked answer)
        (λ v. unless-Kept t id checked answer (λ c.
          elim (update_group-tables services.groups time info.tenant_id t id group) [
            | inl e ↦ inl e
            | inr e ↦
                Replaced-Kept t update.0 id group
                  (validate_group_members-member_exists services info t id group.members v) e
          ]))
