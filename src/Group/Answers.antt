-- ===== src/Group/Answers.antt =====
-- The answers of `create_group` and `update_group`: the group with the members that were written.
use scim_server.Common.{
  ℕ, ◌≡◌, refl, sym, ap, ◌∙◌, Option, none, some, List, map, arith, keep, Bool-cases, Option-cases,
  inl, inr, subst, some_inj,
}
use scim_server.Text.{Text}
use scim_server.Password.{is_empty}
use scim_server.Error.{
  AppResult, AppError, ok, err, panicked, out_of_fuel, ◌>>=◌, >>=-Steps, ok-injective,
}
use scim_server.Group.{
  Group, Member, GroupServices, prepare_group_for_insert, prepare_group_for_update,
  validate_group_id, touch_group, new_group_meta,
}
use scim_server.Group.Store.{Tables, in_group, insert_group, replace_group}
use scim_server.Group.Read.{
  Outcome, create_group, update_group, write_group, fetch_written, fetch_group_with_members,
  fetch_group_members, find_group_by_id, find_group, member_of, unless_empty, created_group, try_at,
}
use scim_server.Group.Members.{memberships_given}
use scim_server.Group.Laws.{WellFormed}
use scim_server.Group.RoundTrip.{
  WrittenFor, prepared_group-members, insert_group-WrittenFor, replace_group-WrittenFor,
}

err-ne-ok : {B : Type 0} {e : AppError} {b : B} → err e ≡ ok b → ⊥
err-ne-ok h = cc

panicked-ne-ok : {B : Type 0} {b : B} → panicked ≡ ok b → ⊥
panicked-ne-ok h = cc

out_of_fuel-ne-ok : {B : Type 0} {b : B} → out_of_fuel ≡ ok b → ⊥
out_of_fuel-ne-ok h = cc

none-ne-some : {g : Group} → ok none ≡ ok (some g) → ⊥
none-ne-some h = cc

fetched-members :
    (services : GroupServices) (shown : List Member → Option (List Member)) (tenant_id : ℕ)
    → (t : Tables) (id : Text) (g : Group)
    → fetch_group_with_members services shown tenant_id t id ≡ ok (some g)
    → g.members ≡ shown (map (member_of services tenant_id t) (keep (in_group id) t.memberships))
unfolding fetch_group_with_members fetch_group_members
fetched-members services shown tenant_id t id g h = elim (Bool-cases (is_empty id)) [
  | inl e ↦ absurd (ground (arith, e))
  | inr e ↦ elim (Option-cases (find_group id t.groups)) [
    | inl f ↦ absurd (ground (arith, e, f))
    | inr (row, f) ↦
        let (group, k, l) =
          >>=-Steps (services.from_value row.data_orig) _
            (rw (e, f, fetch_group_with_members) at h) in
        sym (ap (λ (x : Group). x.members) (some_inj.0 (ok-injective l)))
  ]
]

pub try_at-ok :
    {A B : Type 0} (t : Tables) (m : AppResult A) (k : A → Outcome B) (t' : Tables) (b : B)
    → try_at t m k ≡ (t', ok b)
    → (a : A) × (m ≡ ok a) × (k a ≡ (t', ok b))
try_at-ok t (ok a) k t' b h = (a, refl, h)
try_at-ok t (err e) k t' b h = absurd (err-ne-ok (ap (λ x. x.1) h))
try_at-ok t panicked k t' b h = absurd (panicked-ne-ok (ap (λ x. x.1) h))
try_at-ok t out_of_fuel k t' b h = absurd (out_of_fuel-ne-ok (ap (λ x. x.1) h))

pub fetch_written-some :
    (services : GroupServices) (tenant_id : ℕ) (t : Tables) (id : Text) (o : Option Tables)
    → (t' : Tables) (g : Group) → fetch_written services tenant_id t id o ≡ (t', ok (some g))
    → (o ≡ some t') × (fetch_group_with_members services unless_empty tenant_id t' id ≡ ok (some g))
fetch_written-some services tenant_id t id none t' g h = absurd (none-ne-some (ap (λ x. x.1) h))
fetch_written-some services tenant_id t id (some u) t' g h =
    let same = ap (λ x. x.0) h in
    (
      ap some same,
      ap (λ x. fetch_group_with_members services unless_empty tenant_id x id) (sym same)
          ∙ ap (λ x. x.1) h,
    )

created_group-some : (o : Option Group) (g : Group) → created_group o ≡ ok g → o ≡ some g
created_group-some none g h = cc
created_group-some (some x) g h = ap some (ok-injective h)

-- An update that answers with the group leaves it exactly the members of the request that have a
-- value, in their order, a member without a type as a user; the answer has them, and no members where
-- there are none. The memberships of the other groups are as before.
pub update_group-members :
    (services : GroupServices) (now tenant_id : ℕ) (t : Tables) (id : Text) (group : Group)
    → (t' : Tables) (g : Group) → update_group services now tenant_id t id group ≡ (t', ok (some g))
    → (g.members
        ≡ unless_empty (map (member_of services tenant_id t') (memberships_given id group.members)))
      × WrittenFor id group.members t.memberships t'.memberships
unfolding update_group write_group prepare_group_for_update
update_group-members services now tenant_id t id group t' g h =
    let (o, e, f) =
      try_at-ok t (write_group services now t id group) (fetch_written services tenant_id t id) t'
        (some g) h in
    let (k, l) = fetch_written-some services tenant_id t id o t' g f in
    let (checked, c, d) = >>=-Steps (validate_group_id id) _ (e ∙ ap ok k) in
    let (p, q, r) =
      >>=-Steps (prepare_group_for_update services now id group) (replace_group services t) d in
    let (i, m) =
      prepared_group-members services now id (touch_group services now (record group { id = id })) p
        q in
    let written : WrittenFor id group.members t.memberships t'.memberships =
      subst (λ x. WrittenFor x group.members t.memberships t'.memberships) i
        (subst (λ x. WrittenFor p.id x t.memberships t'.memberships) m
          (replace_group-WrittenFor services t p t' r)) in
    (
      fetched-members services unless_empty tenant_id t' id g l
          ∙ ap (λ x. unless_empty (map (member_of services tenant_id t') x)) written.0,
      written,
    )

-- An insert that succeeds, on well-formed tables, gives the new group exactly the members of the request
-- that have a value, in their order, a member without a type as a user; the answer has them. The
-- memberships of the other groups are as before.
pub create_group-members :
    (services : GroupServices) (now : ℕ) (fresh : Text) (tenant_id : ℕ) (t : Tables) (group : Group)
    → (t' : Tables) (g : Group) → WellFormed t
    → create_group services now fresh tenant_id t group ≡ (t', ok g)
    → (g.members
        ≡ some (map (member_of services tenant_id t') (memberships_given fresh group.members)))
      × WrittenFor fresh group.members t.memberships t'.memberships
unfolding create_group prepare_group_for_insert find_group_by_id
create_group-members services now fresh tenant_id t group t' g w h =
    let made = prepare_group_for_insert services now fresh group >>= insert_group services t in
    let read : Tables → Outcome Group =
      λ u. (u, find_group_by_id services tenant_id u fresh >>= created_group) in
    let (u, e, f) = try_at-ok t made read t' g h in
    let same : u ≡ t' = ap (λ x. x.0) f in
    let (p, q, r) =
      >>=-Steps (prepare_group_for_insert services now fresh group) (insert_group services t)
        (e ∙ ap ok same) in
    let (o, a, b) = >>=-Steps (find_group_by_id services tenant_id t' fresh) created_group (
      ap (λ x. find_group_by_id services tenant_id x fresh >>= created_group) (sym same)
      ∙ ap (λ x. x.1) f) in
    let (i, m) =
      prepared_group-members services now fresh
        (record group { id = fresh; meta = some (new_group_meta services now) }) p q in
    let written : WrittenFor fresh group.members t.memberships t'.memberships =
      subst (λ x. WrittenFor x group.members t.memberships t'.memberships) i
        (subst (λ x. WrittenFor p.id x t.memberships t'.memberships) m
          (insert_group-WrittenFor services t p t' w r)) in
    (
      fetched-members services some tenant_id t' fresh g (a ∙ ap ok (created_group-some o g b))
          ∙ ap (λ x. some (map (member_of services tenant_id t') x)) written.0,
      written,
    )
