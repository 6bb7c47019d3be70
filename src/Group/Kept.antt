-- ===== src/Group/Kept.antt =====
-- The tables after a request on groups, whether it succeeds or not: well formed if they were before.
use scim_server.Common.{
  ℕ, ◌≡◌, refl, sym, ap, ◌∙◌, ◌⊎◌, Bool, true, false, Option, none, some, List, inl, inr, subst,
  if◌then◌else◌,
}
use scim_server.Text.{Text}
use scim_server.Error.{AppResult, ok, err, panicked, out_of_fuel, ◌>>=◌, >>=-Steps}
use scim_server.User.{Operation}
use scim_server.Group.{
  Group, GroupServices, prepare_group_for_insert, prepare_group_for_update, patch_all,
  validate_group_id,
}
use scim_server.Password.{is_empty}
use scim_server.Group.Store.{Tables, insert_group, replace_group}
use scim_server.Group.Read.{
  create_group, update_group, patch_group, write_group, read_again, patch_group_reader,
  patch_found_group, find_group_by_id, Outcome, try_at, created_group, fetch_written,
}
use scim_server.Group.Laws.{WellFormed, insert_group-WellFormed, replace_group-WellFormed}

pub try_at-cases :
    {A B : Type 0} (t : Tables) (m : AppResult A) (k : A → Outcome B)
    → ((try_at t m k).0 ≡ t) ⊎ ((a : A) × (m ≡ ok a) × (try_at t m k ≡ k a))
try_at-cases t (ok a) k = inr (a, refl, refl)
try_at-cases t (err e) k = inl refl
try_at-cases t panicked k = inl refl
try_at-cases t out_of_fuel k = inl refl

pub create_group-WellFormed :
    (services : GroupServices) (now : ℕ) (fresh : Text) (tenant_id : ℕ) (t : Tables) (group : Group)
    → WellFormed t
    → WellFormed (create_group services now fresh tenant_id t group).0
unfolding create_group
create_group-WellFormed services now fresh tenant_id t group w =
    let made = prepare_group_for_insert services now fresh group >>= insert_group services t in
    let read : Tables → Outcome Group =
      λ t'. (t', find_group_by_id services tenant_id t' fresh >>= created_group) in
    elim (try_at-cases t made read) [
      | inl e ↦ subst WellFormed (sym e) w
      | inr (t', e, f) ↦
          let (p, g, h) =
            >>=-Steps (prepare_group_for_insert services now fresh group) (insert_group services t)
              e in
          subst WellFormed (sym (ap (λ x. x.0) f)) (insert_group-WellFormed services t p t' h w)
    ]

fetch_written-WellFormed :
    (services : GroupServices) (tenant_id : ℕ) (t : Tables) (id : Text) (o : Option Tables)
    → WellFormed t
    → ((t' : Tables) → o ≡ some t' → WellFormed t')
    → WellFormed (fetch_written services tenant_id t id o).0
fetch_written-WellFormed services tenant_id t id none w f = w
fetch_written-WellFormed services tenant_id t id (some t') w f = f t' refl

write_group-WellFormed :
    (services : GroupServices) (now : ℕ) (t : Tables) (id : Text) (group : Group) (t' : Tables)
    → WellFormed t
    → write_group services now t id group ≡ ok (some t')
    → WellFormed t'
unfolding write_group
write_group-WellFormed services now t id group t' w h =
    let (checked, e, g) = >>=-Steps (validate_group_id id) _ h in
    let (p, f, k) =
      >>=-Steps (prepare_group_for_update services now id group) (replace_group services t) g in
    replace_group-WellFormed services t p t' k w

pub update_group-WellFormed :
    (services : GroupServices) (now tenant_id : ℕ) (t : Tables) (id : Text) (group : Group)
    → WellFormed t
    → WellFormed (update_group services now tenant_id t id group).0
unfolding update_group
update_group-WellFormed services now tenant_id t id group w =
    elim (try_at-cases t (write_group services now t id group)
      (fetch_written services tenant_id t id)) [
        | inl e ↦ subst WellFormed (sym e) w
        | inr (o, e, f) ↦ subst WellFormed (sym (ap (λ x. x.0) f)) (
            fetch_written-WellFormed services tenant_id t id o w
              (λ t' g. write_group-WellFormed services now t id group t' w (e ∙ ap ok g)))
      ]

read_again-tables :
    (services : GroupServices) (tenant_id : ℕ) (id : Text) (o : Outcome (Option Group))
    → (read_again services tenant_id id o).0 ≡ o.0
read_again-tables services tenant_id id (t, ok (some group)) = refl
read_again-tables services tenant_id id (t, ok none) = refl
read_again-tables services tenant_id id (t, err e) = refl
read_again-tables services tenant_id id (t, panicked) = refl
read_again-tables services tenant_id id (t, out_of_fuel) = refl

patch_found_group-WellFormed :
    (services : GroupServices) (now tenant_id : ℕ) (t : Tables) (id : Text) (os : List Operation)
    → (found : Option Group) → WellFormed t
    → WellFormed (patch_found_group services now tenant_id t id os found).0
unfolding patch_found_group
patch_found_group-WellFormed services now tenant_id t id os none w = w
patch_found_group-WellFormed services now tenant_id t id os (some group) w =
    let write : Group → Outcome (Option Group) =
      λ patched. update_group services now tenant_id t id patched in
    elim (try_at-cases t (patch_all services os group) write) [
      | inl e ↦ subst WellFormed (sym e) w
      | inr (patched, e, f) ↦
          subst WellFormed (sym (ap (λ x. x.0) f))
            (update_group-WellFormed services now tenant_id t id patched w)
    ]

if-WellFormed :
    (b : Bool) (x y : Outcome (Option Group))
    → WellFormed x.0
    → WellFormed y.0
    → WellFormed (if b then x else y).0
if-WellFormed true x y v w = v
if-WellFormed false x y v w = w

patch_group_reader-WellFormed :
    (services : GroupServices) (now tenant_id : ℕ) (t : Tables) (id : Text) (os : List Operation)
    → WellFormed t
    → WellFormed (patch_group_reader services now tenant_id t id os).0
unfolding patch_group_reader
patch_group_reader-WellFormed services now tenant_id t id os w =
    let write : Option Group → Outcome (Option Group) =
      λ found. patch_found_group services now tenant_id t id os found in
    let read = try_at t (find_group_by_id services tenant_id t id) write in
    if-WellFormed (is_empty id) (t, ok none) read w
      (elim (try_at-cases t (find_group_by_id services tenant_id t id) write) [
        | inl f ↦ subst WellFormed (sym f) w
        | inr (found, f, g) ↦
            subst WellFormed (sym (ap (λ x. x.0) g))
              (patch_found_group-WellFormed services now tenant_id t id os found w)
      ])

pub patch_group-WellFormed :
    (services : GroupServices) (now tenant_id : ℕ) (t : Tables) (id : Text) (os : List Operation)
    → WellFormed t
    → WellFormed (patch_group services now tenant_id t id os).0
unfolding patch_group
patch_group-WellFormed services now tenant_id t id os w =
    subst WellFormed
      (sym (
        read_again-tables services tenant_id id
          (patch_group_reader services now tenant_id t id os)))
      (patch_group_reader-WellFormed services now tenant_id t id os w)
