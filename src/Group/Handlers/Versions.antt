-- ===== src/Group/Handlers/Versions.antt =====
-- Updates that follow one another: a version is current until the next update.
use scim_server.Common.{
  ℕ, ◌+◌, ◌≡◌, refl, sym, ap, ◌∙◌, true, false, Option, none, some, List, [], ◌∷◌, ◌++◌, map, arith,
  subst, Option-cases, Bool-cases, inl, inr, some_inj,
}
use scim_server.Text.{Text, ◌==◌, codes}
use scim_server.Text.Laws.{eq_iff}
use scim_server.Text.Numbers.{show}
use scim_server.Text.Numbers.Laws.{show-injective}
use scim_server.Json.{Value}
use scim_server.Password.{is_empty}
use scim_server.Error.{ok, >>=-Steps, ok-injective}
use scim_server.Config.{CompatibilityConfig}
use scim_server.Auth.{TenantInfo}
use scim_server.User.{Meta, Operation}
use scim_server.Group.{
  Group, Member, PreparedGroup, GroupServices, validate_group_id, prepare_group_for_update,
  touch_group,
}
use scim_server.Group.Store.{GroupRow, Tables, is_group, changed_row, replace_group}
use scim_server.Group.Read.{
  find_group, find_group_by_id, fetch_group_with_members, fetch_written, update_group, write_group,
  meta_at, version_tag, unless_empty, fetch_group_members,
}
use scim_server.Group.Laws.{replace_group-ok}
use scim_server.Group.RoundTrip.{prepared_group-members}
use scim_server.Group.Answers.{try_at-ok, fetch_written-some}
use scim_server.Group.Handlers.{
  HandlerServices, refused, version_of, replace_group_of_id, patch_group_of_id, delete_group_of_id,
}
use scim_server.Group.Handlers.Laws.{check_if_match-stale}

-- All but the last character.
front : Text → Text
front [] = []
front (c ∷ []) = []
front (c ∷ d ∷ s) = c ∷ front (d ∷ s)

front-append : (s : Text) (c : ℕ) → front (s ++ c ∷ []) ≡ s
unfolding front
front-append [] c = refl
front-append (a ∷ []) c = refl
front-append (a ∷ b ∷ s) c = ap (λ x. a ∷ x) (front-append (b ∷ s) c)

behind : Text → Text
behind [] = []
behind (c ∷ s) = s

version_tag-injective : (m n : ℕ) → version_tag m ≡ version_tag n → m ≡ n
unfolding behind
version_tag-injective m n h =
    let quoted : show m ++ codes "\"" ≡ show n ++ codes "\"" =
      ap (λ x. behind (behind (behind x))) h in
    show-injective m n
      (sym (front-append (show m) b'"') ∙ ap front quoted ∙ front-append (show n) b'"')

version_tag-next : (n : ℕ) → version_tag n == version_tag (n + 1) ≡ false
version_tag-next n = elim (Bool-cases (version_tag n == version_tag (n + 1))) [
  | inl e ↦
      let same =
        version_tag-injective n (n + 1) ((eq_iff (version_tag n) (version_tag (n + 1))).0 e) in
      absurd (omega (arith, same))
  | inr e ↦ e
]

meta_at-version :
    (services : GroupServices) (row : GroupRow) (m : Option Meta)
    → (meta_at services row m).version ≡ some (version_tag row.version)
unfolding meta_at
meta_at-version services row none = refl
meta_at-version services row (some m) = refl

find_group-changed_row :
    (p : PreparedGroup) (rows : List GroupRow) (row : GroupRow)
    → find_group p.id rows ≡ some row
    → find_group p.id (map (changed_row p) rows) ≡ some (changed_row p row)
unfolding find_group changed_row
find_group-changed_row p [] row h = cc
find_group-changed_row p (x ∷ rows) row h = ground (arith, find_group-changed_row p rows row)

find_group-id :
    (id : Text) (rows : List GroupRow) (row : GroupRow)
    → find_group id rows ≡ some row
    → is_group id row ≡ true
unfolding find_group
find_group-id id [] row h = cc
find_group-id id (x ∷ rows) row h = ground (arith, find_group-id id rows row)

changed_row-version :
    (p : PreparedGroup) (row : GroupRow)
    → is_group p.id row ≡ true
    → (changed_row p row).version ≡ row.version + 1
unfolding changed_row
changed_row-version p row h = rw h refl

-- The row of a group that an update leaves.
write_group-row :
    (services : GroupServices) (now : ℕ) (t : Tables) (id : Text) (group : Group) (t' : Tables)
    (row : GroupRow)
    → write_group services now t id group ≡ ok (some t')
    → find_group id t.groups ≡ some row
    → (next : GroupRow) × (find_group id t'.groups ≡ some next) × (next.version ≡ row.version + 1)
unfolding write_group prepare_group_for_update
write_group-row services now t id group t' row h f =
    let (checked, c, d) = >>=-Steps (validate_group_id id) _ h in
    let (p, q, r) =
      >>=-Steps (prepare_group_for_update services now id group) (replace_group services t) d in
    let (ms, n, i, m, same) = replace_group-ok services t p t' r in
    let (pid, given) =
      prepared_group-members services now id (touch_group services now (record group { id = id })) p
        q in
    let here : find_group p.id t.groups ≡ some row =
      subst (λ x. find_group x t.groups ≡ some row) (sym pid) f in
    (
      changed_row p row,
      subst (λ x. find_group x t'.groups ≡ some (changed_row p row)) pid
          (ap (λ (x : Tables). find_group p.id x.groups) (sym same)
            ∙ find_group-changed_row p t.groups row here),
      changed_row-version p row (find_group-id p.id t.groups row here),
    )

module _ (services : HandlerServices) where
  -- A group that is read has the version of its row.
  fetch_group_with_members-row :
      (shown : List Member → Option (List Member)) (tenant_id : ℕ) (t : Tables) (id : Text)
      (g : Group)
      → fetch_group_with_members services.groups shown tenant_id t id ≡ ok (some g)
      → (row : GroupRow) × (find_group id t.groups ≡ some row)
        × (version_of services g ≡ some (version_tag row.version))
        × (is_empty id ≡ false)
        × (group : Group) × (services.groups.from_value row.data_orig ≡ ok group)
  unfolding fetch_group_with_members
  fetch_group_with_members-row shown tenant_id t id g h = elim (Bool-cases (is_empty id)) [
    | inl e ↦ absurd (ground (arith, e))
    | inr e ↦ elim (Option-cases (find_group id t.groups)) [
      | inl f ↦ absurd (ground (arith, e, f))
      | inr (row, f) ↦
          let (group, k, l) =
            >>=-Steps (services.groups.from_value row.data_orig) _
              (rw (e, f, fetch_group_with_members) at h) in
          (
            row,
            f,
            sym (ap (version_of services) (some_inj.0 (ok-injective l)))
                ∙ meta_at-version services.groups row group.meta,
            e,
            group,
            k,
          )
    ]
  ]

  find_group_by_id-row :
      (tenant_id : ℕ) (t : Tables) (id : Text) (row : GroupRow) (group : Group)
      → is_empty id ≡ false
      → find_group id t.groups ≡ some row
      → services.groups.from_value row.data_orig ≡ ok group
      → (g : Group) × (find_group_by_id services.groups tenant_id t id ≡ ok (some g))
        × (version_of services g ≡ some (version_tag row.version))
  unfolding find_group_by_id fetch_group_with_members
  find_group_by_id-row tenant_id t id row group e f k = (
    record group {
      meta = some (meta_at services.groups row group.meta);
      members = some (fetch_group_members services.groups tenant_id t id);
    },
    rw (e, f, k) refl,
    meta_at-version services.groups row group.meta,
  )

  -- The version of a group before an update that succeeds is stale after it: a request that names it
  -- in If-Match leaves the tables, and a patch and a deletion are answered with 412.
  pub update_group-stale :
      (info : TenantInfo) (config : CompatibilityConfig) (time : ℕ) (now : Text) (t : Tables)
      (id : Text) (group before : Group) (version : Text) (t' : Tables) (g : Group)
      (payload : Value) (os : List Operation)
      → find_group_by_id services.groups info.tenant_id t id ≡ ok (some before)
      → version_of services before ≡ some version
      → update_group services.groups time info.tenant_id t id group ≡ (t', ok (some g))
      → ((replace_group_of_id services info config time now t' id (some version) payload).0 ≡ t')
        × (patch_group_of_id services info config time now t' id (some version) os
            ≡ (t', refused 412))
        × (delete_group_of_id services info t' id (some version) ≡ (t', refused 412))
  unfolding update_group find_group_by_id
  update_group-stale info config time now t id group before version t' g payload os h v u =
      let (row, f, w, e, _, _) = fetch_group_with_members-row some info.tenant_id t id before h in
      let (o, a, b) =
        try_at-ok t (write_group services.groups time t id group)
          (fetch_written services.groups info.tenant_id t id) t' (some g) u in
      let (k, l) = fetch_written-some services.groups info.tenant_id t id o t' g b in
      let (next, n, s) = write_group-row services.groups time t id group t' row (a ∙ ap ok k) f in
      let (row', f', w', e', parsed, d) =
        fetch_group_with_members-row unless_empty info.tenant_id t' id g l in
      let (found, x, y) = find_group_by_id-row info.tenant_id t' id row' parsed e' f' d in
      let same : row'.version ≡ row.version + 1 =
        ap (λ (r : GroupRow). r.version) (some_inj.0 (sym f' ∙ n)) ∙ s in
      let tag : version ≡ version_tag row.version = some_inj.0 (sym v ∙ w) in
      check_if_match-stale services info config time now t' id version payload os found
        (version_tag row'.version) x y
        (ap (λ z. z == version_tag row'.version) tag
          ∙ ap (λ z. version_tag row.version == version_tag z) same
          ∙ version_tag-next row.version)
