-- ===== src/Patch/Attribute/Invariant.antt =====
-- An operation on an attribute path as a whole: navigation, the final attribute, the schemas.
use scim_server.Common.{
  ◌≡◌, ◌≢◌, refl, subst, ◌∙◌, sym, Bool, true, false, List, [], ◌∷◌, arith, if◌then◌else◌, Option,
  none, some, Bool-cases, Option-cases, inl, inr,
}
use scim_server.Text.{Text, ◌==◌}
use scim_server.Text.Laws.{eq_iff}
use scim_server.Json.{Value, Fields, Items, object, array, string, nil, end, get, insert}
use scim_server.Json.Laws.{get-insert}
use scim_server.Error.{ok, >>=-Steps}
use scim_server.Config.{CompatibilityConfig}
use scim_server.Patch.Attribute.{
  is_multi_valued_attribute, entry_or, navigate_and_apply, apply_attr_path_operation,
  update_schemas_attribute, needs_schema_update, last_of, schemas, add_schema, schema_of,
}
use scim_server.Patch.Attribute.Laws.{OnePrimary, IsArray, Opt}
use scim_server.Patch.Attribute.Keeps.{Sets, SetsIn, insert-Sets, apply_final-SetsIn}

-- Below an array there is nothing to navigate to, and only "remove" does not fail.
navigate-array :
    (config : CompatibilityConfig) (xs : Items) (path : List Text) (op : Text) (v c : Value)
    → navigate_and_apply config (array xs) path op v ≡ ok c
    → c ≡ array xs
unfolding navigate_and_apply
navigate-array config xs [] op v c h = cc
navigate-array config xs (k ∷ []) op v c h = ground arith
navigate-array config xs (k ∷ j ∷ path) op v c h = cc

child-OnePrimary :
    (config : CompatibilityConfig) (o : Option Value) (path : List Text) (op : Text) (v c : Value)
    → ((n : Fields) → navigate_and_apply config (object n) path op v ≡ ok c → OnePrimary c)
    → Opt OnePrimary o
    → Opt IsArray o
    → navigate_and_apply config (elim o [ none ↦ object end | some w ↦ w ]) path op v ≡ ok c
    → OnePrimary c
child-OnePrimary config none path op v c below few is h = below end h
child-OnePrimary config (some (array xs)) path op v c below few is h =
    rw (navigate-array config xs path op v c h) few
child-OnePrimary config (some w) path op v c below few is h = absurd is

SetsIn-OnePrimary : (k : Text) (m : Fields) (r : Value) → SetsIn k m r → OnePrimary r
SetsIn-OnePrimary k m r (m', e, s) = rw e tt

navigate-SetsIn :
    (config : CompatibilityConfig) (path : List Text) (m : Fields) (k op : Text) (v r : Value)
    → navigate_and_apply config (object m) (k ∷ path) op v ≡ ok r
    → SetsIn k m r
unfolding navigate_and_apply
navigate-SetsIn config [] m k op v r h = apply_final-SetsIn config k op m v r h
navigate-SetsIn config (next ∷ path) m k op v r h =
    let (c, p, q) =
      >>=-Steps (navigate_and_apply config (entry_or k (object end) m) (next ∷ path) op v)
        (λ (x : Value). ok (object (insert k x m))) h in
    (
      insert k c m,
      cc,
      insert-Sets k m c (λ multi few is.
          child-OnePrimary config (get k m) (next ∷ path) op v c
            (λ n g. SetsIn-OnePrimary next n c (navigate-SetsIn config path n next op v c g)) few is
            p),
    )

-- Another attribute than `k`.
Sets-other : (k j : Text) (m m' : Fields) → Sets k m m' → k ≢ j → get j m' ≡ get j m
Sets-other k j m m' s ne = ground (arith, s.others j, eq_iff k j)

-- `k` itself or another attribute.
Sets-one :
    (k j : Text) (m m' : Fields)
    → Sets k m m'
    → is_multi_valued_attribute j ≡ true
    → Opt OnePrimary (get j m)
    → Opt IsArray (get j m)
    → Opt OnePrimary (get j m')
Sets-one k j m m' s multi few is = elim (Bool-cases (k == j)) [
  | inl y ↦
      let e : k ≡ j = (eq_iff k j).0 y in
      rw (s.others j, y) (s.one (rw e multi) (rw e few) (rw e is))
  | inr n ↦ rw (s.others j, n) few
]

-- `update_schemas_attribute` changes no attribute but `schemas`.
update_schemas-other :
    (m : Fields) (attr j : Text)
    → schemas ≢ j
    → (m' : Fields) × (update_schemas_attribute (object m) attr ≡ object m') × (get j m' ≡ get j m)
unfolding update_schemas_attribute
update_schemas-other m attr j ne = elim (Option-cases (schema_of attr)) [
  | inl e ↦ (m, rw (e, update_schemas_attribute), refl)
  | inr (urn, e) ↦
      let schema = add_schema (string urn) (entry_or schemas (array nil) m) in
      (
        insert schemas schema m,
        rw (e, update_schemas_attribute),
        ground (arith, get-insert schemas j schema m, eq_iff schemas j),
      )
]

after_schemas :
    (b : Bool) (m : Fields) (attr j : Text) (r : Value)
    → schemas ≢ j
    → (if b then update_schemas_attribute (object m) attr else object m) ≡ r
    → (m' : Fields) × (r ≡ object m') × (get j m' ≡ get j m)
after_schemas true m attr j r ne h =
    let (m', e, same) = update_schemas-other m attr j ne in (m', cc, same)
after_schemas false m attr j r ne h = (m, cc, refl)

apply_attr_path-SetsIn :
    (config : CompatibilityConfig) (m : Fields) (k : Text) (path : List Text) (op : Text)
    (v r : Value) (j : Text)
    → schemas ≢ j
    → apply_attr_path_operation config (object m) (k ∷ path) op v ≡ ok r
    → (n m' : Fields) × Sets k m n × (r ≡ object m') × (get j m' ≡ get j n)
unfolding apply_attr_path_operation
apply_attr_path-SetsIn config m k path op v r j ne h =
    let key = last_of k path in
    let (c, p, q) =
      >>=-Steps (navigate_and_apply config (object m) (k ∷ path) op v)
        (λ (x : Value).
          ok (if needs_schema_update key op then update_schemas_attribute x key else x))
        h in
    let (n, e, s) = navigate-SetsIn config path m k op v c p in
    let done : (if needs_schema_update key op
          then update_schemas_attribute (object n) key
          else object n)
        ≡ r =
      cc in
    let (m', e', same) = after_schemas (needs_schema_update key op) n key j r ne done in
    (n, m', s, e', same)

-- An operation on an attribute path that succeeds changes no attribute but the first of the path
-- and, for an attribute with a schema's name, `schemas`.
pub apply_attr_path_operation_frame :
    (config : CompatibilityConfig) (m : Fields) (k : Text) (path : List Text) (op : Text)
    (v r : Value) (j : Text)
    → apply_attr_path_operation config (object m) (k ∷ path) op v ≡ ok r
    → k ≢ j
    → schemas ≢ j
    → (m' : Fields) × (r ≡ object m') × (get j m' ≡ get j m)
apply_attr_path_operation_frame config m k path op v r j h other ne =
    let (n, m', s, e, same) = apply_attr_path-SetsIn config m k path op v r j ne h in
    (m', e, same ∙ Sets-other k j m n s other)

multi-ne-schemas : (j : Text) → is_multi_valued_attribute j ≡ true → schemas ≢ j
unfolding is_multi_valued_attribute
multi-ne-schemas j multi e =
    let h : is_multi_valued_attribute schemas ≡ true =
      subst (λ k. is_multi_valued_attribute k ≡ true) (sym e) multi in
    cc

-- Whatever the operation, the path and the value: a multi-valued attribute that was absent, or an
-- array with at most one primary element, has at most one primary element afterwards.
pub apply_attr_path_operation-OnePrimary :
    (config : CompatibilityConfig) (m : Fields) (k : Text) (path : List Text) (op : Text)
    (v r : Value) (j : Text)
    → is_multi_valued_attribute j ≡ true
    → Opt OnePrimary (get j m)
    → Opt IsArray (get j m)
    → apply_attr_path_operation config (object m) (k ∷ path) op v ≡ ok r
    → (m' : Fields) × (r ≡ object m') × Opt OnePrimary (get j m')
apply_attr_path_operation-OnePrimary config m k path op v r j multi few is h =
    let (n, m', s, e, same) =
      apply_attr_path-SetsIn config m k path op v r j (multi-ne-schemas j multi) h in
    (m', e, rw same (Sets-one k j m n s multi few is))
