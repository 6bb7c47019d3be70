-- ===== src/Response/Attributes/Requested.antt =====
-- A request with `attributes` is answered with nothing else than what it names.
use scim_server.Common.{
  ◌≡◌, refl, Bool, true, false, ◌&&◌, ◌||◌, Option, none, List, [], ◌∷◌, arith, any, all,
  Option-cases, inl, inr,
}
use scim_server.Text.{Text, starts_with}
use scim_server.Json.{Fields, object, get_key}
use scim_server.Schema.Definitions.{
  attribute_definition, Attributes, no_attributes, attribute, SchemaDefinition, Returned,
  sub_attributes_of, find_attribute,
}
use scim_server.Schema.Lookup.{ResourceType, schema_for}
use scim_server.Response.Attributes.{
  dotted, is_always, add_sub_attributes_recursive, add_sub_attributes, add_requested,
  add_all_requested, add_returned, get_included_attributes_from_list, apply_to_resource,
}
use scim_server.Response.Attributes.Sets.{touches, no_dot}
use scim_server.Response.Attributes.Laws.{get-hidden, only}

-- Below `p` there is nothing that brings `k`, unless `p` does.
touches-dotted :
    (k p name : Text)
    → all no_dot k ≡ true
    → touches k p ≡ false
    → touches k (dotted p name) ≡ false
unfolding touches starts_with
touches-dotted [] [] name nd h = cc
touches-dotted [] (c ∷ p) name nd h = ground arith
touches-dotted (d ∷ k) [] name nd h = ground arith
touches-dotted (d ∷ k) (c ∷ p) name nd h = ground (arith, touches-dotted k p name)

module _ (k : Text) (nd : all no_dot k ≡ true) where
  add_sub_attributes_recursive-touches :
      (p : Text) (subs : Attributes) (set : List Text)
      → touches k p ≡ false
      → any (touches k) set ≡ false
      → any (touches k) (add_sub_attributes_recursive p subs set) ≡ false
  unfolding add_sub_attributes_recursive
  add_sub_attributes_recursive-touches p no_attributes set h i = i
  add_sub_attributes_recursive-touches p
        (attribute (attribute_definition name _ _ _ _ _ _ _ _ subs) rest) set h i =
      let below = touches-dotted k p name nd h in
      add_sub_attributes_recursive-touches p rest _ h (
        add_sub_attributes_recursive-touches (dotted p name) subs (dotted p name ∷ set) below
          (ground arith))

  add_requested-touches :
      (schema : SchemaDefinition) (a : Text) (set : List Text)
      → touches k a ≡ false
      → any (touches k) set ≡ false
      → any (touches k) (add_requested schema a set) ≡ false
  unfolding add_requested add_sub_attributes
  add_requested-touches schema a set h i = elim (Option-cases (find_attribute schema a)) [
    | inl e ↦ rw (e, add_requested) (rw (e, add_sub_attributes) (ground arith))
    | inr (d, e) ↦
        rw (e, add_requested)
          (rw (e, add_sub_attributes)
            (ground
              (arith, add_sub_attributes_recursive-touches a (sub_attributes_of d) (a ∷ set))))
  ]

  add_all_requested-touches :
      (schema : SchemaDefinition) (attrs set : List Text)
      → any (touches k) attrs ≡ false
      → any (touches k) set ≡ false
      → any (touches k) (add_all_requested schema attrs set) ≡ false
  unfolding add_all_requested
  add_all_requested-touches schema [] set h i = i
  add_all_requested-touches schema (a ∷ attrs) set h i = ground (
    arith,
    add_requested-touches schema a set,
    add_all_requested-touches schema attrs (add_requested schema a set),
  )

  -- An attribute that the schema returns so, or one that reads like a path below it.
  unfoldable pub declares_touching : (Returned → Bool) → Attributes → Bool
  declares_touching p no_attributes = false
  declares_touching p (attribute (attribute_definition name _ _ _ _ _ _ returned _ _) rest) =
      p returned && touches k name || declares_touching p rest

  add_returned-touches :
      (p : Returned → Bool) (attrs : Attributes) (set : List Text)
      → declares_touching p attrs ≡ false
      → any (touches k) set ≡ false
      → any (touches k) (add_returned p attrs set) ≡ false
  unfolding add_returned declares_touching
  add_returned-touches p no_attributes set h i = i
  add_returned-touches p (attribute (attribute_definition name _ _ _ _ _ _ returned _ subs) rest)
        set h i =
      let added = add_sub_attributes_recursive name subs (name ∷ set) in
      ground (
        arith,
        add_sub_attributes_recursive-touches name subs (name ∷ set),
        add_returned-touches p rest added,
        add_returned-touches p rest set,
      )

  -- A request with `attributes` is not answered with an attribute `k` (a name without a dot) if none
  -- of the names is `k` or a path below it and the schema has none such that it always returns.
  pub apply_to_resource-unrequested :
      (t : ResourceType) (attrs : List Text) (excluded : Option (List Text)) (m : Fields)
      → any (touches k) attrs ≡ false
      → declares_touching is_always (schema_for t).attributes ≡ false
      → get_key k (apply_to_resource (only attrs excluded) (object m) t) ≡ none
  unfolding apply_to_resource get_included_attributes_from_list
  apply_to_resource-unrequested t attrs excluded m h d = get-hidden k _ m (
      add_returned-touches is_always (schema_for t).attributes
        (add_all_requested (schema_for t) attrs []) d
        (add_all_requested-touches (schema_for t) attrs [] h refl))
