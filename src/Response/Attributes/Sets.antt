-- ===== src/Response/Attributes/Sets.antt =====
-- What the sets of included attributes have: what is put in stays, what is excluded goes.
use scim_server.Common.{
  ◌≡◌, refl, ◌∙◌, sym, Bool, true, false, not, ◌&&◌, ◌||◌, some, List, [], ◌∷◌, ◌++◌, arith, keep,
  any, Option-cases, inl, inr, all, any-keep, any-keep-not, nat_eq, ℕ,
}
use scim_server.Text.{Text, ◌==◌, starts_with}
use scim_server.Text.Laws.{eq_iff}
use scim_server.Schema.Definitions.{
  AttributeDefinition, attribute_definition, Attributes, no_attributes, attribute, SchemaDefinition,
  Returned, returned_of, sub_attributes_of, find_attribute,
}
use scim_server.Response.Attributes.{
  has, dot, dotted, is_always, is_shown, add_sub_attributes_recursive, add_sub_attributes,
  add_requested, add_all_requested, add_returned, remove_sub_attributes, exclude, exclude_all,
  should_include_attribute,
}

-- An element that brings the attribute into the response: its name, or a path below it.
unfoldable pub touches : Text → Text → Bool
touches k t = t == k || starts_with t (dot k)

module _ {ℓ} {A : Type ℓ} where
  any_or : (p q : A → Bool) (xs : List A) → any p xs || any q xs ≡ any (λ x. p x || q x) xs
  any_or p q [] = refl
  any_or p q (x ∷ xs) = ground (arith, any_or p q xs)

pub should_include_attribute_lem :
    (k : Text) (set : List Text) → should_include_attribute k set ≡ any (touches k) set
unfolding should_include_attribute touches
should_include_attribute_lem k set = any_or _ _ set

pub has-keep :
    (k : Text) (q : Text → Bool) (set : List Text)
    → has k set ≡ true
    → q k ≡ true
    → has k (keep q set) ≡ true
has-keep k q [] h i = h
has-keep k q (t ∷ set) h i = ground (arith, eq_iff t k, has-keep k q set)

abbrev pub no_dot : ℕ → Bool
no_dot c = not (nat_eq c b'.')

-- A name without a dot is below nothing.
pub starts_with-no_dot :
    (a e rest : Text) → all no_dot a ≡ true → starts_with a (e ++ b'.' ∷ rest) ≡ false
unfolding starts_with
starts_with-no_dot [] [] rest h = refl
starts_with-no_dot [] (c ∷ e) rest h = refl
starts_with-no_dot (d ∷ a) [] rest h = ground arith
starts_with-no_dot (d ∷ a) (c ∷ e) rest h = ground (arith, starts_with-no_dot a e rest)

pub exclude-any :
    (schema : SchemaDefinition) (p : Text → Bool) (e : Text) (set : List Text)
    → any p set ≡ false
    → any p (exclude schema e set) ≡ false
unfolding exclude remove_sub_attributes
exclude-any schema p e set h = ground (
  arith,
  any-keep p (λ t. not (t == e)) set,
  any-keep p (λ t. not (starts_with t (dot e))) (keep (λ t. not (t == e)) set),
)

pub exclude_all-any :
    (schema : SchemaDefinition) (p : Text → Bool) (es set : List Text)
    → any p set ≡ false
    → any p (exclude_all schema es set) ≡ false
unfolding exclude_all
exclude_all-any schema p [] set h = h
exclude_all-any schema p (e ∷ es) set h =
    exclude_all-any schema p es (exclude schema e set) (exclude-any schema p e set h)

module _ (schema : SchemaDefinition) (a : Text) (d : AttributeDefinition) where
  exclude-touches :
      (set : List Text)
      → find_attribute schema a ≡ some d
      → is_always (returned_of d) ≡ false
      → any (touches a) (exclude schema a set) ≡ false
  unfolding touches exclude
  exclude-touches set f n =
      let named = keep (λ t. not (t == a)) set in
      let below = λ (t : Text). starts_with t (dot a) in
      rw (f, exclude)
        (rw (n, remove_sub_attributes)
          (sym (any_or (λ t. t == a) below (keep (λ t. not (below t)) named))
            ∙ ground (
              arith,
              any-keep-not below named,
              any-keep (λ t. t == a) (λ t. not (below t)) named (any-keep-not (λ t. t == a) set),
            )))

  -- An excluded attribute of the schema leaves neither its name nor a path below it.
  pub exclude_all-touches :
      (es set : List Text)
      → find_attribute schema a ≡ some d
      → is_always (returned_of d) ≡ false
      → has a es ≡ true
      → any (touches a) (exclude_all schema es set) ≡ false
  unfolding exclude_all
  exclude_all-touches [] set f n h = cc
  exclude_all-touches (e ∷ es) set f n h = ground (
    arith,
    eq_iff e a,
    exclude_all-any schema (touches a) es (exclude schema e set),
    exclude-touches set,
    exclude_all-touches es (exclude schema e set),
  )

  exclude-has :
      (e : Text) (set : List Text)
      → find_attribute schema a ≡ some d
      → is_always (returned_of d) ≡ true
      → all no_dot a ≡ true
      → has a set ≡ true
      → has a (exclude schema e set) ≡ true
  unfolding exclude remove_sub_attributes
  exclude-has e set f n nd h = ground (
    arith,
    eq_iff a e,
    starts_with-no_dot a e [],
    has-keep a (λ t. not (t == e)) set,
    has-keep a (λ t. not (starts_with t (dot e))) (keep (λ t. not (t == e)) set),
  )

  -- An attribute that is always returned is not excluded.
  pub exclude_all-has :
      (es set : List Text)
      → find_attribute schema a ≡ some d
      → is_always (returned_of d) ≡ true
      → all no_dot a ≡ true
      → has a set ≡ true
      → has a (exclude_all schema es set) ≡ true
  unfolding exclude_all
  exclude_all-has [] set f n nd h = h
  exclude_all-has (e ∷ es) set f n nd h =
      exclude_all-has es (exclude schema e set) f n nd (exclude-has e set f n nd h)

pub add_sub_attributes_recursive-has :
    (k parent : Text) (subs : Attributes) (set : List Text)
    → has k set ≡ true
    → has k (add_sub_attributes_recursive parent subs set) ≡ true
unfolding add_sub_attributes_recursive
add_sub_attributes_recursive-has k parent no_attributes set h = h
add_sub_attributes_recursive-has k parent
      (attribute (attribute_definition name _ _ _ _ _ _ _ _ subs) rest) set h =
    add_sub_attributes_recursive-has k parent rest _ (
      add_sub_attributes_recursive-has k (dotted parent name) subs (dotted parent name ∷ set)
        (ground arith))

pub add_returned-has :
    (k : Text) (p : Returned → Bool) (attrs : Attributes) (set : List Text)
    → has k set ≡ true
    → has k (add_returned p attrs set) ≡ true
unfolding add_returned
add_returned-has k p no_attributes set h = h
add_returned-has k p (attribute (attribute_definition name _ _ _ _ _ _ returned _ subs) rest) set
      h =
    let added = add_sub_attributes_recursive name subs (name ∷ set) in
    ground (
      arith,
      add_sub_attributes_recursive-has k name subs (name ∷ set),
      add_returned-has k p rest added,
      add_returned-has k p rest set,
    )

add_sub_attributes-has :
    (k attr : Text) (schema : SchemaDefinition) (set : List Text)
    → has k set ≡ true
    → has k (add_sub_attributes attr schema set) ≡ true
unfolding add_sub_attributes
add_sub_attributes-has k attr schema set h = elim (Option-cases (find_attribute schema attr)) [
  | inl e ↦ rw (e, add_sub_attributes) h
  | inr (d, e) ↦
      rw (e, add_sub_attributes)
        (add_sub_attributes_recursive-has k attr (sub_attributes_of d) set h)
]

add_requested-has :
    (k attr : Text) (schema : SchemaDefinition) (set : List Text)
    → has k (attr ∷ set) ≡ true
    → has k (add_requested schema attr set) ≡ true
unfolding add_requested
add_requested-has k attr schema set h =
    ground (arith, add_sub_attributes-has k attr schema (attr ∷ set))

-- All requested attributes are put in.
pub add_all_requested-has :
    (k : Text) (schema : SchemaDefinition) (attrs set : List Text)
    → has k attrs || has k set ≡ true
    → has k (add_all_requested schema attrs set) ≡ true
unfolding add_all_requested
add_all_requested-has k schema [] set h = h
add_all_requested-has k schema (attr ∷ attrs) set h = ground (
  arith,
  add_requested-has k attr schema set,
  add_all_requested-has k schema attrs (add_requested schema attr set),
)

-- The schema has an attribute of that name that is returned so.
unfoldable pub declares : (Returned → Bool) → Text → Attributes → Bool
declares p k no_attributes = false
declares p k (attribute (attribute_definition name _ _ _ _ _ _ returned _ _) rest) =
    name == k && p returned || declares p k rest

pub add_returned-declares :
    (k : Text) (p : Returned → Bool) (attrs : Attributes) (set : List Text)
    → declares p k attrs ≡ true
    → has k (add_returned p attrs set) ≡ true
unfolding add_returned declares
add_returned-declares k p no_attributes set h = cc
add_returned-declares k p (attribute (attribute_definition name _ _ _ _ _ _ returned _ subs) rest)
      set h =
    let added = add_sub_attributes_recursive name subs (name ∷ set) in
    ground (
      arith,
      add_sub_attributes_recursive-has k name subs (name ∷ set),
      add_returned-has k p rest added,
      add_returned-declares k p rest added,
      add_returned-declares k p rest set,
    )

pub declares-shown :
    (k : Text) (attrs : Attributes)
    → declares is_always k attrs ≡ true
    → declares is_shown k attrs ≡ true
unfolding declares
declares-shown k no_attributes h = h
declares-shown k (attribute (attribute_definition name _ _ _ _ _ _ returned _ _) rest) h =
    ground (arith, declares-shown k rest)
