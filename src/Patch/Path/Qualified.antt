-- ===== src/Patch/Path/Qualified.antt =====
-- The last part of a path that begins with a schema's URN is no schema-qualified name.
use scim_server.Common.{
  ℕ, zero, suc, ◌+◌, ◌≡◌, refl, ◌≢◌, Bool, true, false, not, none, some, List, [], ◌∷◌, arith, all,
  drop, if◌then◌else◌, Option-cases, inl, inr, nat_eq,
}
use native.Mathlib.Numerals.{add-one}
use scim_server.Config.{CompatibilityConfig}
use scim_server.Json.{Value}
use scim_server.Text.{Text, rfind, split, starts_with, prepend}
use scim_server.Error.{AppResult, ok, err, panicked, out_of_fuel, ◌>>=◌}
use scim_server.Patch.{attr_path}
use scim_server.Patch.Attribute.{
  urn_prefix, last_of, needs_schema_update, apply_attr_path_operation, navigate_and_apply,
  update_schemas_attribute,
}
use scim_server.Patch.Path.{parse_attr_path, parse_qualified}

abbrev no_colon : ℕ → Bool
no_colon c = not (nat_eq c b':')

rfind-none : (s : Text) → rfind b':' s ≡ none → all no_colon s ≡ true
unfolding rfind
rfind-none [] h = refl
rfind-none (c ∷ s) h = ground (arith, rfind-none s)

-- Behind the last colon there is none.
no_colon-after_last :
    (s : Text) (i : ℕ) → rfind b':' s ≡ some i → all no_colon (drop (suc i) s) ≡ true
unfolding rfind
no_colon-after_last [] i h = cc
no_colon-after_last (c ∷ s) zero h = ground (arith, rfind-none s)
no_colon-after_last (c ∷ s) (suc i) h = ground (arith, no_colon-after_last s i)

all-prepend :
    (c : ℕ) (ws : List Text)
    → no_colon c ≡ true
    → all (all no_colon) ws ≡ true
    → all (all no_colon) (prepend c ws) ≡ true
unfolding prepend
all-prepend c [] h k = ground arith
all-prepend c (w ∷ ws) h k = ground arith

all-split : (s : Text) → all no_colon s ≡ true → all (all no_colon) (split b'.' s) ≡ true
unfolding split
all-split [] h = refl
all-split (c ∷ s) h = ground (arith, all-split s, all-prepend c (split b'.' s))

all-last_of :
    (k : Text) (ks : List Text)
    → all no_colon k ≡ true
    → all (all no_colon) ks ≡ true
    → all no_colon (last_of k ks) ≡ true
all-last_of k [] h hs = h
all-last_of k (j ∷ ks) h hs = all-last_of j ks (ground arith) (ground arith)

prepend-ne-nil : (c : ℕ) (ws : List Text) → prepend c ws ≢ []
unfolding prepend
prepend-ne-nil c [] = λ x. cc
prepend-ne-nil c (w ∷ ws) = λ x. cc

split-ne-nil : (s : Text) → split b'.' s ≢ []
unfolding split
split-ne-nil [] = λ x. cc
split-ne-nil (c ∷ s) = ground (arith, prepend-ne-nil c (split b'.' s))

-- The last of the parts is one of those that a cut gives.
last_of-split :
    (k s : Text) → all no_colon s ≡ true → all no_colon (last_of k (split b'.' s)) ≡ true
last_of-split k s h = parts (split b'.' s) (all-split s h) (split-ne-nil s)
  where
    parts :
        (ws : List Text)
        → all (all no_colon) ws ≡ true
        → ws ≢ []
        → all no_colon (last_of k ws) ≡ true
    parts [] hs ne = absurd (ne refl)
    parts (w ∷ ws) hs ne = all-last_of w ws (ground arith) (ground arith)

starts_with-no_colon : (s : Text) → all no_colon s ≡ true → starts_with s urn_prefix ≡ false
unfolding starts_with
starts_with-no_colon (a ∷ b ∷ c ∷ d ∷ s) h = ground arith
starts_with-no_colon [] h = refl
starts_with-no_colon (a ∷ []) h = ground arith
starts_with-no_colon (a ∷ b ∷ []) h = ground arith
starts_with-no_colon (a ∷ b ∷ c ∷ []) h = ground arith

parse_qualified-last :
    (path : Text) (i : ℕ) (k : Text) (ks : List Text)
    → rfind b':' path ≡ some i
    → parse_qualified path i ≡ ok (attr_path (k ∷ ks))
    → all no_colon (last_of k ks) ≡ true
unfolding parse_qualified
parse_qualified-last path i k ks e h =
    let attr = drop (i + 1) path in
    let plain : all no_colon attr ≡ true = rw add-one (no_colon-after_last path i e) in
    let same : ks ≡ split b'.' attr = ground arith in rw same (last_of-split k attr plain)

no_update :
    (key op : Text)
    → starts_with key urn_prefix ≡ false
    → (r : AppResult Value)
    → (r >>= (λ json.
        ok (if needs_schema_update key op then update_schemas_attribute json key else json)))
      ≡ r
no_update key op h (ok json) = ground arith
no_update key op h (err e) = refl
no_update key op h panicked = refl
no_update key op h out_of_fuel = refl

-- A path that begins with a schema's URN and parses does not end in a name with that prefix, so that
-- an operation on it is navigation alone: it never adds the URN to `schemas`.
pub parse_attr_path-no_schema_update :
    (path k : Text) (ks : List Text)
    → starts_with path urn_prefix ≡ true
    → parse_attr_path path ≡ ok (attr_path (k ∷ ks))
    → (config : CompatibilityConfig) (json : Value) (op : Text) (v : Value)
    → apply_attr_path_operation config json (k ∷ ks) op v
      ≡ navigate_and_apply config json (k ∷ ks) op v
unfolding apply_attr_path_operation parse_attr_path
parse_attr_path-no_schema_update path k ks p h config json op v =
    elim (Option-cases (rfind b':' path)) [
      | inl e ↦ cc (starts_with-no_colon path (rfind-none path e))
      | inr (i, e) ↦
          let last = parse_qualified-last path i k ks e (rw (p, e, parse_attr_path) at h) in
          no_update (last_of k ks) op (starts_with-no_colon (last_of k ks) last)
            (navigate_and_apply config json (k ∷ ks) op v)
    ]
