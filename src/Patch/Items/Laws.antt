-- ===== src/Patch/Items/Laws.antt =====
-- The selective removal is one filter, by `value` where all have one.
use scim_server.Common.{
  ◌≡◌, refl, ap, ◌∙◌, sym, Bool, true, false, not, Option, none, some, List, [], ◌∷◌, map, arith,
  keep, keep-keep, keep_same, keep_all, any, all, Option-cases, inl, inr, if◌then◌else◌,
}
use scim_server.Text.{Text, ◌==◌, codes}
use scim_server.Json.{Value}
use scim_server.Patch.Items.{get_str, items_match, remove_items_from_array}

-- An element goes if it matches one of the items.
abbrev pub matches_some : List Value → Value → Bool
matches_some rs v = any (items_match v) rs

-- The loop of `retain` calls keeps, in their order, the elements that match none of the items.
pub remove_items_from_array_lem :
    (rs vs : List Value) → remove_items_from_array vs rs ≡ keep (λ v. not (matches_some rs v)) vs
unfolding remove_items_from_array
remove_items_from_array_lem [] vs = sym (keep_all vs)
remove_items_from_array_lem (r ∷ rs) vs =
    remove_items_from_array_lem rs (keep (λ v. not (items_match v r)) vs)
    ∙ keep-keep (λ v. not (matches_some rs v)) (λ v. not (items_match v r)) vs
    ∙ keep_same _ _ (λ v. ground arith) vs

abbrev is_among : List Text → Option Text → Bool
is_among values none = false
is_among values (some s) = any (λ t. s == t) values

-- The element has one of the texts as its `value`.
abbrev pub has_value_in : List Text → Value → Bool
has_value_in values v = is_among values (get_str (codes "value") v)

items_match-value :
    (v r : Value) (s t : Text)
    → get_str (codes "value") v ≡ some s
    → get_str (codes "value") r ≡ some t
    → items_match v r ≡ (s == t)
unfolding items_match
items_match-value v r s t h k = rw (h, k, items_match) refl

matches_some-value :
    (rs : List Value) (values : List Text) (v : Value) (s : Text)
    → map (get_str (codes "value")) rs ≡ map some values
    → get_str (codes "value") v ≡ some s
    → matches_some rs v ≡ any (λ t. s == t) values
matches_some-value [] [] v s e h = refl
matches_some-value [] (t ∷ values) v s e h = cc
matches_some-value (r ∷ rs) [] v s e h = cc
matches_some-value (r ∷ rs) (t ∷ values) v s e h =
    let here : get_str (codes "value") r ≡ some t = cc in
    let there : map (get_str (codes "value")) rs ≡ map some values = cc in
    let rest = matches_some-value rs values v s there h in
    let match = items_match-value v r s t h here in rw (match, rest) refl

has_value_in-some :
    (values : List Text) (v : Value) (s : Text)
    → get_str (codes "value") v ≡ some s
    → has_value_in values v ≡ any (λ t. s == t) values
has_value_in-some values v s n = ap (is_among values) n

abbrev pub has_value : Value → Bool
has_value v = elim (get_str (codes "value") v) [ none ↦ false | some s ↦ true ]

not-matches_some-value :
    (rs : List Value) (values : List Text) (v : Value)
    → map (get_str (codes "value")) rs ≡ map some values
    → has_value v ≡ true
    → not (matches_some rs v) ≡ not (has_value_in values v)
not-matches_some-value rs values v e h = elim (Option-cases (get_str (codes "value") v)) [
  | inl n ↦ absurd (ground (arith, n))
  | inr (s, n) ↦
      ap not (matches_some-value rs values v s e n ∙ sym (has_value_in-some values v s n))
]

keep-not-value :
    (rs vs : List Value) (values : List Text)
    → map (get_str (codes "value")) rs ≡ map some values
    → all has_value vs ≡ true
    → keep (λ v. not (matches_some rs v)) vs ≡ keep (λ v. not (has_value_in values v)) vs
keep-not-value rs [] values e h = refl
keep-not-value rs (v ∷ vs) values e h =
    let same = not-matches_some-value rs values v e (ground (arith, h)) in
    let rest = keep-not-value rs vs values e (ground (arith, h)) in
    ap
      (λ b.
        if b
        then v ∷ keep (λ v. not (matches_some rs v)) vs
        else keep (λ v. not (matches_some rs v)) vs)
      same
    ∙ ap (λ ys. if not (has_value_in values v) then v ∷ ys else ys) rest

-- Where the items to remove have the texts `values` as their `value`, and each element of the array
-- has a text there, the elements that go are those whose value is among them, whatever else the items
-- and the elements hold; the others stay in their order.
pub remove_items_from_array-values :
    (rs vs : List Value) (values : List Text)
    → map (get_str (codes "value")) rs ≡ map some values
    → all has_value vs ≡ true
    → remove_items_from_array vs rs ≡ keep (λ v. not (has_value_in values v)) vs
remove_items_from_array-values rs vs values e h =
    remove_items_from_array_lem rs vs ∙ keep-not-value rs vs values e h
