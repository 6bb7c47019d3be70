-- ===== src/Filter/Eval/Holds.antt =====
-- What a filter means, and that `evaluate_filter` decides it.
use scim_server.Common.{
  Ordering, ◌≡◌, ◌≢◌, refl, ◌↔◌, ◌⊎◌, inl, inr, Bool, true, false, not, none, some, Option-cases,
  subst, sym, some_inj, and_iff, or_iff, not_iff, is_gt_iff, is_lt_iff, is_ge_iff, is_le_iff,
}
use scim_server.Text
use scim_server.Text.{Text}
use scim_server.Text.Patterns.{
  StartsWith, EndsWith, Contains, starts_with_iff, ends_with_iff, contains_iff,
}
use scim_server.Json.{Value, Fields, string, get, contains_key, value_eq}
use scim_server.Json.Equality.{value_eq_iff}
use scim_server.Json.Laws.{contains_key-get}
use scim_server.Filter.{
  FilterOperator, equal, not_equal, contains, starts_with, ends_with, greater_than,
  greater_than_or_equal, less_than, less_than_or_equal, present, conj, disj, neg, complex,
}
use scim_server.Filter.Eval.{NumberCmp, compare_values, on_strings, evaluate_filter}

-- The object has the attribute, with a value of which `P` holds.
abbrev pub With : (Value → Type 0) → Fields → Text → Type 0
With P item attr = (v : Value) × (get attr item ≡ some v) × P v

-- Both are texts, related by `R`.
abbrev pub Strings : (Text → Text → Type 0) → Value → Value → Type 0
Strings R (string a) (string e) = R a e
Strings R _ _ = ⊥

module _ (num : NumberCmp) where
  abbrev pub Holds : Fields → FilterOperator → Type 0
  Holds item (equal attr val) = With (λ v. v ≡ val) item attr
  Holds item (not_equal attr val) = With (λ v. v ≢ val) item attr
  Holds item (contains attr val) = With (λ v. Strings Contains v val) item attr
  Holds item (starts_with attr val) = With (λ v. Strings StartsWith v val) item attr
  Holds item (ends_with attr val) = With (λ v. Strings EndsWith v val) item attr
  Holds item (greater_than attr val) = With (λ v. compare_values num v val ≡ Ordering.gt) item attr
  Holds item (greater_than_or_equal attr val) =
      With (λ v. compare_values num v val ≢ Ordering.lt) item attr
  Holds item (less_than attr val) = With (λ v. compare_values num v val ≡ Ordering.lt) item attr
  Holds item (less_than_or_equal attr val) =
      With (λ v. compare_values num v val ≢ Ordering.gt) item attr
  Holds item (present attr) = With (λ v. Unit {0}) item attr
  Holds item (conj left right) = Holds item left × Holds item right
  Holds item (disj left right) = Holds item left ⊎ Holds item right
  Holds item (neg inner) = ¬ Holds item inner
  Holds item (complex attr inner) = Holds item inner

  -- A test that finds the attribute first decides `With`.
  With-iff :
      (test : Value → Bool) (P : Value → Type 0)
      → ((v : Value) → (test v ≡ true) ↔ P v)
      → (item : Fields) (attr : Text)
      → (elim (get attr item) [ none ↦ false | some v ↦ test v ] ≡ true) ↔ With P item attr
  With-iff test P decides item attr = elim (Option-cases (get attr item)) [
    | inl e ↦ rw e ((λ h. cc), λ (v, f, p). cc)
    | inr (w, e) ↦ rw e (
      (λ h. (w, refl, (decides w).0 h)),
      λ (v, f, p). (decides w).1 (subst P (some_inj.0 (sym f)) p),
    )
  ]

  Strings-iff :
      (p : Text → Text → Bool) (R : Text → Text → Type 0)
      → ((s t : Text) → (p s t ≡ true) ↔ R s t)
      → (v w : Value) → (on_strings num p v w ≡ true) ↔ Strings R v w
  Strings-iff p R decides (string a) (string e) = decides a e
  Strings-iff p R decides v w = ((λ h. cc), λ h. absurd h)

  present_iff :
      (item : Fields) (attr : Text)
      → (contains_key attr item ≡ true) ↔ With (λ v. Unit {0}) item attr
  present_iff item attr = elim (Option-cases (get attr item)) [
    | inl e ↦ rw (contains_key-get attr item, e) ((λ h. cc), λ (v, f, u). cc)
    | inr (w, e) ↦ rw (contains_key-get attr item, e) ((λ h. (w, refl, tt)), λ h. refl)
  ]

  -- `evaluate_filter` answers `true` exactly for the objects that the filter holds of.
  pub evaluate_filter_iff :
      (item : Fields) (f : FilterOperator) → (evaluate_filter num item f ≡ true) ↔ Holds item f
  unfolding evaluate_filter
  evaluate_filter_iff item (equal attr val) =
      With-iff (λ v. value_eq v val) _ (λ v. value_eq_iff v val) item attr
  evaluate_filter_iff item (not_equal attr val) =
      With-iff (λ v. not (value_eq v val)) _ (λ v. not_iff (value_eq v val) (value_eq_iff v val))
        item attr
  evaluate_filter_iff item (contains attr val) =
      With-iff (λ v. on_strings num Text.contains v val) _ (λ v. Strings-iff _ _ contains_iff v val)
        item attr
  evaluate_filter_iff item (starts_with attr val) =
      With-iff _ _ (λ v. Strings-iff _ _ starts_with_iff v val) item attr
  evaluate_filter_iff item (ends_with attr val) =
      With-iff _ _ (λ v. Strings-iff _ _ ends_with_iff v val) item attr
  evaluate_filter_iff item (greater_than attr val) =
      With-iff _ _ (λ v. is_gt_iff (compare_values num v val)) item attr
  evaluate_filter_iff item (greater_than_or_equal attr val) =
      With-iff _ _ (λ v. is_ge_iff (compare_values num v val)) item attr
  evaluate_filter_iff item (less_than attr val) =
      With-iff _ _ (λ v. is_lt_iff (compare_values num v val)) item attr
  evaluate_filter_iff item (less_than_or_equal attr val) =
      With-iff _ _ (λ v. is_le_iff (compare_values num v val)) item attr
  evaluate_filter_iff item (present attr) = present_iff item attr
  evaluate_filter_iff item (conj left right) =
      and_iff _ _ (evaluate_filter_iff item left) (evaluate_filter_iff item right)
  evaluate_filter_iff item (disj left right) =
      or_iff _ _ (evaluate_filter_iff item left) (evaluate_filter_iff item right)
  evaluate_filter_iff item (neg inner) = not_iff _ (evaluate_filter_iff item inner)
  evaluate_filter_iff item (complex attr inner) = evaluate_filter_iff item inner
