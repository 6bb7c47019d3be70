-- ===== src/Filter/Parser/Ends.antt =====
-- The recursion of `parse_filter` ends: a unit of fuel for each character and one more suffices.
use scim_server.Common.{
  ℕ, zero, suc, ◌+◌, ◌<◌, ◌≢◌, Option, arith, length, drop, Option-cases, inl, inr,
}
use scim_server.Text.{Text, codes, trim, split_at_byte}
use scim_server.Text.Laws.{length-trim-le}
use scim_server.Text.Bytes.{split_at_byte_lem}
use scim_server.Json.{Number}
use scim_server.Error.{AppResult, out_of_fuel, bind-ne-out_of_fuel}
use scim_server.Filter.{FilterOperator, conj, disj}
use scim_server.Filter.Scan.{find_keyword, scan_init}
use scim_server.Filter.Scan.Laws.{find_keyword-lt-length}
use scim_server.Filter.Parser.{inside, parse_sides, parse_logical, parse_trimmed, parse_filter}
use scim_server.Filter.Parser.Shorter.{length-inside-lt, length-drop_not-lt}
use scim_server.Filter.Parser.Simple.{parse_condition-ends}

module _ (parse_f64 : Text → Option Number) where
  abbrev EndsBelow : (Text → AppResult FilterOperator) → ℕ → Type 0
  EndsBelow p n = (t : Text) → length t < n → p t ≢ out_of_fuel

  parse_sides-ends :
      (p : Text → AppResult FilterOperator)
      (build : FilterOperator → FilterOperator → FilterOperator) (i n : ℕ) (s : Text)
      → EndsBelow p (length s)
      → i + n < length s
      → 0 < n
      → parse_sides parse_f64 p build i n s ≢ out_of_fuel
  unfolding parse_sides
  parse_sides-ends p build i n s h bound pos = elim (Option-cases (split_at_byte i s)) [
    | inl e ↦ rw (e, parse_sides) (λ x. cc)
    | inr ((left, x), e) ↦ elim (Option-cases (split_at_byte (i + n) s)) [
      | inl f ↦ rw (e, f, parse_sides) (λ x. cc)
      | inr ((y, right), f) ↦
          let at_i = split_at_byte_lem i s left x e in
          let at_n = split_at_byte_lem (i + n) s y right f in
          rw (e, f, parse_sides)
            (bind-ne-out_of_fuel (p (trim left)) _
              (h (trim left) (omega (arith, length-trim-le left)))
              (λ l.
                bind-ne-out_of_fuel (p (trim right)) _
                  (h (trim right) (omega (arith, length-trim-le right))) (λ r z. cc)))
    ]
  ]

  parse_logical-ends :
      (p : Text → AppResult FilterOperator) (s : Text)
      → EndsBelow p (length s)
      → parse_logical parse_f64 p s ≢ out_of_fuel
  unfolding parse_logical
  parse_logical-ends p s h = elim (Option-cases (find_keyword (codes " or ") scan_init s)) [
    | inr (i, e) ↦
        rw (e, parse_logical)
          (parse_sides-ends p disj i 4 s h (find_keyword-lt-length (codes " or ") scan_init s i e)
            (omega arith))
    | inl e ↦ elim (Option-cases (find_keyword (codes " and ") scan_init s)) [
      | inr (i, f) ↦
          rw (e, f, parse_logical)
            (parse_sides-ends p conj i 5 s h
              (find_keyword-lt-length (codes " and ") scan_init s i f) (omega arith))
      | inl f ↦ rw (e, f, parse_logical) (parse_condition-ends parse_f64 s)
    ]
  ]

  parse_trimmed-ends :
      (p : Text → AppResult FilterOperator) (s : Text)
      → EndsBelow p (length s)
      → parse_trimmed parse_f64 p s ≢ out_of_fuel
  unfolding parse_trimmed
  parse_trimmed-ends p s h = ground (
    arith,
    length-inside-lt s,
    length-drop_not-lt s,
    h (inside s),
    h (trim (drop 4 s)),
    parse_logical-ends p s h,
  )

  -- The recursion ends within a unit of fuel for each character and one more.
  pub parse_filter-ends :
      (f : ℕ) (s : Text) → length s < f → parse_filter parse_f64 f s ≢ out_of_fuel
  unfolding parse_filter
  parse_filter-ends zero s h = absurd (omega arith)
  parse_filter-ends (suc f) s h =
      parse_trimmed-ends (parse_filter parse_f64 f) (trim s)
        (λ t lt. parse_filter-ends f t (omega (arith, length-trim-le s)))
