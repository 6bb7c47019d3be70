-- ===== src/Filter/Parser/Fuel.antt =====
-- The fuel of `parse_filter` does not show in its result.
use scim_server.Common.{
  ℕ, zero, suc, ◌+◌, ◌<◌, ◌≡◌, Option, arith, length, drop, Option-cases, inl, inr,
}
use scim_server.Text.{Text, codes, trim, split_at_byte}
use scim_server.Text.Laws.{length-trim-le}
use scim_server.Text.Bytes.{split_at_byte_lem}
use scim_server.Json.{Number}
use scim_server.Error.{AppResult}
use scim_server.Filter.{FilterOperator, conj, disj}
use scim_server.Filter.Scan.{find_keyword, scan_init}
use scim_server.Filter.Scan.Laws.{find_keyword-lt-length}
use scim_server.Filter.Parser.{inside, parse_sides, parse_logical, parse_trimmed, parse_filter}
use scim_server.Filter.Parser.Shorter.{length-inside-lt, length-drop_not-lt}

module _ (parse_f64 : Text → Option Number) where
  -- Two recursions that agree on shorter texts give the same result.
  abbrev AgreeBelow :
      (Text → AppResult FilterOperator) → (Text → AppResult FilterOperator) → ℕ → Type 0
  AgreeBelow p q n = (t : Text) → length t < n → p t ≡ q t

  parse_sides-agree :
      (p q : Text → AppResult FilterOperator)
      (build : FilterOperator → FilterOperator → FilterOperator) (i n : ℕ) (s : Text)
      → AgreeBelow p q (length s)
      → i + n < length s
      → 0 < n
      → parse_sides parse_f64 p build i n s ≡ parse_sides parse_f64 q build i n s
  unfolding parse_sides
  parse_sides-agree p q build i n s h bound pos = elim (Option-cases (split_at_byte i s)) [
    | inl e ↦ rw (e, parse_sides)
    | inr ((left, x), e) ↦ elim (Option-cases (split_at_byte (i + n) s)) [
      | inl f ↦ rw (e, f, parse_sides)
      | inr ((y, right), f) ↦
          let at_i = split_at_byte_lem i s left x e in
          let at_n = split_at_byte_lem (i + n) s y right f in
          rw (
            e,
            f,
            parse_sides,
            h (trim left) (omega (arith, length-trim-le left)),
            h (trim right) (omega (arith, length-trim-le right)),
          )
    ]
  ]

  parse_logical-agree :
      (p q : Text → AppResult FilterOperator) (s : Text)
      → AgreeBelow p q (length s)
      → parse_logical parse_f64 p s ≡ parse_logical parse_f64 q s
  unfolding parse_logical
  parse_logical-agree p q s h = elim (Option-cases (find_keyword (codes " or ") scan_init s)) [
    | inr (i, e) ↦
        rw (e, parse_logical)
          (parse_sides-agree p q disj i 4 s h
            (find_keyword-lt-length (codes " or ") scan_init s i e) (omega arith))
    | inl e ↦ elim (Option-cases (find_keyword (codes " and ") scan_init s)) [
      | inr (i, f) ↦
          rw (e, f, parse_logical)
            (parse_sides-agree p q conj i 5 s h
              (find_keyword-lt-length (codes " and ") scan_init s i f) (omega arith))
      | inl f ↦ rw (e, f, parse_logical)
    ]
  ]

  parse_trimmed-agree :
      (p q : Text → AppResult FilterOperator) (s : Text)
      → AgreeBelow p q (length s)
      → parse_trimmed parse_f64 p s ≡ parse_trimmed parse_f64 q s
  unfolding parse_trimmed
  parse_trimmed-agree p q s h = ground (
    arith,
    length-inside-lt s,
    length-drop_not-lt s,
    h (inside s),
    h (trim (drop 4 s)),
    parse_logical-agree p q s h,
  )

  -- Any two amounts of fuel above the length of the text give the same result.
  pub parse_filter-fuel :
      (f g : ℕ) (s : Text)
      → length s < f
      → length s < g
      → parse_filter parse_f64 f s ≡ parse_filter parse_f64 g s
  unfolding parse_filter
  parse_filter-fuel zero g s hf hg = absurd (omega arith)
  parse_filter-fuel (suc f) zero s hf hg = absurd (omega arith)
  parse_filter-fuel (suc f) (suc g) s hf hg =
      parse_trimmed-agree (parse_filter parse_f64 f) (parse_filter parse_f64 g) (trim s) (λ t lt.
        parse_filter-fuel f g t (omega (arith, length-trim-le s)) (omega (arith, length-trim-le s)))
