-- ===== src/Filter/Parser/Ascii.antt =====
-- On ASCII text without brackets the parser returns: it neither panics nor runs on.
use scim_server.Common.{
  ℕ, zero, suc, ◌+◌, ◌-◌, ◌<◌, ◌≡◌, refl, Bool, true, ◌&&◌, not, all, nat_eq, Option, none, [], ◌∷◌,
  arith, length, take, drop, Option-cases, Bool-cases, inl, inr, length-take, length-drop,
}
use scim_server.Text.{Text, codes, trim, find}
use scim_server.Text.Laws.{length-trim-le}
use scim_server.Text.Chars.{all-take, all-drop, all-trim, is_ascii, split_at_byte-ascii}
use scim_server.Json.{Number}
use scim_server.Error.{AppResult, Returns, Returns-bind}
use scim_server.Filter.{FilterOperator, conj, disj}
use scim_server.Filter.Scan.{find_keyword, scan_init}
use scim_server.Filter.Scan.Laws.{find_keyword-lt-length}
use scim_server.Filter.Parser.{
  is_not, is_parenthesised, inside, parse_condition, parse_sides, parse_logical, parse_trimmed,
  parse_filter,
}
use scim_server.Filter.Parser.Shorter.{length-inside-lt, length-drop_not-lt}
use scim_server.Filter.Parser.Simple.{parse_simple_filter-Returns}

-- An ASCII character other than the opening bracket.
abbrev pub is_plain : ℕ → Bool
is_plain c = is_ascii c && not (nat_eq c b'[')

all_plain-ascii : (s : Text) → all is_plain s ≡ true → all is_ascii s ≡ true
all_plain-ascii [] h = refl
all_plain-ascii (c ∷ s) h = ground (arith, all_plain-ascii s)

find-plain : (s : Text) → all is_plain s ≡ true → find b'[' s ≡ none
unfolding find
find-plain [] h = refl
find-plain (c ∷ s) h = ground (arith, find-plain s)

module _ (parse_f64 : Text → Option Number) where
  abbrev PlainBelow : (Text → AppResult FilterOperator) → ℕ → Type 0
  PlainBelow p n = (t : Text) → length t < n → all is_plain t ≡ true → Returns (p t)

  parse_condition-plain : (s : Text) → all is_plain s ≡ true → Returns (parse_condition parse_f64 s)
  unfolding parse_condition
  parse_condition-plain s h =
      rw (find-plain s h, parse_condition) (parse_simple_filter-Returns parse_f64 s)

  parse_sides-plain :
      (p : Text → AppResult FilterOperator)
      (build : FilterOperator → FilterOperator → FilterOperator) (i n : ℕ) (s : Text)
      → PlainBelow p (length s)
      → all is_plain s ≡ true
      → i + n < length s
      → 0 < n
      → Returns (parse_sides parse_f64 p build i n s)
  unfolding parse_sides
  parse_sides-plain p build i n s h plain bound pos =
      let ascii = all_plain-ascii s plain in
      rw
        (
          split_at_byte-ascii i s ascii (omega arith),
          split_at_byte-ascii (i + n) s ascii (omega arith),
          parse_sides,
        )
        (Returns-bind (p (trim (take i s))) _
          (h (trim (take i s)) (omega (arith, length-trim-le (take i s), length-take {0} i s))
            (all-trim is_plain (take i s) (all-take is_plain i s plain)))
          (λ l.
            Returns-bind (p (trim (drop (i + n) s))) _
              (h (trim (drop (i + n) s))
                (omega (arith, length-trim-le (drop (i + n) s), length-drop {0} (i + n) s))
                (all-trim is_plain (drop (i + n) s) (all-drop is_plain (i + n) s plain)))
              (λ r. tt)))

  parse_logical-plain :
      (p : Text → AppResult FilterOperator) (s : Text)
      → PlainBelow p (length s)
      → all is_plain s ≡ true
      → Returns (parse_logical parse_f64 p s)
  unfolding parse_logical
  parse_logical-plain p s h plain = elim (Option-cases (find_keyword (codes " or ") scan_init s)) [
    | inr (i, e) ↦
        rw (e, parse_logical)
          (parse_sides-plain p disj i 4 s h plain
            (find_keyword-lt-length (codes " or ") scan_init s i e) (omega arith))
    | inl e ↦ elim (Option-cases (find_keyword (codes " and ") scan_init s)) [
      | inr (i, f) ↦
          rw (e, f, parse_logical)
            (parse_sides-plain p conj i 5 s h plain
              (find_keyword-lt-length (codes " and ") scan_init s i f) (omega arith))
      | inl f ↦ rw (e, f, parse_logical) (parse_condition-plain s plain)
    ]
  ]

  parse_trimmed-plain :
      (p : Text → AppResult FilterOperator) (s : Text)
      → PlainBelow p (length s)
      → all is_plain s ≡ true
      → Returns (parse_trimmed parse_f64 p s)
  unfolding parse_trimmed
  parse_trimmed-plain p s h plain = elim (Bool-cases (is_parenthesised s)) [
    | inl y ↦
        rw (y, parse_trimmed)
          (h (inside s) (length-inside-lt s y)
            (all-take is_plain (length s - 2) (drop 1 s) (all-drop is_plain 1 s plain)))
    | inr n ↦ elim (Bool-cases (is_not s)) [
      | inl y ↦
          rw (n, y, parse_trimmed)
            (Returns-bind (p (trim (drop 4 s))) _
              (h (trim (drop 4 s)) (length-drop_not-lt s y)
                (all-trim is_plain (drop 4 s) (all-drop is_plain 4 s plain)))
              (λ inner. tt))
      | inr m ↦ rw (n, m, parse_trimmed) (parse_logical-plain p s h plain)
    ]
  ]

  -- With fuel above its length, an ASCII text without an opening bracket parses to a filter or to
  -- an error: no slice panics and the fuel suffices.
  pub parse_filter-Returns :
      (f : ℕ) (s : Text)
      → length s < f
      → all is_plain s ≡ true
      → Returns (parse_filter parse_f64 f s)
  unfolding parse_filter
  parse_filter-Returns zero s h plain = absurd (omega arith)
  parse_filter-Returns (suc f) s h plain =
      parse_trimmed-plain (parse_filter parse_f64 f) (trim s)
        (λ t lt p. parse_filter-Returns f t (omega (arith, length-trim-le s)) p)
        (all-trim is_plain s plain)
