-- ===== src/Config/Expansion.antt =====
-- What `expand_env_vars` makes of a configuration's text.
use scim_server.Common.{
  none, some, ℕ, zero, suc, ◌≡◌, ◌≤◌, refl, sym, ap, ◌∙◌, Option, [], ◌∷◌, ◌++◌, true, false, not,
  nat_eq, take, drop, length, all, arith, Option-cases, inl, inr, length-drop, length-append,
  take-append, append_assoc,
}
use scim_server.Text.{Text, find}
use scim_server.Auth.Schemes.{find-first, drop-past}
use scim_server.Config.Env.{
  Expanded, expanded, missing, unfinished, split_default, value_or, after, substituted, value_of,
  expand_from, expand_env_vars,
}

after-after : (s t : Text) (e : Expanded) → after s (after t e) ≡ after (s ++ t) e
after-after s t (expanded u) = ap expanded (sym (append_assoc s t u))
after-after s t (missing name) = refl
after-after s t unfinished = refl

after-nil : (e : Expanded) → after [] e ≡ e
after-nil (expanded u) = refl
after-nil (missing name) = refl
after-nil unfinished = refl

-- A text without a colon has no default in it, and what stands behind ":-" is its default.
split_default-name :
    (name : Text) → all (λ c. not (nat_eq c b':')) name ≡ true → split_default name ≡ (name, none)
unfolding split_default
split_default-name [] h = refl
split_default-name (c ∷ []) h = refl
split_default-name (c ∷ d ∷ s) h =
    let rest = split_default-name (d ∷ s) (ground (arith, h)) in
    let here : nat_eq c b':' ≡ false = ground (arith, h) in rw (here, rest) refl

split_default-default :
    (name value : Text)
    → all (λ c. not (nat_eq c b':')) name ≡ true
    → split_default (name ++ b':' ∷ b'-' ∷ value) ≡ (name, some value)
unfolding split_default
split_default-default [] value h = refl
split_default-default (c ∷ []) value h =
    let here : nat_eq c b':' ≡ false = ground (arith, h) in rw here refl
split_default-default (c ∷ d ∷ s) value h =
    let rest = split_default-default (d ∷ s) value (ground (arith, h)) in
    let here : nat_eq c b':' ≡ false = ground (arith, h) in rw (here, rest) refl

value_or-none :
    (name : Text) (o : Option Text)
    → value_or name o none ≡ elim o [ none ↦ missing name | some v ↦ expanded v ]
value_or-none name none = refl
value_or-none name (some v) = refl

value_or-some :
    (name : Text) (o : Option Text) (value : Text)
    → value_or name o (some value) ≡ expanded (elim o [ none ↦ value | some v ↦ v ])
value_or-some name none value = refl
value_or-some name (some v) value = refl

module _ (env : Text → Option Text) where
  pub expand_from-fuel :
      (m n : ℕ) (s : Text) → length s ≤ m → length s ≤ n → expand_from env m s ≡ expand_from env n s
  unfolding expand_from
  expand_from-fuel zero zero s h k = refl
  expand_from-fuel zero (suc n) [] h k = refl
  expand_from-fuel zero (suc n) (c ∷ s) h k = absurd (omega (arith, h))
  expand_from-fuel (suc m) zero [] h k = refl
  expand_from-fuel (suc m) zero (c ∷ s) h k = absurd (omega (arith, k))
  expand_from-fuel (suc m) (suc n) [] h k = refl
  expand_from-fuel (suc m) (suc n) (c ∷ []) h k = refl
  expand_from-fuel (suc m) (suc n) (c ∷ d ∷ s) h k =
      let next = expand_from-fuel m n (d ∷ s) (omega (arith, h)) (omega (arith, k)) in
      elim (Option-cases (find b'}' s)) [
        | inl e ↦ ground (arith, e, next)
        | inr (j, e) ↦
            let rest =
              expand_from-fuel m n (drop (suc j) s) (omega (arith, h, length-drop (suc j) s))
                (omega (arith, k, length-drop (suc j) s)) in
            ground (arith, e, next, rest)
      ]

  expand_env_vars-cons :
      (c d : ℕ) (s : Text)
      → nat_eq c b'$' ≡ false
      → expand_env_vars env (c ∷ d ∷ s) ≡ after (c ∷ []) (expand_env_vars env (d ∷ s))
  unfolding expand_env_vars expand_from
  expand_env_vars-cons c d s h = ground arith

  expand_env_vars-var :
      (expr s : Text)
      → all (λ c. not (nat_eq c b'}')) expr ≡ true
      → expand_env_vars env (b'$' ∷ b'{' ∷ (expr ++ b'}' ∷ s))
        ≡ substituted (value_of env expr) (expand_env_vars env s)
  unfolding expand_env_vars expand_from
  expand_env_vars-var expr s h =
      let rest = expr ++ b'}' ∷ s in
      let taken : take (length expr) rest ≡ expr = take-append expr (b'}' ∷ s) in
      let left : drop (suc (length expr)) rest ≡ s = drop-past b'}' expr s in
      let fuel : expand_from env (suc (length rest)) s ≡ expand_from env (length s) s =
        expand_from-fuel (suc (length rest)) (length s) s
          (omega (arith, length-append expr (b'}' ∷ s))) (omega arith) in
      rw (find-first b'}' expr s h) (
        ap
          (λ e.
            substituted (value_of env e)
              (expand_from env (suc (length rest)) (drop (suc (length expr)) rest)))
          taken
        ∙ ap (substituted (value_of env expr))
            (ap (expand_from env (suc (length rest))) left ∙ fuel))

  -- A text without a dollar sign stands in front of an expanded text as it is.
  after_plain :
      (a s : Text)
      → all (λ c. not (nat_eq c b'$')) a ≡ true
      → expand_env_vars env (a ++ b'$' ∷ s) ≡ after a (expand_env_vars env (b'$' ∷ s))
  after_plain [] s h = sym (after-nil (expand_env_vars env (b'$' ∷ s)))
  after_plain (c ∷ []) s h = expand_env_vars-cons c b'$' s (ground (arith, h))
  after_plain (c ∷ d ∷ a) s h =
      expand_env_vars-cons c d (a ++ b'$' ∷ s) (ground (arith, h))
      ∙ ap (after (c ∷ [])) (after_plain (d ∷ a) s (ground (arith, h)))
      ∙ after-after (c ∷ []) (d ∷ a) (expand_env_vars env (b'$' ∷ s))

  plain : (a : Text) → all (λ c. not (nat_eq c b'$')) a ≡ true → expand_env_vars env a ≡ expanded a
  unfolding expand_env_vars expand_from
  plain [] h = refl
  plain (c ∷ []) h = refl
  plain (c ∷ d ∷ a) h =
      expand_env_vars-cons c d a (ground (arith, h))
      ∙ ap (after (c ∷ [])) (plain (d ∷ a) (ground (arith, h)))

  value_of-name :
      (name : Text)
      → all (λ c. not (nat_eq c b':')) name ≡ true
      → value_of env name ≡ elim (env name) [ none ↦ missing name | some v ↦ expanded v ]
  unfolding value_of
  value_of-name name h =
      ap (λ (p : Text × Option Text). value_or p.0 (env p.0) p.1) (split_default-name name h)
      ∙ value_or-none name (env name)

  value_of-default :
      (name value : Text)
      → all (λ c. not (nat_eq c b':')) name ≡ true
      → value_of env (name ++ b':' ∷ b'-' ∷ value)
        ≡ expanded (elim (env name) [ none ↦ value | some v ↦ v ])
  unfolding value_of
  value_of-default name value h =
      ap (λ (p : Text × Option Text). value_or p.0 (env p.0) p.1)
        (split_default-default name value h)
      ∙ value_or-some name (env name) value

  expand_env_vars-behind :
      (a expr s : Text)
      → all (λ c. not (nat_eq c b'$')) a ≡ true
      → all (λ c. not (nat_eq c b'}')) expr ≡ true
      → expand_env_vars env (a ++ b'$' ∷ b'{' ∷ (expr ++ b'}' ∷ s))
        ≡ after a (substituted (value_of env expr) (expand_env_vars env s))
  expand_env_vars-behind a expr s h k =
      after_plain a (b'{' ∷ (expr ++ b'}' ∷ s)) h ∙ ap (after a) (expand_env_vars-var expr s k)

  no_brace :
      (name value : Text)
      → all (λ c. not (nat_eq c b'}')) name ≡ true
      → all (λ c. not (nat_eq c b'}')) value ≡ true
      → all (λ c. not (nat_eq c b'}')) (name ++ b':' ∷ b'-' ∷ value) ≡ true
  no_brace [] value h k = k
  no_brace (c ∷ name) value h k = ground (arith, no_brace name value)

  -- A text without a dollar sign is left as it is. Behind one, a variable that is set is replaced by
  -- its value, with a default or without; one that is not set is replaced by its default, and without
  -- a default it is the error of the whole. What follows is expanded in its turn, the value not. The
  -- name has no colon and no closing brace, the default no closing brace.
  pub expand_env_vars_lem :
      (a name value s : Text)
      → all (λ c. not (nat_eq c b'$')) a ≡ true
      → all (λ c. not (nat_eq c b':')) name ≡ true
      → all (λ c. not (nat_eq c b'}')) name ≡ true
      → all (λ c. not (nat_eq c b'}')) value ≡ true
      → (expand_env_vars env a ≡ expanded a)
        × (expand_env_vars env (a ++ b'$' ∷ b'{' ∷ (name ++ b'}' ∷ s)) ≡ elim (env name) [
          | none ↦ missing name
          | some v ↦ after a (after v (expand_env_vars env s))
        ])
        × (expand_env_vars env (a ++ b'$' ∷ b'{' ∷ ((name ++ b':' ∷ b'-' ∷ value) ++ b'}' ∷ s))
            ≡ after a
                (after (elim (env name) [ none ↦ value | some v ↦ v ]) (expand_env_vars env s)))
  expand_env_vars_lem a name value s h n k l = (
    plain a h,
    expand_env_vars-behind a name s h k ∙ elim (Option-cases (env name)) [
      | inl e ↦ rw (value_of-name name n, e) refl
      | inr (v, e) ↦ rw (value_of-name name n, e) refl
    ],
    expand_env_vars-behind a (name ++ b':' ∷ b'-' ∷ value) s h (no_brace name value k l)
        ∙ ap (λ v. after a (substituted v (expand_env_vars env s))) (value_of-default name value n),
  )
