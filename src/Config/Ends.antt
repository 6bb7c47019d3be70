-- ===== src/Config/Ends.antt =====
-- The loop of `expand_env_vars` comes to its end.
use scim_server.Common.{
  ℕ, zero, suc, ◌≡◌, ◌≤◌, refl, ◌∙◌, Bool, true, false, Option, none, some, [], ◌∷◌, take, drop,
  length, arith, Option-cases, inl, inr, length-drop,
}
use scim_server.Text.{Text, find}
use scim_server.Config.Env.{
  Expanded, expanded, missing, unfinished, split_default, value_or, after, substituted, value_of,
  expand_from, expand_env_vars,
}
use scim_server.Config.Expansion.{expand_from-fuel}

-- The loop came to its end.
abbrev pub is_finished : Expanded → Bool
is_finished (expanded s) = true
is_finished (missing name) = true
is_finished unfinished = false

is_finished-after : (s : Text) (e : Expanded) → is_finished (after s e) ≡ is_finished e
is_finished-after s (expanded t) = refl
is_finished-after s (missing name) = refl
is_finished-after s unfinished = refl

is_finished-substituted :
    (v rest : Expanded)
    → is_finished v ≡ true
    → is_finished rest ≡ true
    → is_finished (substituted v rest) ≡ true
is_finished-substituted (expanded s) rest h k = is_finished-after s rest ∙ k
is_finished-substituted (missing name) rest h k = refl
is_finished-substituted unfinished rest h k = h

value_or-is_finished :
    (name : Text) (o default : Option Text) → is_finished (value_or name o default) ≡ true
value_or-is_finished name (some v) default = refl
value_or-is_finished name none (some d) = refl
value_or-is_finished name none none = refl

module _ (env : Text → Option Text) where
  value_of-is_finished : (expr : Text) → is_finished (value_of env expr) ≡ true
  unfolding value_of
  value_of-is_finished expr =
      value_or-is_finished (split_default expr).0 (env (split_default expr).0)
        (split_default expr).1

  expand_from-is_finished :
      (fuel : ℕ) (s : Text) → length s ≤ fuel → is_finished (expand_from env fuel s) ≡ true
  unfolding expand_from
  expand_from-is_finished zero [] h = refl
  expand_from-is_finished zero (c ∷ s) h = absurd (omega (arith, h))
  expand_from-is_finished (suc fuel) [] h = refl
  expand_from-is_finished (suc fuel) (c ∷ []) h = refl
  expand_from-is_finished (suc fuel) (c ∷ d ∷ s) h =
      let next =
        is_finished-after (c ∷ []) (expand_from env fuel (d ∷ s))
        ∙ expand_from-is_finished fuel (d ∷ s) (omega (arith, h)) in
      elim (Option-cases (find b'}' s)) [
        | inl e ↦ ground (arith, e, next)
        | inr (j, e) ↦
            let rest =
              is_finished-substituted (value_of env (take j s))
                (expand_from env fuel (drop (suc j) s)) (value_of-is_finished (take j s))
                (expand_from-is_finished fuel (drop (suc j) s)
                  (omega (arith, h, length-drop (suc j) s))) in
            ground (arith, e, next, rest)
      ]

  -- The loop comes to its end in at most as many rounds as the text has characters, and what it gives
  -- does not depend on the fuel from there on.
  pub expand_from-expand_env_vars :
      (fuel : ℕ) (s : Text)
      → length s ≤ fuel
      → (is_finished (expand_from env fuel s) ≡ true)
        × (expand_from env fuel s ≡ expand_env_vars env s)
  unfolding expand_env_vars
  expand_from-expand_env_vars fuel s h =
      (expand_from-is_finished fuel s h, expand_from-fuel env fuel (length s) s h (omega arith))
