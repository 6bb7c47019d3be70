-- ===== src/Config/Env.antt =====
-- `AppConfig::expand_env_vars` of src/config.rs.
use scim_server.Common.{
  ℕ, zero, suc, Option, none, some, [], ◌∷◌, ◌++◌, ◌&&◌, nat_eq, if◌then◌else◌, take, drop, length,
}
use scim_server.Text.{Text, find}

-- `Ok(expanded)`, or `Err` with the name of the variable that has no value, or a loop that has not
-- come to its end.
pub data Expanded : Type 0 where
  expanded : Text → Expanded
  missing : Text → Expanded
  unfinished : Expanded

abbrev pub after : Text → Expanded → Expanded
after s (expanded t) = expanded (s ++ t)
after s (missing name) = missing name
after s unfinished = unfinished

abbrev pub substituted : Expanded → Expanded → Expanded
substituted (missing name) rest = missing name
substituted (expanded v) rest = after v rest
substituted unfinished rest = unfinished

-- `var_expr.find(":-")`, with the texts before and behind it.
unfoldable pub split_default : Text → Text × Option Text
split_default [] = ([], none)
split_default (c ∷ []) = (c ∷ [], none)
split_default (c ∷ d ∷ s) =
    let rest = split_default (d ∷ s) in
    if nat_eq c b':' && nat_eq d b'-' then ([], some s) else (c ∷ rest.0, rest.1)

-- `match std::env::var(&var_name)`: the name, the variable's value, the default.
abbrev pub value_or : Text → Option Text → Option Text → Expanded
value_or name (some v) default = expanded v
value_or name none (some d) = expanded d
value_or name none none = missing name

-- `env` is `std::env::var`.
module _ (env : Text → Option Text) where
  -- The value of what stands between the braces.
  unfoldable pub value_of : Text → Expanded
  unfolding split_default
  value_of expr =
      value_or (split_default expr).0 (env (split_default expr).0) (split_default expr).1

  -- The loop over the characters from `i` on, with fuel for so many rounds.
  unfoldable pub expand_from : ℕ → Text → Expanded
  unfolding value_of
  expand_from zero [] = expanded []
  expand_from zero (c ∷ s) = unfinished
  expand_from (suc fuel) [] = expanded []
  expand_from (suc fuel) (c ∷ []) = expanded (c ∷ [])
  expand_from (suc fuel) (c ∷ d ∷ s) =
      let next = after (c ∷ []) (expand_from fuel (d ∷ s)) in
      if nat_eq c b'$' && nat_eq d b'{'
      then elim (find b'}' s) [
        | none ↦ next
        | some j ↦ substituted (value_of (take j s)) (expand_from fuel (drop (suc j) s))
      ]
      else next

  unfoldable pub expand_env_vars : Text → Expanded
  unfolding expand_from
  expand_env_vars content = expand_from (length content) content
