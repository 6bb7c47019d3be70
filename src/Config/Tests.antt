-- ===== src/Config/Tests.antt =====
-- Variables in a configuration, expanded.
use scim_server.Common.{◌≡◌, refl, true, Option, none, some, ◌∷◌, ◌++◌, if◌then◌else◌, arith}
use scim_server.Text.{find, Text, codes, ◌==◌}
use scim_server.Config.Env.{expanded, missing, after, expand_from, expand_env_vars}
use scim_server.Config.Expansion.{expand_env_vars_lem}
use scim_server.Config.Ends.{is_finished, expand_from-expand_env_vars}

abbrev env : Text → Option Text
env name = if name == codes "HOST" then some (codes "${PORT}") else none

-- The value looks like a variable, and is not expanded again.
expands :
    expand_env_vars env (codes "http://${HOST}:${PORT:-80}/")
    ≡ expanded (codes "http://${PORT}:80/")
unfolding expand_env_vars find
expands = refl

lacks : expand_env_vars env (codes "$ ${PORT}") ≡ missing (codes "PORT")
unfolding expand_env_vars find
lacks = refl

expand_env_vars_example :
    (expand_env_vars env (codes "a=") ≡ expanded (codes "a="))
    × (expand_env_vars env (codes "a=" ++ b'$' ∷ b'{' ∷ (codes "HOST" ++ b'}' ∷ codes "!"))
        ≡ elim (env (codes "HOST")) [
          | none ↦ missing (codes "HOST")
          | some v ↦ after (codes "a=") (after v (expand_env_vars env (codes "!")))
        ])
    × (expand_env_vars env (
          codes "a="
          ++ b'$' ∷ b'{' ∷ ((codes "HOST" ++ b':' ∷ b'-' ∷ codes "::") ++ b'}' ∷ codes "!"))
        ≡ after (codes "a=") (
            after
              (elim (env (codes "HOST")) [ none ↦ codes "::" | some v ↦ v ])
              (expand_env_vars env (codes "!"))))
expand_env_vars_example =
    expand_env_vars_lem env (codes "a=") (codes "HOST") (codes "::") (codes "!") refl refl refl refl

-- A bracket that is not closed.
expand_from-expand_env_vars_example :
    (is_finished (expand_from env 9 (codes "${HOST")) ≡ true)
    × (expand_from env 9 (codes "${HOST") ≡ expand_env_vars env (codes "${HOST"))
expand_from-expand_env_vars_example =
    expand_from-expand_env_vars env 9 (codes "${HOST") (omega arith)
