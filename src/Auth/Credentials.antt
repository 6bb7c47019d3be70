-- ===== src/Auth/Credentials.antt =====
-- Who may pass: `validate_authentication` against the schemes as RFC 7235, 6750 and 7617 write them.
use scim_server.Common.{
  suc, ◌≡◌, refl, ap, ◌∙◌, ◌↔◌, true, not, Option, none, some, ◌∷◌, ◌++◌, arith, nat_eq, length,
  take, drop, all, Option-cases, Bool-cases, inl, inr, take-append, some_inj,
}
use scim_server.Text.{Text, ◌==◌, codes, find}
use scim_server.Text.Laws.{eq_iff}
use scim_server.Auth.Schemes.{
  UnderScheme, has_scheme_sound, has_scheme_complete, find-split, find-first, drop-past,
}
use scim_server.Config.{AuthConfig, BasicAuthConfig}
use scim_server.Auth.{
  Checked, passed, unauthorized, internal_server_error, has_scheme, validate_token, validate_basic,
  validate_authentication, check_basic, check_token, check_credentials,
}

-- The header gives the configured token under the scheme.
abbrev pub HasToken : Text → AuthConfig → Option Text → Type 0
HasToken scheme auth header =
    (given token : Text) × (header ≡ some given)
    × UnderScheme scheme given token
    × (auth.token ≡ some token)

check_token_iff :
    (configured : Option Text) (token : Text)
    → (check_token configured token ≡ passed tt) ↔ (configured ≡ some token)
check_token_iff none token = ground arith
check_token_iff (some expected) token = ground (arith, eq_iff token expected)

validate_token_iff :
    (scheme : Text) (auth : AuthConfig) (header : Option Text)
    → (validate_token scheme auth header ≡ passed tt) ↔ HasToken scheme auth header
unfolding validate_token
validate_token_iff scheme auth none = ((λ h. cc), (λ (g, t, e, u, k). cc))
validate_token_iff scheme auth (some header) = (
  (λ h.
      let token = drop (length scheme) header in
      (
        header,
        token,
        refl,
        has_scheme_sound scheme header (ground arith),
        (check_token_iff auth.token token).0 (ground arith),
      )),
  (λ (g, t, e, (w, p, q), k).
      let (h, d) = has_scheme_complete scheme w t q in
      let same : header ≡ w ++ t = some_inj.0 e ∙ p in
      ground (
        arith,
        ap (has_scheme scheme) same ∙ h,
        ap (drop (length scheme)) same ∙ d,
        check_token_iff auth.token t,
      )),
)

-- The header gives the configured user and password, in base64, under "basic".
abbrev pub HasPassword : (Text → Option Text) → AuthConfig → Option Text → Type 0
HasPassword decode auth header =
    (given encoded username password : Text) × (header ≡ some given)
    × UnderScheme (codes "basic ") given encoded
    × (decode encoded ≡ some (username ++ b':' ∷ password))
    × (all (λ c. not (nat_eq c b':')) username ≡ true)
    × (auth.basic ≡ some (record { username = username; password = password }))

check_credentials_iff :
    (basic : Option BasicAuthConfig) (username password : Text)
    → (check_credentials basic username password ≡ passed tt)
      ↔ (basic ≡ some (record { username = username; password = password }))
check_credentials_iff none username password = ground arith
check_credentials_iff (some b) username password =
    ground (arith, eq_iff username b.username, eq_iff password b.password)

unauthorized-ne-passed : ◌≡◌ {A = Checked (Unit {0})} unauthorized (passed tt) → ⊥
unauthorized-ne-passed h = cc

server_error-ne-passed : ◌≡◌ {A = Checked (Unit {0})} internal_server_error (passed tt) → ⊥
server_error-ne-passed h = cc

check_basic_iff :
    (basic : Option BasicAuthConfig) (credentials : Text)
    → (check_basic basic credentials ≡ passed tt) ↔ (
        (username password : Text) × (credentials ≡ username ++ b':' ∷ password)
        × (all (λ c. not (nat_eq c b':')) username ≡ true)
        × (basic ≡ some (record { username = username; password = password })))
unfolding check_basic
check_basic_iff basic credentials = (
  (λ h. elim (Option-cases (find b':' credentials)) [
    | inl e ↦ absurd (unauthorized-ne-passed (rw (e, check_basic) at h))
    | inr (i, e) ↦
        let username = take i credentials in
        let password = drop (suc i) credentials in
        let (s, a) = find-split b':' i credentials e in
        (
          username,
          password,
          s,
          a,
          (check_credentials_iff basic username password).0 (rw (e, check_basic) at h),
        )
  ]),
  (λ (username, password, s, a, b).
      let e = ap (find b':') s ∙ find-first b':' username password a in
      let t = ap (take (length username)) s ∙ take-append username (b':' ∷ password) in
      let d = ap (drop (suc (length username))) s ∙ drop-past b':' username password in
      rw (e, check_basic) (rw (t, d) ((check_credentials_iff basic username password).1 b))),
)

validate_basic_iff :
    (decode : Text → Option Text) (auth : AuthConfig) (header : Option Text)
    → (validate_basic decode auth header ≡ passed tt) ↔ HasPassword decode auth header
unfolding validate_basic
validate_basic_iff decode auth none = ((λ h. cc), (λ x. cc (x.4)))
validate_basic_iff decode auth (some header) = (
  (λ h.
      let scheme = codes "basic " in
      let encoded = drop 6 header in
      let under = has_scheme_sound scheme header (ground arith) in
      elim (Option-cases (decode encoded)) [
        | inl e ↦ absurd (unauthorized-ne-passed (ground (arith, e)))
        | inr (credentials, e) ↦
            let (username, password, s, a, b) =
              (check_basic_iff auth.basic credentials).0 (ground (arith, e)) in
            (header, encoded, username, password, refl, under, e ∙ ap some s, a, b)
      ]),
  (λ (g, encoded, username, password, e, (w, p, q), d, a, b).
      let scheme = codes "basic " in
      let (h, r) = has_scheme_complete scheme w encoded q in
      let same : header ≡ w ++ encoded = some_inj.0 e ∙ p in
      let checked =
        (check_basic_iff auth.basic (username ++ b':' ∷ password)).1
          (username, password, refl, a, b) in
      ground
        (arith, ap (has_scheme scheme) same ∙ h, ap decode (ap (drop 6) same ∙ r) ∙ d, checked)),
)

-- How a request may pass under a configuration.
pub data MayPass (decode : Text → Option Text) (auth : AuthConfig) (header : Option Text)
    : Type 0 where
  open_to_all : auth.auth_type ≡ codes "unauthenticated" → MayPass decode auth header
  by_bearer :
      auth.auth_type ≡ codes "bearer"
      → HasToken (codes "bearer ") auth header
      → MayPass decode auth header
  by_token :
      auth.auth_type ≡ codes "token"
      → HasToken (codes "token ") auth header
      → MayPass decode auth header
  by_password :
      auth.auth_type ≡ codes "basic" → HasPassword decode auth header → MayPass decode auth header

MayPass-passed :
    (decode : Text → Option Text) (auth : AuthConfig) (header : Option Text)
    → MayPass decode auth header
    → validate_authentication decode auth header ≡ passed tt
unfolding validate_authentication
MayPass-passed decode auth header (open_to_all e) =
    ground (arith, ap (λ t. t == codes "unauthenticated") e)
MayPass-passed decode auth header (by_bearer e h) =
    rw (e, validate_authentication) ((validate_token_iff (codes "bearer ") auth header).1 h)
MayPass-passed decode auth header (by_token e h) =
    rw (e, validate_authentication) ((validate_token_iff (codes "token ") auth header).1 h)
MayPass-passed decode auth header (by_password e h) =
    rw (e, validate_authentication) ((validate_basic_iff decode auth header).1 h)

-- A request passes exactly if the configuration asks for nothing, or its header gives what the
-- configuration has, under the scheme of the configuration: the token, or the user and the password
-- in base64.
pub validate_authentication_iff :
    (decode : Text → Option Text) (auth : AuthConfig) (header : Option Text)
    → (validate_authentication decode auth header ≡ passed tt) ↔ MayPass decode auth header
unfolding validate_authentication
validate_authentication_iff decode auth header = (
  (λ h. elim (Bool-cases (auth.auth_type == codes "unauthenticated")) [
    | inl u ↦ open_to_all ((eq_iff auth.auth_type (codes "unauthenticated")).0 u)
    | inr u ↦ elim (Bool-cases (auth.auth_type == codes "bearer")) [
      | inl b ↦
          by_bearer ((eq_iff auth.auth_type (codes "bearer")).0 b)
            ((validate_token_iff (codes "bearer ") auth header).0 (rw b at (rw u at h)))
      | inr b ↦ elim (Bool-cases (auth.auth_type == codes "token")) [
        | inl t ↦
            by_token ((eq_iff auth.auth_type (codes "token")).0 t)
              ((validate_token_iff (codes "token ") auth header).0 (rw t at (rw b at (rw u at h))))
        | inr t ↦ elim (Bool-cases (auth.auth_type == codes "basic")) [
          | inl p ↦
              by_password ((eq_iff auth.auth_type (codes "basic")).0 p) (
                (validate_basic_iff decode auth header).0 (rw p at (rw t at (rw b at (rw u at h)))))
          | inr p ↦ absurd (server_error-ne-passed (rw p at (rw t at (rw b at (rw u at h)))))
        ]
      ]
    ]
  ]),
  MayPass-passed decode auth header,
)
