-- ===== src/Auth.antt =====
-- src/auth.rs: a request's tenant, and whether it may pass.
pub mod Credentials
pub mod Schemes
pub mod Access
pub mod Endpoints
mod Tests
use scim_server.Common.{
  ℕ, Bool, true, false, not, ◌&&◌, ◌||◌, Option, none, some, List, [], ◌∷◌, map, ltb, length, take,
  drop, if◌then◌else◌,
}
use scim_server.Text.{Text, ◌==◌, codes, starts_with, ascii_lower, find}
use scim_server.Config.{
  AuthConfig, BasicAuthConfig, TenantConfig, CustomEndpoint, AppConfig, find_tenant,
  effective_auth_config,
}
use scim_server.Host.{RequestInfo, Addresses}
use scim_server.Tenant.{find_tenant_by_request, build_base_url}

-- `Result<_, StatusCode>`
pub data Checked {ℓ} (A : Type ℓ) : Type ℓ where
  passed : A → Checked A
  unauthorized not_found internal_server_error : Checked A

-- A header's value is visible ASCII, so that its bytes are its characters.
unfoldable pub has_scheme : Text → Text → Bool
has_scheme scheme header =
    not (ltb (length header) (length scheme))
    && starts_with (map ascii_lower (take (length scheme) header)) scheme

abbrev pub check : Bool → Checked (Unit {0})
check true = passed tt
check false = unauthorized

-- `match &auth_config.token { … }`
abbrev pub check_token : Option Text → Text → Checked (Unit {0})
check_token none provided = unauthorized
check_token (some expected) provided = check (provided == expected)

abbrev pub check_credentials : Option BasicAuthConfig → Text → Text → Checked (Unit {0})
check_credentials none username password = unauthorized
check_credentials (some basic) username password =
    check (username == basic.username && password == basic.password)

-- `credentials_str.splitn(2, ':')`, and what is done with two parts.
unfoldable pub check_basic : Option BasicAuthConfig → Text → Checked (Unit {0})
check_basic basic credentials = elim (find b':' credentials) [
  | none ↦ unauthorized
  | some i ↦ check_credentials basic (take i credentials) (drop (ℕ.suc i) credentials)
]

unfoldable pub validate_token : Text → AuthConfig → Option Text → Checked (Unit {0})
unfolding has_scheme
validate_token scheme auth none = unauthorized
validate_token scheme auth (some header) =
    if has_scheme scheme header
    then check_token auth.token (drop (length scheme) header)
    else unauthorized

-- `decode_base64` is the crate base64's `STANDARD.decode` with `String::from_utf8`.
module _ (decode_base64 : Text → Option Text) where
  unfoldable pub validate_basic : AuthConfig → Option Text → Checked (Unit {0})
  unfolding has_scheme check_basic
  validate_basic auth none = unauthorized
  validate_basic auth (some header) =
      if has_scheme (codes "basic ") header
      then elim (decode_base64 (drop 6 header)) [
        | none ↦ unauthorized
        | some credentials ↦ check_basic auth.basic credentials
      ]
      else unauthorized

  unfoldable pub validate_authentication : AuthConfig → Option Text → Checked (Unit {0})
  unfolding validate_token validate_basic
  validate_authentication auth header =
      if auth.auth_type == codes "unauthenticated"
      then passed tt
      else if auth.auth_type == codes "bearer"
      then validate_token (codes "bearer ") auth header
      else if auth.auth_type == codes "token"
      then validate_token (codes "token ") auth header
      else if auth.auth_type == codes "basic"
      then validate_basic auth header
      else internal_server_error

unfoldable pub endpoint_at : Text → List CustomEndpoint → Option CustomEndpoint
endpoint_at path [] = none
endpoint_at path (e ∷ es) =
    let rest = endpoint_at path es in if e.path == path then some e else rest

-- The configuration that a request on that path is checked by.
unfoldable pub auth_config_at : TenantConfig → Text → AuthConfig
unfolding endpoint_at
auth_config_at tenant path = elim (endpoint_at path tenant.custom_endpoints) [
  | none ↦ tenant.auth
  | some e ↦ effective_auth_config e tenant.auth
]

pub record TenantInfo : Type 0 where
  pub tenant_id : ℕ
  pub tenant_config : TenantConfig
  pub base_path : Text

abbrev pub and_tenant : Checked TenantInfo → Checked (Option TenantInfo)
and_tenant (passed info) = passed (some info)
and_tenant unauthorized = unauthorized
and_tenant not_found = not_found
and_tenant internal_server_error = internal_server_error

module _ (addresses : Addresses) where
  unfoldable pub resolve_tenant_id_from_request : AppConfig → RequestInfo → Checked ℕ
  resolve_tenant_id_from_request config r = elim (find_tenant_by_request addresses config r) [
    | none ↦ not_found
    | some found ↦ passed found.0.id
  ]

  abbrev pub info_of : TenantConfig → RequestInfo → TenantInfo
  info_of tenant r = record {
    tenant_id = tenant.id;
    tenant_config = tenant;
    base_path = build_base_url addresses tenant (record r { client_ip = none });
  }

module _ (addresses : Addresses) (decode_base64 : Text → Option Text) where
  -- What follows once the tenant of that identifier is found.
  unfoldable pub authenticate : TenantConfig → RequestInfo → Option Text → Checked TenantInfo
  unfolding auth_config_at
  authenticate tenant r header =
      elim (validate_authentication decode_base64 (auth_config_at tenant r.path) header) [
        | passed _ ↦ passed (info_of addresses tenant r)
        | unauthorized ↦ unauthorized
        | not_found ↦ not_found
        | internal_server_error ↦ internal_server_error
      ]

  -- `r` is what the request's headers and its connection say, `header` its Authorization header.
  unfoldable pub resolve_tenant_and_authenticate :
      AppConfig → RequestInfo → Option Text → Checked TenantInfo
  unfolding resolve_tenant_id_from_request authenticate
  resolve_tenant_and_authenticate config r header =
      elim (resolve_tenant_id_from_request addresses config r) [
        | passed id ↦ elim (find_tenant id config.tenants) [
          | none ↦ not_found
          | some tenant ↦ authenticate tenant r header
        ]
        | unauthorized ↦ unauthorized
        | not_found ↦ not_found
        | internal_server_error ↦ internal_server_error
      ]

  -- The handler is run, with the tenant where one was looked for, or the status is the answer.
  unfoldable pub auth_middleware :
      AppConfig → RequestInfo → Option Text → Checked (Option TenantInfo)
  unfolding resolve_tenant_and_authenticate
  auth_middleware config r header =
      if r.path == codes "/" || r.path == codes "/health"
      then passed none
      else and_tenant (resolve_tenant_and_authenticate config r header)
