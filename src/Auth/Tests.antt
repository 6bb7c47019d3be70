-- ===== src/Auth/Tests.antt =====
-- Requests that pass, and some that do not.
use scim_server.Common.{◌≡◌, ◌↔◌, refl, Option, none, some, [], ◌∷◌, if◌then◌else◌}
use scim_server.Text.{find, starts_with, Text, codes, ◌==◌, ascii_lower}
use scim_server.Config.{AuthConfig, CustomEndpoint, TenantConfig, find_tenant}
use scim_server.Host.{ResolvedUrl}
use scim_server.Tenant.{find_tenant_by_request}
use scim_server.Tenant.Tests.{addresses, tenant, config, request}
use scim_server.Auth.{
  passed, unauthorized, not_found, validate_authentication, resolve_tenant_and_authenticate,
  info_of, authenticate, auth_config_at, auth_middleware,
}
use scim_server.Auth.Credentials.{MayPass, validate_authentication_iff}
use scim_server.Auth.Endpoints.{authenticate-endpoint}
use scim_server.Auth.Access.{resolve_tenant_and_authenticate_iff}

-- A decoder of one text.
abbrev decode : Text → Option Text
decode s = if s == codes "YTpi" then some (codes "a:b") else none

abbrev basic : AuthConfig
basic = record {
  auth_type = codes "basic";
  token = none;
  basic = some (record { username = codes "a"; password = codes "b" });
}

validate_authentication_example :
    (validate_authentication decode basic (some (codes "BASIC YTpi")) ≡ passed tt)
    ↔ MayPass decode basic (some (codes "BASIC YTpi"))
validate_authentication_example =
    validate_authentication_iff decode basic (some (codes "BASIC YTpi"))

lets_in : validate_authentication decode basic (some (codes "BASIC YTpi")) ≡ passed tt
unfolding validate_authentication ascii_lower starts_with find
lets_in = refl

keeps_out : validate_authentication decode basic (some (codes "bearer YTpi")) ≡ unauthorized
unfolding validate_authentication ascii_lower starts_with
keeps_out = refl

-- An endpoint with a configuration of its own.
abbrev status : CustomEndpoint
status = record {
  path = codes "/a/status";
  response = [];
  status_code = 200;
  content_type = codes "text/plain";
  auth = some basic;
}

abbrev with_status : TenantConfig
with_status = record (tenant 1 (codes "/a")) { custom_endpoints = status ∷ [] }

authenticate-endpoint_example :
    (authenticate addresses decode with_status
        (request (codes "/a/status"))
        (some (codes "Basic YTpi"))
      ≡ passed (info_of addresses with_status (request (codes "/a/status"))))
    ↔ (MayPass decode basic (some (codes "Basic YTpi"))
        × (info_of addresses with_status (request (codes "/a/status"))
            ≡ info_of addresses with_status (request (codes "/a/status"))))
authenticate-endpoint_example =
    authenticate-endpoint addresses decode with_status (request (codes "/a/status"))
      (some (codes "Basic YTpi")) (info_of addresses with_status (request (codes "/a/status"))) []
      [] status basic refl refl refl refl

resolve_tenant_and_authenticate_example :
    (resolve_tenant_and_authenticate addresses decode config
        (request (codes "/a/Users"))
        (some (codes "Bearer key"))
      ≡ passed (info_of addresses (tenant 1 (codes "/a")) (request (codes "/a/Users"))))
    ↔ ((found : TenantConfig × ResolvedUrl) × (t : TenantConfig) × (find_tenant_by_request addresses
            config
            (request (codes "/a/Users"))
          ≡ some found)
        × (find_tenant found.0.id config.tenants ≡ some t)
        × MayPass decode (auth_config_at t (codes "/a/Users")) (some (codes "Bearer key"))
        × (info_of addresses t (request (codes "/a/Users"))
            ≡ info_of addresses (tenant 1 (codes "/a")) (request (codes "/a/Users"))))
resolve_tenant_and_authenticate_example =
    resolve_tenant_and_authenticate_iff addresses decode config (request (codes "/a/Users"))
      (some (codes "Bearer key"))
      (info_of addresses (tenant 1 (codes "/a")) (request (codes "/a/Users")))

passes :
    resolve_tenant_and_authenticate addresses decode config
      (request (codes "/a/Users"))
      (some (codes "Bearer key"))
    ≡ passed (info_of addresses (tenant 1 (codes "/a")) (request (codes "/a/Users")))
unfolding resolve_tenant_and_authenticate ascii_lower find_tenant_by_request starts_with find_tenant
    validate_authentication
passes = refl

nowhere :
    resolve_tenant_and_authenticate addresses decode config (request (codes "/c/Users")) none
    ≡ not_found
unfolding resolve_tenant_and_authenticate find_tenant_by_request starts_with
nowhere = refl

health : auth_middleware addresses decode config (request (codes "/health")) none ≡ passed none
unfolding auth_middleware
health = refl
