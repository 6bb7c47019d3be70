-- ===== src/Tenant.antt =====
-- `TenantConfig` and the search for a tenant of src/config.rs: which tenant a request is for, and
-- the address that its answers name.
pub mod Matching
pub mod Lookup
pub mod Urls
pub mod Tests
use scim_server.Common.{
  ℕ, suc, Bool, true, false, not, ◌&&◌, ◌||◌, Option, none, some, List, [], ◌∷◌, ◌++◌, nat_eq,
  if◌then◌else◌, take, drop,
}
use scim_server.Text.{Text, ◌==◌, codes, starts_with}
use scim_server.Text.Numbers.{show}
use scim_server.Config.{TenantConfig, CustomEndpoint, AppConfig}
use scim_server.Host.{
  RequestInfo, ResolvedUrl, Addresses, resolve_from_host_header, resolve_with, or_else,
  trim_end_char,
}

abbrev pub host_or_localhost : RequestInfo → Text
host_or_localhost r = or_else (codes "localhost") r.host_header

abbrev pub plain_url : RequestInfo → Text → ResolvedUrl
plain_url r path = record {
  scheme = codes "http";
  host = host_or_localhost r;
  port = none;
  path = path;
}

-- The resolved address, if it is of the expected host.
abbrev pub of_host : Text → Option ResolvedUrl → Option ResolvedUrl
of_host expected none = none
of_host expected (some u) = if u.host == expected then some u else none

abbrev pub with_path : Text → Option ResolvedUrl → Option ResolvedUrl
with_path path none = none
with_path path (some u) = some (record u { path = path })

abbrev pub url_only : Option (CustomEndpoint × ResolvedUrl) → Option ResolvedUrl
url_only none = none
url_only (some (e, u)) = some u

-- Each of the two loops of `find_tenant_by_request`.
unfoldable pub first_matching :
    (TenantConfig → Option ResolvedUrl) → List TenantConfig → Option (TenantConfig × ResolvedUrl)
first_matching matches [] = none
first_matching matches (t ∷ ts) =
    let rest = first_matching matches ts in elim (matches t) [ none ↦ rest | some u ↦ some (t, u) ]

-- The port as it stands in an address: left out where it is the scheme's own.
unfoldable pub port_suffix : ResolvedUrl → Text
port_suffix u = elim u.port [
  | none ↦ []
  | some p ↦
      if u.scheme == codes "https" && not (nat_eq p 443)
        || u.scheme == codes "http" && not (nat_eq p 80)
      then codes ":" ++ show p
      else []
]

module _ (addresses : Addresses) where
  -- The host of a tenant with a host, by its host_resolution or by the Host header.
  unfoldable pub resolve : TenantConfig → RequestInfo → Option ResolvedUrl
  unfolding resolve_with
  resolve t r = elim t.host_resolution [
    | none ↦ resolve_from_host_header r
    | some config ↦ resolve_with addresses r config
  ]

  unfoldable pub matches_request : TenantConfig → RequestInfo → Option ResolvedUrl
  unfolding resolve
  matches_request t r =
      if starts_with r.path t.path
      then elim t.host [
        | none ↦ some (plain_url r r.path)
        | some expected ↦ of_host expected (resolve t r)
      ]
      else none

  -- The address under which a custom endpoint of that path is found at the tenant.
  abbrev pub endpoint_url : TenantConfig → RequestInfo → Text → Option ResolvedUrl
  endpoint_url t r path = elim t.host [
    | none ↦ some (plain_url r path)
    | some expected ↦ with_path path (of_host expected (resolve t r))
  ]

  -- The loop of `matches_custom_endpoint`.
  unfoldable pub find_endpoint :
      TenantConfig → RequestInfo → List CustomEndpoint → Option (CustomEndpoint × ResolvedUrl)
  unfolding resolve
  find_endpoint t r [] = none
  find_endpoint t r (e ∷ es) =
      let rest = find_endpoint t r es in
      if e.path == r.path
      then elim (endpoint_url t r e.path) [ none ↦ rest | some u ↦ some (e, u) ]
      else rest

  unfoldable pub matches_custom_endpoint :
      TenantConfig → RequestInfo → Option (CustomEndpoint × ResolvedUrl)
  unfolding find_endpoint
  matches_custom_endpoint t r = find_endpoint t r t.custom_endpoints

  unfoldable pub find_tenant_by_request :
      AppConfig → RequestInfo → Option (TenantConfig × ResolvedUrl)
  unfolding first_matching matches_custom_endpoint matches_request
  find_tenant_by_request config r =
      elim (first_matching (λ t. url_only (matches_custom_endpoint t r)) config.tenants) [
        | some found ↦ some found
        | none ↦ first_matching (λ t. matches_request t r) config.tenants
      ]

  unfoldable pub build_base_url : TenantConfig → RequestInfo → Text
  unfolding resolve port_suffix
  build_base_url t r = elim t.override_base_url [
    | some url ↦ trim_end_char b'/' url ++ t.path
    | none ↦ elim t.host [
      | none ↦ codes "http://" ++ (host_or_localhost r ++ t.path)
      | some host ↦ elim (resolve t r) [
        | none ↦ codes "http://" ++ (host ++ t.path)
        | some u ↦ u.scheme ++ (codes "://" ++ (u.host ++ (port_suffix u ++ t.path)))
      ]
    ]
  ]

  unfoldable pub build_base_url_no_path : TenantConfig → RequestInfo → Text
  unfolding resolve port_suffix
  build_base_url_no_path t r = elim t.override_base_url [
    | some url ↦ trim_end_char b'/' url
    | none ↦ elim t.host [
      | none ↦ codes "http://" ++ host_or_localhost r
      | some host ↦ elim (resolve t r) [
        | none ↦ codes "http://" ++ host
        | some u ↦ u.scheme ++ (codes "://" ++ (u.host ++ port_suffix u))
      ]
    ]
  ]
