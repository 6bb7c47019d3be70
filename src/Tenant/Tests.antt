-- ===== src/Tenant/Tests.antt =====
-- Requests to the tenants of a small configuration.
use scim_server.Common.{ℕ, ◌≡◌, refl, true, none, some, [], ◌∷◌, inr, if◌then◌else◌}
use mathlib.Core.List.{Memᴰ}
use scim_server.Text.{rfind, Text, codes, ◌==◌, starts_with}
use scim_server.Text.Numbers.{show, parse_unsigned}
use scim_server.Config.{
  TenantConfig, AuthConfig, AppConfig, HostResolutionConfig, HostResolutionType, default_app_config,
}
use scim_server.Host.{Addresses, RequestInfo, ResolvedUrl, is_trusted_proxy}
use scim_server.Tenant.{find_tenant_by_request, build_base_url, resolve}
use scim_server.Tenant.Matching.{Reaches}
use scim_server.Tenant.Lookup.{
  find_tenant_by_request_sound, find_tenant_by_request-found, find_tenant_by_request-trusted,
}

-- The one address that is known is a proxy's.
abbrev pub addresses : Addresses
addresses = record {
  parse_range = λ s. none;
  parse_ip = λ s. if s == codes "10.0.0.1" then some 5 else none;
}

abbrev pub bearer : AuthConfig
bearer = record { auth_type = codes "bearer"; token = some (codes "key"); basic = none }

abbrev pub tenant : ℕ → Text → TenantConfig
tenant id path = record {
  id = id;
  path = path;
  host = none;
  host_resolution = none;
  auth = bearer;
  override_base_url = none;
  custom_endpoints = [];
  compatibility = none;
}

abbrev by_proxy : HostResolutionConfig
by_proxy = record {
  resolution_type = HostResolutionType.x_forwarded;
  trusted_proxies = some (codes "10.0.0.1" ∷ []);
}

abbrev hosted : TenantConfig
hosted = record (tenant 2 (codes "/b")) {
  host = some (codes "b.org");
  host_resolution = some by_proxy;
}

abbrev pub config : AppConfig
config = record default_app_config { tenants = tenant 1 (codes "/a") ∷ hosted ∷ [] }

abbrev pub request : Text → RequestInfo
request path = record {
  path = path;
  host_header = some (codes "localhost");
  forwarded_header = none;
  x_forwarded_proto = none;
  x_forwarded_host = none;
  x_forwarded_port = none;
  client_ip = some 5;
}

abbrev proxied : RequestInfo
proxied = record (request (codes "/b/Users")) { x_forwarded_host = some (codes "b.org:8443") }

abbrev proxied_url : ResolvedUrl
proxied_url = record {
  scheme = codes "https";
  host = codes "b.org";
  port = some 8443;
  path = codes "/b/Users";
}

finds : find_tenant_by_request addresses config proxied ≡ some (hosted, proxied_url)
unfolding find_tenant_by_request starts_with rfind parse_unsigned
finds = refl

find_tenant_by_request_sound_example : Memᴰ hosted config.tenants × Reaches addresses hosted proxied
find_tenant_by_request_sound_example =
    find_tenant_by_request_sound addresses config proxied hosted proxied_url finds

hosted-Reaches : Reaches addresses hosted proxied
unfolding resolve rfind parse_unsigned
hosted-Reaches = (inr (codes "/Users", refl), inr (codes "b.org", proxied_url, refl, refl, refl))

find_tenant_by_request-found_example :
    (found : TenantConfig × ResolvedUrl) × (find_tenant_by_request addresses config proxied
      ≡ some found)
find_tenant_by_request-found_example =
    find_tenant_by_request-found addresses config proxied hosted (Memᴰ.tail (Memᴰ.head refl))
      hosted-Reaches

find_tenant_by_request-trusted_example : is_trusted_proxy addresses by_proxy 5 ≡ true
find_tenant_by_request-trusted_example =
    find_tenant_by_request-trusted addresses config proxied hosted proxied_url (codes "b.org")
      by_proxy 5 refl refl (λ e. cc) refl finds

-- The same from another address.
untrusted : find_tenant_by_request addresses config (record proxied { client_ip = some 6 }) ≡ none
unfolding find_tenant_by_request starts_with
untrusted = refl

base_url : build_base_url addresses hosted proxied ≡ codes "https://b.org:8443/b"
unfolding build_base_url show rfind parse_unsigned
base_url = refl

-- The path of a tenant that stands first is a prefix of the other's, without a slash behind it.
shadowed :
    find_tenant_by_request addresses
      (record config { tenants = tenant 1 (codes "/a") ∷ tenant 2 (codes "/ab") ∷ [] })
      (request (codes "/ab/Users"))
    ≡ some (
      tenant 1 (codes "/a"),
      record {
        scheme = codes "http";
        host = codes "localhost";
        port = none;
        path = codes "/ab/Users";
      },
    )
unfolding find_tenant_by_request starts_with
shadowed = refl
