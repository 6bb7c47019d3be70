-- ===== src/Tenant/Urls.antt =====
-- The base addresses of a tenant: `build_base_url` and `build_base_url_no_path`.
use scim_server.Common.{◌≡◌, ◌++◌, append_assoc, arith, Option-cases, inl, inr}
use scim_server.Text.{codes}
use scim_server.Config.{TenantConfig}
use scim_server.Host.{RequestInfo, Addresses}
use scim_server.Tenant.{
  build_base_url, build_base_url_no_path, resolve, port_suffix, host_or_localhost,
}

-- The two base addresses of a tenant differ by the tenant's path at the end, whichever way they are
-- found.
pub build_base_url-build_base_url_no_path :
    (addresses : Addresses) (t : TenantConfig) (r : RequestInfo)
    → build_base_url addresses t r ≡ build_base_url_no_path addresses t r ++ t.path
unfolding build_base_url build_base_url_no_path
build_base_url-build_base_url_no_path addresses t r = elim (Option-cases t.override_base_url) [
  | inr (url, e) ↦ ground (arith, e)
  | inl e ↦ elim (Option-cases t.host) [
    | inl h ↦ ground (arith, e, h, append_assoc (codes "http://") (host_or_localhost r) t.path)
    | inr (host, h) ↦ elim (Option-cases (resolve addresses t r)) [
      | inl k ↦ ground (arith, e, h, k, append_assoc (codes "http://") host t.path)
      | inr (u, k) ↦ ground (
        arith,
        e,
        h,
        k,
        append_assoc u.host (port_suffix u) t.path,
        append_assoc u.scheme (codes "://" ++ (u.host ++ port_suffix u)) t.path,
      )
    ]
  ]
]
