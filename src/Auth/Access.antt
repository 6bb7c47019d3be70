-- ===== src/Auth/Access.antt =====
-- The tenant of a request and its authentication together: `resolve_tenant_and_authenticate`.
use scim_server.Common.{◌≡◌, refl, ap, ◌↔◌, ◌⊎◌, Option, some, arith, Option-cases, inl, inr}
use scim_server.Text.{Text}
use scim_server.Config.{AppConfig, TenantConfig, find_tenant}
use scim_server.Host.{RequestInfo, Addresses, ResolvedUrl}
use scim_server.Tenant.{find_tenant_by_request}
use scim_server.Auth.{
  Checked, passed, unauthorized, not_found, internal_server_error, TenantInfo, info_of,
  authenticate, auth_config_at, validate_authentication, resolve_tenant_id_from_request,
  resolve_tenant_and_authenticate,
}
use scim_server.Auth.Credentials.{MayPass, validate_authentication_iff}

-- Every way to `passed`.
Checked-cases :
    {A : Type 0}
    → (c : Checked A)
    → ((a : A) × (c ≡ passed a))
      ⊎ ((c ≡ unauthorized) ⊎ (c ≡ not_found) ⊎ (c ≡ internal_server_error))
Checked-cases (passed a) = inl (a, refl)
Checked-cases unauthorized = inr (inl refl)
Checked-cases not_found = inr (inr (inl refl))
Checked-cases internal_server_error = inr (inr (inr refl))

module _ (addresses : Addresses) (decode : Text → Option Text) where
  pub authenticate_iff :
      (tenant : TenantConfig) (r : RequestInfo) (header : Option Text) (info : TenantInfo)
      → (authenticate addresses decode tenant r header ≡ passed info) ↔ (
          (validate_authentication decode (auth_config_at tenant r.path) header ≡ passed tt)
          × (info_of addresses tenant r ≡ info))
  unfolding authenticate
  authenticate_iff tenant r header info = (
    (λ h.
        elim (Checked-cases
          (validate_authentication decode (auth_config_at tenant r.path) header)) [
            | inl (a, e) ↦ ground (arith, e)
            | inr o ↦ elim o [
              | inl e ↦ absurd (ground (arith, e))
              | inr (inl e) ↦ absurd (ground (arith, e))
              | inr (inr e) ↦ absurd (ground (arith, e))
            ]
          ]),
    (λ (h, e). rw (h, authenticate) (ap passed e)),
  )

  -- A request is let through to a tenant exactly if the search by its address finds a tenant, the
  -- first configured tenant of that tenant's identifier is the one handed on, and the Authorization
  -- header meets that tenant's configuration, or its custom endpoint's on this path.
  pub resolve_tenant_and_authenticate_iff :
      (config : AppConfig) (r : RequestInfo) (header : Option Text) (info : TenantInfo)
      → (resolve_tenant_and_authenticate addresses decode config r header ≡ passed info) ↔ (
          (found : TenantConfig × ResolvedUrl) × (tenant : TenantConfig) × (find_tenant_by_request
              addresses config r
            ≡ some found)
          × (find_tenant found.0.id config.tenants ≡ some tenant)
          × MayPass decode (auth_config_at tenant r.path) header
          × (info_of addresses tenant r ≡ info))
  unfolding resolve_tenant_and_authenticate resolve_tenant_id_from_request
  resolve_tenant_and_authenticate_iff config r header info = (
    (λ h. elim (Option-cases (find_tenant_by_request addresses config r)) [
      | inl e ↦ absurd (ground (arith, e))
      | inr (found, e) ↦ elim (Option-cases (find_tenant found.0.id config.tenants)) [
        | inl k ↦ absurd (ground (arith, e, k))
        | inr (tenant, k) ↦
            let (p, i) = (authenticate_iff tenant r header info).0 (ground (arith, e, k)) in
            (
              found,
              tenant,
              e,
              k,
              (validate_authentication_iff decode (auth_config_at tenant r.path) header).0 p,
              i,
            )
      ]
    ]),
    (λ (found, tenant, e, k, p, i).
        let access =
          (validate_authentication_iff decode (auth_config_at tenant r.path) header).1 p in
        let here = (authenticate_iff tenant r header info).1 (access, i) in
        ground (arith, e, k, here)),
  )
