-- ===== src/Tenant/Lookup.antt =====
-- `find_tenant_by_request`: the tenant that is found, and when one is.
use scim_server.Common.{
  ℕ, ◌≡◌, ◌≢◌, refl, sym, ap, ◌∙◌, true, not, Option, none, some, List, [], ◌∷◌, arith,
  Option-cases, Bool-cases, inl, inr, some_inj,
}
use mathlib.Core.List.{Memᴰ}
use scim_server.Text.{Text, ◌==◌}
use scim_server.Text.Laws.{eq_iff}
use scim_server.Config.{
  AppConfig, TenantConfig, CustomEndpoint, HostResolutionConfig, HostResolutionType,
}
use scim_server.Host.{
  RequestInfo, Addresses, ResolvedUrl, is_trusted_proxy, resolve_with, rejects,
  resolve_from_forwarded_header, resolve_from_x_forwarded_headers,
}
use scim_server.Tenant.{
  find_tenant_by_request, first_matching, matches_request, matches_custom_endpoint, find_endpoint,
  resolve, endpoint_url, url_only,
}
use scim_server.Tenant.Matching.{
  AtHost, AtEndpoint, Reaches, first_matching_sound, first_matching-found, endpoint_url-AtHost,
  AtHost-endpoint_url, matches_request-AtHost, AtHost-matches_request,
}

module _ (addresses : Addresses) where
  find_endpoint_sound :
      (t : TenantConfig) (r : RequestInfo) (es : List CustomEndpoint) (e : CustomEndpoint)
      (u : ResolvedUrl)
      → find_endpoint addresses t r es ≡ some (e, u)
      → Memᴰ e es × (e.path ≡ r.path) × AtHost addresses t r
  unfolding find_endpoint
  find_endpoint_sound t r [] e u h = cc
  find_endpoint_sound t r (d ∷ es) e u h =
      let rest : find_endpoint addresses t r es ≡ some (e, u)
          → Memᴰ e (d ∷ es) × (e.path ≡ r.path) × AtHost addresses t r =
        λ k. (let (m, p, a) = find_endpoint_sound t r es e u k in (Memᴰ.tail m, p, a)) in
      elim (Bool-cases (d.path == r.path)) [
        | inr n ↦ rest (rw (n, find_endpoint) at h)
        | inl y ↦ elim (Option-cases (endpoint_url addresses t r d.path)) [
          | inl k ↦ rest (rw (y, k, find_endpoint) at h)
          | inr (v, k) ↦
              let same = ap (λ p. p.0) (some_inj.0 (rw (y, k, find_endpoint) at h)) in
              (
                Memᴰ.head (sym same),
                ap (λ x. x.path) (sym same) ∙ (eq_iff d.path r.path).0 y,
                endpoint_url-AtHost addresses t r d.path v k,
              )
        ]
      ]

  find_endpoint-found :
      (t : TenantConfig) (r : RequestInfo) (es : List CustomEndpoint) (e : CustomEndpoint)
      → Memᴰ e es
      → e.path ≡ r.path
      → AtHost addresses t r
      → (found : CustomEndpoint × ResolvedUrl) × (find_endpoint addresses t r es ≡ some found)
  unfolding find_endpoint
  find_endpoint-found t r [] e m p a = elim m [ ]
  find_endpoint-found t r (d ∷ es) e m p a = elim (Bool-cases (d.path == r.path)) [
    | inl y ↦
        let (u, k) = AtHost-endpoint_url addresses t r d.path a in
        ((d, u), rw (y, k, find_endpoint) refl)
    | inr n ↦ elim m [
      | Memᴰ.head k ↦
          absurd (ground (arith, n, (eq_iff d.path r.path).1 (ap (λ x. x.path) (sym k) ∙ p)))
      | Memᴰ.tail m ↦
          let (found, k) = find_endpoint-found t r es e m p a in (found, rw (n, find_endpoint) k)
    ]
  ]

  url_only-some :
      (o : Option (CustomEndpoint × ResolvedUrl)) (u : ResolvedUrl)
      → url_only o ≡ some u
      → (e : CustomEndpoint) × (o ≡ some (e, u))
  url_only-some none u h = cc
  url_only-some (some (e, v)) u h = (e, ap (λ x. some (e, x)) (some_inj.0 h))

  AtEndpoint-sound :
      (t : TenantConfig) (r : RequestInfo) (u : ResolvedUrl)
      → url_only (matches_custom_endpoint addresses t r) ≡ some u
      → AtEndpoint t r × AtHost addresses t r
  unfolding matches_custom_endpoint
  AtEndpoint-sound t r u h =
      let (e, k) = url_only-some (find_endpoint addresses t r t.custom_endpoints) u h in
      let (m, p, a) = find_endpoint_sound t r t.custom_endpoints e u k in ((e, m, p), a)

  AtEndpoint-found :
      (t : TenantConfig) (r : RequestInfo)
      → AtEndpoint t r
      → AtHost addresses t r
      → (u : ResolvedUrl) × (url_only (matches_custom_endpoint addresses t r) ≡ some u)
  unfolding matches_custom_endpoint
  AtEndpoint-found t r (e, m, p) a =
      let ((d, u), k) = find_endpoint-found t r t.custom_endpoints e m p a in (u, ap url_only k)

  -- A tenant that is found is configured and the request reaches it: the path is that of one of its
  -- custom endpoints or starts with the tenant's path, and the request is for the tenant's host,
  -- where it has one.
  pub find_tenant_by_request_sound :
      (config : AppConfig) (r : RequestInfo) (t : TenantConfig) (u : ResolvedUrl)
      → find_tenant_by_request addresses config r ≡ some (t, u)
      → Memᴰ t config.tenants × Reaches addresses t r
  unfolding find_tenant_by_request
  find_tenant_by_request_sound config r t u h =
      let at_endpoint : TenantConfig → Option ResolvedUrl =
        λ t. url_only (matches_custom_endpoint addresses t r) in
      elim (Option-cases (first_matching at_endpoint config.tenants)) [
        | inr (found, k) ↦
            let same = some_inj.0 (rw (k, find_tenant_by_request) at h) in
            let (m, e) = first_matching_sound at_endpoint config.tenants t u (k ∙ ap some same) in
            let (p, a) = AtEndpoint-sound t r u e in (m, (inl p, a))
        | inl k ↦
            let (m, e) =
              first_matching_sound (λ t. matches_request addresses t r) config.tenants t u
                (rw (k, find_tenant_by_request) at h) in
            let (p, a) = matches_request-AtHost addresses t r u e in (m, (inr p, a))
      ]

  -- Where the request reaches a configured tenant, one is found.
  pub find_tenant_by_request-found :
      (config : AppConfig) (r : RequestInfo) (t : TenantConfig)
      → Memᴰ t config.tenants
      → Reaches addresses t r
      → (found : TenantConfig × ResolvedUrl) × (find_tenant_by_request addresses config r
          ≡ some found)
  unfolding find_tenant_by_request
  find_tenant_by_request-found config r t m (p, a) =
      let at_endpoint : TenantConfig → Option ResolvedUrl =
        λ t. url_only (matches_custom_endpoint addresses t r) in
      elim (Option-cases (first_matching at_endpoint config.tenants)) [
        | inr (found, k) ↦ (found, rw (k, find_tenant_by_request) refl)
        | inl k ↦ elim p [
          | inl e ↦
              let (u, l) = AtEndpoint-found t r e a in
              let (found, f) = first_matching-found at_endpoint config.tenants t u m l in
              absurd (cc)
          | inr q ↦
              let (u, l) = AtHost-matches_request addresses t r q a in
              let (found, f) =
                first_matching-found (λ t. matches_request addresses t r) config.tenants t u m l in
              (found, rw (k, find_tenant_by_request) f)
        ]
      ]

  resolve_with-rejects :
      (r : RequestInfo) (config : HostResolutionConfig) (by : HostResolutionType)
      → config.resolution_type ≡ by
      → by ≢ HostResolutionType.host
      → rejects addresses config r.client_ip ≡ true
      → resolve_with addresses r config ≡ none
  unfolding resolve_with resolve_from_forwarded_header resolve_from_x_forwarded_headers
  resolve_with-rejects r config HostResolutionType.host e n k = absurd (n refl)
  resolve_with-rejects r config HostResolutionType.forwarded e n k =
      elim (Option-cases r.forwarded_header) [
        | inl f ↦ rw (e, resolve_with, f) refl
        | inr (v, f) ↦ rw (e, resolve_with, f, k) refl
      ]
  resolve_with-rejects r config HostResolutionType.x_forwarded e n k = rw (e, resolve_with, k) refl

  resolve_with-trusted :
      (r : RequestInfo) (config : HostResolutionConfig) (ip : ℕ) (u : ResolvedUrl)
      → config.resolution_type ≢ HostResolutionType.host
      → r.client_ip ≡ some ip
      → resolve_with addresses r config ≡ some u
      → is_trusted_proxy addresses config ip ≡ true
  resolve_with-trusted r config ip u n c h =
      elim (Bool-cases (is_trusted_proxy addresses config ip)) [
        | inl t ↦ t
        | inr f ↦
            let rejected = ap (rejects addresses config) c ∙ ap not f in
            let nothing = resolve_with-rejects r config config.resolution_type refl n rejected in
            absurd (cc)
      ]

  -- A tenant that takes its host from the headers of a proxy is found only for a request from a
  -- trusted address, where the address is known.
  pub find_tenant_by_request-trusted :
      (config : AppConfig) (r : RequestInfo) (t : TenantConfig) (u : ResolvedUrl) (host : Text)
      (resolution : HostResolutionConfig) (ip : ℕ)
      → t.host ≡ some host
      → t.host_resolution ≡ some resolution
      → resolution.resolution_type ≢ HostResolutionType.host
      → r.client_ip ≡ some ip
      → find_tenant_by_request addresses config r ≡ some (t, u)
      → is_trusted_proxy addresses resolution ip ≡ true
  unfolding resolve
  find_tenant_by_request-trusted config r t u host resolution ip k l n c h =
      elim ((find_tenant_by_request_sound config r t u h).1.1) [
        | inl e ↦ absurd (cc)
        | inr (host, v, e, a, b) ↦ resolve_with-trusted r resolution ip v n c (rw l at a)
      ]
