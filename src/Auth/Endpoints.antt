-- ===== src/Auth/Endpoints.antt =====
-- Which configuration a request is checked by: that of the custom endpoint on its path, or the
-- tenant's.
use scim_server.Common.{
  ◌≡◌, ◌↔◌, ◌∙◌, ap, refl, subst, Bool, false, none, some, Option, List, [], ◌∷◌, ◌++◌, any, arith,
}
use scim_server.Text.{Text, ◌==◌}
use scim_server.Text.Laws.{eq_iff}
use scim_server.Config.{AuthConfig, CustomEndpoint, TenantConfig, effective_auth_config}
use scim_server.Host.{RequestInfo, Addresses}
use scim_server.Auth.{passed, TenantInfo, info_of, authenticate, auth_config_at, endpoint_at}
use scim_server.Auth.Access.{authenticate_iff}
use scim_server.Auth.Credentials.{MayPass, validate_authentication_iff}

abbrev pub is_on : Text → CustomEndpoint → Bool
is_on path e = e.path == path

endpoint_at-none :
    (path : Text) (es : List CustomEndpoint)
    → any (is_on path) es ≡ false
    → endpoint_at path es ≡ none
unfolding endpoint_at
endpoint_at-none path [] h = refl
endpoint_at-none path (e ∷ es) h = ground (arith, endpoint_at-none path es)

endpoint_at-first :
    (path : Text) (before after : List CustomEndpoint) (e : CustomEndpoint)
    → any (is_on path) before ≡ false
    → e.path ≡ path
    → endpoint_at path (before ++ e ∷ after) ≡ some e
unfolding endpoint_at
endpoint_at-first path [] after e h k = rw ((eq_iff e.path path).1 k) refl
endpoint_at-first path (x ∷ before) after e h k =
    let rest = endpoint_at-first path before after e (ground (arith, h)) k in
    let here : x.path == path ≡ false = ground (arith, h) in rw here rest

auth_config_at-first :
    (tenant : TenantConfig) (path : Text) (e : CustomEndpoint) (auth : AuthConfig)
    → endpoint_at path tenant.custom_endpoints ≡ some e
    → e.auth ≡ some auth
    → auth_config_at tenant path ≡ auth
unfolding auth_config_at effective_auth_config
auth_config_at-first tenant path e auth h a = rw (h, a, auth_config_at, effective_auth_config) refl

auth_config_at-tenant :
    (tenant : TenantConfig) (path : Text)
    → endpoint_at path tenant.custom_endpoints ≡ none
    → auth_config_at tenant path ≡ tenant.auth
unfolding auth_config_at
auth_config_at-tenant tenant path h = rw (h, auth_config_at) refl

module _ (addresses : Addresses) (decode : Text → Option Text) where
  authenticate-config :
      (tenant : TenantConfig) (r : RequestInfo) (header : Option Text) (info : TenantInfo)
      (auth : AuthConfig)
      → auth_config_at tenant r.path ≡ auth
      → (authenticate addresses decode tenant r header ≡ passed info)
        ↔ (MayPass decode auth header × (info_of addresses tenant r ≡ info))
  authenticate-config tenant r header info auth h =
      let (to, from) = authenticate_iff addresses decode tenant r header info in
      let config = auth_config_at tenant r.path in
      subst
        (λ c.
          (authenticate addresses decode tenant r header ≡ passed info)
          ↔ (MayPass decode c header × (info_of addresses tenant r ≡ info)))
        h
        (
          (λ x. ((validate_authentication_iff decode config header).0 (to x).0, (to x).1)),
          (λ (m, i). from ((validate_authentication_iff decode config header).1 m, i)),
        )

  -- Where the first custom endpoint of the tenant on the request's path has a configuration of its own,
  -- the request is let through exactly if its header meets that configuration, whatever the tenant's
  -- own is; what is handed on is what the tenant and the request give.
  pub authenticate-endpoint :
      (tenant : TenantConfig) (r : RequestInfo) (header : Option Text) (info : TenantInfo)
      (before after : List CustomEndpoint) (e : CustomEndpoint) (auth : AuthConfig)
      → tenant.custom_endpoints ≡ before ++ e ∷ after
      → any (is_on r.path) before ≡ false
      → e.path ≡ r.path
      → e.auth ≡ some auth
      → (authenticate addresses decode tenant r header ≡ passed info)
        ↔ (MayPass decode auth header × (info_of addresses tenant r ≡ info))
  authenticate-endpoint tenant r header info before after e auth h n p a =
      authenticate-config tenant r header info auth (
        auth_config_at-first tenant r.path e auth
          (ap (endpoint_at r.path) h ∙ endpoint_at-first r.path before after e n p) a)

  -- Where no custom endpoint of the tenant is on the request's path, the tenant's configuration decides.
  authenticate-tenant :
      (tenant : TenantConfig) (r : RequestInfo) (header : Option Text) (info : TenantInfo)
      → any (is_on r.path) tenant.custom_endpoints ≡ false
      → (authenticate addresses decode tenant r header ≡ passed info)
        ↔ (MayPass decode tenant.auth header × (info_of addresses tenant r ≡ info))
  authenticate-tenant tenant r header info n =
      authenticate-config tenant r header info tenant.auth
        (auth_config_at-tenant tenant r.path (endpoint_at-none r.path tenant.custom_endpoints n))
