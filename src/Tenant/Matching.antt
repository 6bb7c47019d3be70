-- ===== src/Tenant/Matching.antt =====
-- Which tenant a request reaches: `matches_request`, `matches_custom_endpoint` and
-- `find_tenant_by_request`.
use scim_server.Common.{
  ◌≡◌, refl, sym, ap, ◌∙◌, ◌↔◌, ◌⊎◌, Option, none, some, List, [], ◌∷◌, arith, Option-cases,
  Bool-cases, inl, inr, some_inj,
}
use mathlib.Core.List.{Memᴰ}
use scim_server.Text.{Text, ◌==◌, starts_with}
use scim_server.Text.Laws.{eq_iff}
use scim_server.Text.Patterns.{StartsWith, starts_with_iff}
use scim_server.Config.{TenantConfig, CustomEndpoint}
use scim_server.Host.{RequestInfo, Addresses, ResolvedUrl}
use scim_server.Tenant.{
  first_matching, matches_request, resolve, endpoint_url, of_host, with_path, plain_url,
}

-- The request comes to the host of the tenant, where it has one.
abbrev pub AtHost : Addresses → TenantConfig → RequestInfo → Type 0
AtHost addresses t r =
    (t.host ≡ none)
    ⊎ ((host : Text) × (u : ResolvedUrl) × (t.host ≡ some host)
        × (resolve addresses t r ≡ some u)
        × (u.host ≡ host))

-- The path is that of a custom endpoint of the tenant.
abbrev pub AtEndpoint : TenantConfig → RequestInfo → Type 0
AtEndpoint t r = (e : CustomEndpoint) × Memᴰ e t.custom_endpoints × (e.path ≡ r.path)

-- The request is for the tenant.
abbrev pub Reaches : Addresses → TenantConfig → RequestInfo → Type 0
Reaches addresses t r = (AtEndpoint t r ⊎ StartsWith r.path t.path) × AtHost addresses t r

pub first_matching_sound :
    (f : TenantConfig → Option ResolvedUrl) (ts : List TenantConfig) (t : TenantConfig)
    (u : ResolvedUrl)
    → first_matching f ts ≡ some (t, u)
    → Memᴰ t ts × (f t ≡ some u)
unfolding first_matching
first_matching_sound f [] t u h = cc
first_matching_sound f (x ∷ ts) t u h = elim (Option-cases (f x)) [
  | inl e ↦
      let (m, k) = first_matching_sound f ts t u (rw (e, first_matching) at h) in (Memᴰ.tail m, k)
  | inr (v, e) ↦
      let same = some_inj.0 (rw (e, first_matching) at h) in
      (Memᴰ.head (sym (ap (λ p. p.0) same)), cc)
]

pub first_matching-found :
    (f : TenantConfig → Option ResolvedUrl) (ts : List TenantConfig) (t : TenantConfig)
    (u : ResolvedUrl)
    → Memᴰ t ts
    → f t ≡ some u
    → (found : TenantConfig × ResolvedUrl) × (first_matching f ts ≡ some found)
unfolding first_matching
first_matching-found f [] t u m h = elim m [ ]
first_matching-found f (x ∷ ts) t u m h = elim (Option-cases (f x)) [
  | inr (v, e) ↦ ((x, v), ground (arith, e))
  | inl e ↦ elim m [
    | Memᴰ.head k ↦ absurd (cc)
    | Memᴰ.tail m ↦
        let (found, k) = first_matching-found f ts t u m h in (found, ground (arith, e, k))
  ]
]

of_host_iff :
    (host : Text) (v u : ResolvedUrl)
    → (of_host host (some v) ≡ some u) ↔ ((v ≡ u) × (v.host ≡ host))
of_host_iff host v u = elim (Bool-cases (v.host == host)) [
  | inl e ↦
      ((λ h. (some_inj.0 (rw e at h), (eq_iff v.host host).0 e)), (λ (k, l). rw e (ap some k)))
  | inr e ↦ (
    (λ h. absurd (ground (arith, e))),
    (λ (k, l). absurd (ground (arith, e, (eq_iff v.host host).1 l))),
  )
]

-- The tail of both: the host, then the address.
hosted :
    (host : Text) (o : Option ResolvedUrl) (u : ResolvedUrl)
    → of_host host o ≡ some u
    → (v : ResolvedUrl) × (o ≡ some v) × (v.host ≡ host)
hosted host none u h = cc
hosted host (some v) u h = (v, refl, ((of_host_iff host v u).0 h).1)

hosted_back :
    (host : Text) (o : Option ResolvedUrl) (v : ResolvedUrl)
    → o ≡ some v
    → v.host ≡ host
    → of_host host o ≡ some v
hosted_back host none v h k = cc
hosted_back host (some w) v h k =
    (of_host_iff host w v).1 (some_inj.0 h, ap (λ x. x.host) (some_inj.0 h) ∙ k)

with_path-some :
    (path : Text) (o : Option ResolvedUrl) (u : ResolvedUrl)
    → with_path path o ≡ some u
    → (v : ResolvedUrl) × (o ≡ some v)
with_path-some path none u h = cc
with_path-some path (some v) u h = (v, refl)

module _ (addresses : Addresses) where
  pub endpoint_url-AtHost :
      (t : TenantConfig) (r : RequestInfo) (path : Text) (u : ResolvedUrl)
      → endpoint_url addresses t r path ≡ some u
      → AtHost addresses t r
  unfolding resolve
  endpoint_url-AtHost t r path u h = elim (Option-cases t.host) [
    | inl e ↦ inl e
    | inr (host, e) ↦
        let (v, k) = with_path-some path (of_host host (resolve addresses t r)) u (rw e at h) in
        let (w, a, b) = hosted host (resolve addresses t r) v k in inr (host, w, e, a, b)
  ]

  pub AtHost-endpoint_url :
      (t : TenantConfig) (r : RequestInfo) (path : Text)
      → AtHost addresses t r
      → (u : ResolvedUrl) × (endpoint_url addresses t r path ≡ some u)
  unfolding resolve
  AtHost-endpoint_url t r path (inl e) = (plain_url r path, rw e refl)
  AtHost-endpoint_url t r path (inr (host, v, e, a, b)) =
      (record v { path = path }, rw (e, hosted_back host (resolve addresses t r) v a b) refl)

  pub matches_request-AtHost :
      (t : TenantConfig) (r : RequestInfo) (u : ResolvedUrl)
      → matches_request addresses t r ≡ some u
      → StartsWith r.path t.path × AtHost addresses t r
  unfolding matches_request
  matches_request-AtHost t r u h = elim (Bool-cases (starts_with r.path t.path)) [
    | inr p ↦ absurd (ground (arith, p))
    | inl p ↦ (
      (starts_with_iff r.path t.path).0 p,
      elim (Option-cases t.host) [
        | inl e ↦ inl e
        | inr (host, e) ↦
            let (w, a, b) =
              hosted host (resolve addresses t r) u (rw (p, e, matches_request) at h) in
            inr (host, w, e, a, b)
      ],
    )
  ]

  pub AtHost-matches_request :
      (t : TenantConfig) (r : RequestInfo)
      → StartsWith r.path t.path
      → AtHost addresses t r
      → (u : ResolvedUrl) × (matches_request addresses t r ≡ some u)
  unfolding matches_request
  AtHost-matches_request t r p (inl e) =
      (plain_url r r.path, rw ((starts_with_iff r.path t.path).1 p, e, matches_request) refl)
  AtHost-matches_request t r p (inr (host, v, e, a, b)) = (
    v,
    rw ((starts_with_iff r.path t.path).1 p, e, matches_request)
        (hosted_back host (resolve addresses t r) v a b),
  )
