-- ===== src/Host.antt =====
-- The address of a request, src/config.rs: from its Host, Forwarded or X-Forwarded headers.
use scim_server.Common.{
  ℕ, suc, Bool, true, false, not, ◌||◌, Option, none, some, List, [], ◌∷◌, nat_eq, if◌then◌else◌,
  take, drop,
}
use scim_server.Text.{Text, ◌==◌, codes, rfind, find, split, trim}
use scim_server.Text.Numbers.{parse_unsigned}
use scim_server.Config.{HostResolutionConfig, HostResolutionType}

pub record ResolvedUrl : Type 0 where
  pub scheme : Text
  pub host : Text
  pub port : Option ℕ
  pub path : Text

-- An address of `IpAddr` is a number.
pub record RequestInfo : Type 0 where
  pub path : Text
  pub host_header : Option Text
  pub forwarded_header : Option Text
  pub x_forwarded_proto : Option Text
  pub x_forwarded_host : Option Text
  pub x_forwarded_port : Option Text
  pub client_ip : Option ℕ

-- `IpNet::from_str` with `contains`, of the crate ipnet, and `IpAddr::from_str`.
pub record Addresses : Type 0 where
  pub parse_range : Text → Option (ℕ → Bool)
  pub parse_ip : Text → Option ℕ

abbrev pub parse_u16 : Text → Option ℕ
parse_u16 = parse_unsigned 0xffff

abbrev pub or_else {ℓ} : {A : Type ℓ} → A → Option A → A
or_else d none = d
or_else d (some a) = a

unfoldable pub trim_char : ℕ → Text → Text
trim_char c [] = []
trim_char c (d ∷ s) = let rest = trim_char c s in if nat_eq d c then rest else d ∷ s

-- `s.trim_end_matches(c)`
unfoldable pub trim_end_char : ℕ → Text → Text
trim_end_char c [] = []
trim_end_char c (d ∷ s) = elim (trim_end_char c s) [
  | [] ↦ if nat_eq d c then [] else d ∷ []
  | e ∷ t ↦ d ∷ e ∷ t
]

abbrev pub is_empty : Text → Bool
is_empty [] = true
is_empty (c ∷ s) = false

-- `HOST:PORT`, or all of it as the host where no port number follows the last colon.
unfoldable pub split_port : Text → Text × Option ℕ
split_port h = elim (rfind b':' h) [
  | none ↦ (h, none)
  | some i ↦ elim (parse_u16 (drop (suc i) h)) [ none ↦ (h, none) | some p ↦ (take i h, some p) ]
]

unfoldable pub resolve_from_host_header : RequestInfo → Option ResolvedUrl
unfolding split_port
resolve_from_host_header r = elim r.host_header [
  | none ↦ none
  | some h ↦ some (record {
    scheme = codes "http";
    host = (split_port h).0;
    port = (split_port h).1;
    path = r.path;
  })
]

-- The variables of the loop over the parts of a Forwarded header.
pub record Forwarded : Type 0 where
  pub scheme : Text
  pub host : Text
  pub port : Option ℕ

-- `"host" => …`: a port that is no number leaves the one before.
unfoldable pub forwarded_host : Text → Forwarded → Forwarded
forwarded_host v f = elim (rfind b':' v) [
  | none ↦ record f { host = v }
  | some i ↦ elim (parse_u16 (drop (suc i) v)) [
    | none ↦ record f { host = take i v }
    | some p ↦ record f { host = take i v; port = some p }
  ]
]

unfoldable pub forwarded_part : Text → Forwarded → Forwarded
unfolding forwarded_host trim_char trim_end_char
forwarded_part part f = elim (find b'=' part) [
  | none ↦ f
  | some i ↦
      let key = take i part in
      let v = trim_end_char 0x22 (trim_char 0x22 (drop (suc i) part)) in
      if key == codes "proto"
      then record f { scheme = v }
      else if key == codes "host"
      then forwarded_host v f
      else f
]

unfoldable pub forwarded_parts : List Text → Forwarded → Forwarded
unfolding forwarded_part
forwarded_parts [] f = f
forwarded_parts (part ∷ parts) f = forwarded_parts parts (forwarded_part (trim part) f)

abbrev pub forwarded_init : Forwarded
forwarded_init = record { scheme = codes "https"; host = []; port = none }

abbrev pub url_of : Text → Forwarded → Option ResolvedUrl
url_of path f =
    if is_empty f.host
    then none
    else some (record { scheme = f.scheme; host = f.host; port = f.port; path = path })

module _ (addresses : Addresses) where
  unfoldable pub is_in_ranges : ℕ → List Text → Bool
  is_in_ranges ip [] = false
  is_in_ranges ip (range ∷ ranges) =
      (elim (addresses.parse_range range) [
        | some has ↦ has ip
        | none ↦ elim (addresses.parse_ip range) [ none ↦ false | some a ↦ nat_eq a ip ]
      ])
      || is_in_ranges ip ranges

  unfoldable pub is_trusted_proxy : HostResolutionConfig → ℕ → Bool
  unfolding is_in_ranges
  is_trusted_proxy config ip = elim config.trusted_proxies [
    | none ↦ true
    | some ranges ↦ is_in_ranges ip ranges
  ]

  -- `if let Some(client_ip) = … { if !is_trusted_proxy … { return None } }`
  abbrev pub rejects : HostResolutionConfig → Option ℕ → Bool
  rejects config none = false
  rejects config (some ip) = not (is_trusted_proxy config ip)

  unfoldable pub resolve_from_forwarded_header :
      RequestInfo → HostResolutionConfig → Option ResolvedUrl
  unfolding is_trusted_proxy forwarded_parts
  resolve_from_forwarded_header r config = elim r.forwarded_header [
    | none ↦ none
    | some header ↦
        if rejects config r.client_ip
        then none
        else url_of r.path (forwarded_parts (split b';' header) forwarded_init)
  ]

  -- The port of the header of its own, where the host has no colon.
  unfoldable pub x_forwarded_host_port : RequestInfo → Text → Text × Option ℕ
  unfolding split_port
  x_forwarded_host_port r h = elim (rfind b':' h) [
    | some i ↦ split_port h
    | none ↦ (h, elim r.x_forwarded_port [ none ↦ none | some p ↦ parse_u16 p ])
  ]

  unfoldable pub resolve_from_x_forwarded_headers :
      RequestInfo → HostResolutionConfig → Option ResolvedUrl
  unfolding is_trusted_proxy x_forwarded_host_port
  resolve_from_x_forwarded_headers r config =
      if rejects config r.client_ip then none else elim r.x_forwarded_host [
        | none ↦ none
        | some h ↦ some (record {
          scheme = or_else (codes "https") r.x_forwarded_proto;
          host = (x_forwarded_host_port r h).0;
          port = (x_forwarded_host_port r h).1;
          path = r.path;
        })
      ]

  -- `resolve_url_from_request_with_resolution`
  unfoldable pub resolve_with : RequestInfo → HostResolutionConfig → Option ResolvedUrl
  unfolding resolve_from_host_header resolve_from_forwarded_header resolve_from_x_forwarded_headers
  resolve_with r config = elim config.resolution_type [
    | HostResolutionType.host ↦ resolve_from_host_header r
    | HostResolutionType.forwarded ↦ resolve_from_forwarded_header r config
    | HostResolutionType.x_forwarded ↦ resolve_from_x_forwarded_headers r config
  ]
