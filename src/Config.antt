-- ===== src/Config.antt =====
-- The configuration of src/config.rs and its defaults.
pub mod Env
pub mod Expansion
pub mod Ends
mod Tests
use scim_server.Common.{
  ℕ, ◌≡◌, Bool, true, false, Option, none, some, List, [], ◌∷◌, nat_eq, if◌then◌else◌,
}
use scim_server.Text.{Text, codes}

pub record CompatibilityConfig : Type 0 where
  pub meta_datetime_format : Text
  pub show_empty_groups_members : Bool
  pub include_user_groups : Bool
  pub support_group_members_filter : Bool
  pub support_group_displayname_filter : Bool
  pub support_patch_replace_empty_array : Bool
  pub support_patch_replace_empty_value : Bool

abbrev pub default_config : CompatibilityConfig
default_config = record {
  meta_datetime_format = codes "rfc3339";
  show_empty_groups_members = true;
  include_user_groups = true;
  support_group_members_filter = true;
  support_group_displayname_filter = true;
  support_patch_replace_empty_array = true;
  support_patch_replace_empty_value = false;
}

pub record BasicAuthConfig : Type 0 where
  pub username : Text
  pub password : Text

pub record AuthConfig : Type 0 where
  pub auth_type : Text
  pub token : Option Text
  pub basic : Option BasicAuthConfig

pub record CustomEndpoint : Type 0 where
  pub path : Text
  pub response : Text
  pub status_code : ℕ
  pub content_type : Text
  pub auth : Option AuthConfig

pub data HostResolutionType : Type 0 where
  host forwarded x_forwarded : HostResolutionType

pub record HostResolutionConfig : Type 0 where
  pub resolution_type : HostResolutionType
  pub trusted_proxies : Option (List Text)

pub record TenantConfig : Type 0 where
  pub id : ℕ
  pub path : Text
  pub host : Option Text
  pub host_resolution : Option HostResolutionConfig
  pub auth : AuthConfig
  pub override_base_url : Option Text
  pub custom_endpoints : List CustomEndpoint
  pub compatibility : Option CompatibilityConfig

pub record ServerConfig : Type 0 where
  pub host : Text
  pub port : ℕ

pub record DatabaseConfig : Type 0 where
  pub db_type : Text
  pub url : Text
  pub max_connections : ℕ

pub record BackendConfig : Type 0 where
  pub backend_type : Text
  pub database : Option DatabaseConfig

pub record AppConfig : Type 0 where
  pub server : ServerConfig
  pub backend : BackendConfig
  pub tenants : List TenantConfig
  pub compatibility : CompatibilityConfig

-- `AppConfig::default_config`: one tenant, open to everyone.
abbrev pub default_app_config : AppConfig
default_app_config = record {
  server = record { host = codes "127.0.0.1"; port = 3000 };
  backend = record {
    backend_type = codes "database";
    database =
        some (record { db_type = codes "sqlite"; url = codes ":memory:"; max_connections = 1 });
  };
  compatibility = default_config;
  tenants =
      record {
        id = 1;
        path = codes "/scim/v2";
        host = none;
        host_resolution = none;
        auth = record { auth_type = codes "unauthenticated"; token = none; basic = none };
        override_base_url = none;
        custom_endpoints = [];
        compatibility = none;
      }
      ∷ [];
}

-- `tenants.iter().find(|t| t.id == tenant_id)`
unfoldable pub find_tenant : ℕ → List TenantConfig → Option TenantConfig
find_tenant id [] = none
find_tenant id (t ∷ ts) = let rest = find_tenant id ts in if nat_eq t.id id then some t else rest

unfoldable pub get_effective_compatibility : AppConfig → ℕ → CompatibilityConfig
unfolding find_tenant
get_effective_compatibility config id = elim (find_tenant id config.tenants) [
  | none ↦ config.compatibility
  | some t ↦ elim t.compatibility [ none ↦ config.compatibility | some c ↦ c ]
]

unfoldable pub effective_auth_config : CustomEndpoint → AuthConfig → AuthConfig
effective_auth_config e tenant_auth = elim e.auth [ none ↦ tenant_auth | some a ↦ a ]
