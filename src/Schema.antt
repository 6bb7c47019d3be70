-- ===== src/Schema.antt =====
-- src/schema: the rules that the SCIM schemas put on resources.
pub mod Primary
pub mod Definitions
pub mod Tables
pub mod Lookup
